-- ===== src/Cfour/Events/Query/Tests.antt =====
-- A query of a short log.
use noware.Prelude.{refl, ◌≡◌, none, some, [], ◌∷◌}
use noware.Cfour.{State, Op, bare}
use noware.Cfour.Sample.{start}
use noware.Cfour.Events.Query.{EventQuery, query_event_history}

abbrev logged : State
logged = record start { event_log = bare Op.reset "draft" ∷ bare Op.merge "model" ∷ [] }

abbrev merges_of_model : EventQuery
merges_of_model = record {
  workspace_name = some "model";
  op = some Op.merge;
  element_id = some "";
  element_kind = none;
  since = none;
  until = some 0;
  limit = some 1;
  offset = none;
}

-- The merge is found, and an empty id and a time of 0 filter nothing.
found : query_event_history merges_of_model logged ≡ bare Op.merge "model" ∷ []
unfolding query_event_history
found = refl
