-- ===== src/WorkspaceDo/Tests.antt =====
-- Tables of a project with two claims, and what is persisted into them.
use noware.Prelude.{arith, String, true, ◌≡◌, refl, none, some, [], ◌∷◌, map, mem, get, All}
use mathlib.Core.List.{reverse, reverse_perm}
use noware.Exec.{ok}
use noware.Model.{plain, queue, container, a_container}
use noware.Model.Collab.{Claim}
use noware.Model.Rows.{NodeRow, node_to_row, export_rows}
use noware.Model.Rows.RoundTrip.{IsExportable}
use noware.Model.Sample.{wired, api}
use noware.Cfour.{Event, Op, bare}
use noware.Cfour.Sample
use noware.Cfour.Sample.{world, of_ann}
use noware.WorkspaceDo.{Store}
use noware.WorkspaceDo.Rows.{insert_node_row}
use noware.WorkspaceDo.Log.{query_events_sync}
use noware.Cfour.Events.Query.{EventQuery}
use noware.WorkspaceDo.Persist.{persist, removed_node_ids, removed_rel_ids}
use noware.WorkspaceDo.Hydrate.{RowOrder, stored_claims, stored_rows}
use noware.WorkspaceDo.Hydrate.Removed.{Spares, SparesLink, persist-Spares}
use noware.WorkspaceDo.Hydrate.Imported.{IsKeyed, IsOrder, Restores, persist-rows_to_workspace}

abbrev empty : Store
empty = record {
  cfour = record Sample.start { workspaces = ("model", wired) ∷ [] };
  hydrated = "model" ∷ [];
  event_log_max = some 2;
  workspaces = [];
  branch_base = [];
  nodes = [];
  relationships = [];
  claims = [];
  claim_elements = [];
  claim_relationships = [];
  relationship_proposals = [];
  proposal_pending_approvals = [];
  views = [];
  events = [];
  clock = λ n. n;
  reads = 0;
  max_parameters = 100;
}

-- The removal of an element on a branch, and a claim of the workspace that it was made from.
abbrev on_draft : Event
on_draft = record (bare Op.remove "draft") { element_id = some "api" }

abbrev with_bob : Store
with_bob = record empty {
  claims =
      record {
        id = "c2";
        workspace_name = "model";
        editor_id = "bob";
        created_at = 0;
        last_seen_at = 300_000;
      }
      ∷ [];
  claim_elements = record { owner = "c2"; member = "api" } ∷ [];
}

persist-Spares_example :
    (t : Store) × (persist (record on_draft { op = Op.remove }) with_bob ≡ (ok tt, t))
    × ((name id : String)
        → mem id (removed_node_ids on_draft) ≡ true
        → All (Spares id) (stored_claims name t))
    × ((name id : String)
        → mem id (removed_rel_ids on_draft) ≡ true
        → All (SparesLink id) (stored_claims name t))
unfolding removed_node_ids removed_rel_ids
persist-Spares_example = persist-Spares on_draft with_bob (omega arith) (omega arith)

-- Bob's claim covered the container of the model before.
before_removal :
    map (λ (c : Claim). c.element_ids) (stored_claims "model" with_bob) ≡ ("api" ∷ []) ∷ []
unfolding stored_claims
before_removal = refl

after_removal :
    map (λ (c : Claim). c.element_ids) (stored_claims "model" (persist on_draft with_bob).1)
    ≡ [] ∷ []
unfolding stored_claims persist mem
after_removal = refl

-- The row of a container that became a queue still says that it is a container.
abbrev api_row : NodeRow
api_row = node_to_row "model" (a_container api)

abbrev queue_row : NodeRow
queue_row = node_to_row "model" (a_container (record api { kind = queue }))

keeps_kind :
    map
      (λ (r : NodeRow). r.kind)
      (insert_node_row queue_row true (record empty { nodes = api_row ∷ [] })).1.nodes
    ≡ container plain ∷ []
unfolding insert_node_row node_to_row
keeps_kind = refl

wired-IsKeyed : IsKeyed "model" wired
unfolding export_rows mem
wired-IsKeyed = record { nodes = (refl, (refl, tt)); relationships = (refl, tt) }

wired-IsExportable : IsExportable wired
unfolding mem
wired-IsExportable = record {
  systems = (refl, tt);
  containers = (refl, tt);
  components = tt;
  named_systems = refl;
  named_containers = refl;
  named_components = refl;
  in_systems = ((refl, tt), tt);
  in_containers = (tt, tt);
  in_components = tt;
}

-- A database that gives the newest rows first.
abbrev newest_first : RowOrder
newest_first = record { of_nodes = reverse; of_relationships = reverse }

newest_first-IsOrder : IsOrder newest_first
newest_first-IsOrder = record { nodes = λ l. reverse_perm l; relationships = λ l. reverse_perm l }

persist-rows_to_workspace_example :
    (t : Store) × (persist (record (bare Op.import "model") { op = Op.import }) empty ≡ (ok tt, t))
    × Restores "model" none wired (stored_rows newest_first "model" t)
unfolding get
persist-rows_to_workspace_example =
    persist-rows_to_workspace newest_first (bare Op.import "model") wired none empty
      newest_first-IsOrder refl wired-IsKeyed wired-IsExportable

-- The page after the first of the model's removals.
abbrev removals : EventQuery
removals = record {
  workspace_name = some "model";
  op = some Op.remove;
  element_id = none;
  element_kind = none;
  since = none;
  until = none;
  limit = none;
  offset = some 1;
}

queried :
    query_events_sync removals (record empty {
      events =
          map
            (λ e. record { payload = e; timestamp = 7 })
            (bare Op.remove "model"
              ∷ on_draft
              ∷ bare Op.add "model"
              ∷ record (bare Op.remove "model") { element_id = some "api" }
              ∷ []);
    })
    ≡ record (bare Op.remove "model") { element_id = some "api" } ∷ []
unfolding query_events_sync
queried = refl
