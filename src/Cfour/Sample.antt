-- ===== src/Cfour/Sample.antt =====
-- A state that the tests share: a small model, on which Ann claims the system and Bob the container.
use noware.Prelude.{[], ◌∷◌}
use noware.Model.Collab.{Claim}
use noware.Model.Sample.{model}
use noware.Cfour.{State, World, initial}
use noware.Cfour.Claims.{Claims}

abbrev pub world : World
world = record { clock = λ n. 400_000; reads = 0; uuids = λ n. "u"; draws = 0 }

abbrev pub of_ann : Claim
of_ann = record {
  id = "c1";
  editor_id = "ann";
  workspace_name = "model";
  element_ids = "shop" ∷ [];
  relationship_ids = [];
  created_at = 0;
  last_seen_at = 0;
}

abbrev pub of_bob : Claim
of_bob = record of_ann {
  id = "c2";
  editor_id = "bob";
  element_ids = "api" ∷ [];
  last_seen_at = 300_000;
}

abbrev pub both : Claims
both = ("c1", of_ann) ∷ ("c2", of_bob) ∷ []

abbrev pub start : State
start = record (initial world) { workspaces = ("model", model) ∷ []; claims = ("model", both) ∷ [] }
