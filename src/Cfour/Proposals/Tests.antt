-- ===== src/Cfour/Proposals/Tests.antt =====
-- Approvals at a small model.
use noware.Prelude.{◌≡◌, refl, none, some, [], ◌∷◌, get, mem, exclude}
use noware.Exec.{ok}
use noware.Model.Collab.{Proposal}
use noware.Model.Sample.{uses, model}
use noware.Cfour.{State}
use noware.Cfour.Sample.{start}
use noware.Cfour.Proposals.{proposals_of, accept_relationship}
use noware.Cfour.Mutators.Linking.{with_relationship}
use noware.Cfour.Proposals.Approval.{approved, accept_relationship-waits, accept_relationship-last}

abbrev proposal : Proposal
proposal = record {
  id = "p1";
  relationship = uses;
  workspace_name = "model";
  proposer_id = "cyd";
  pending_approvals = "ann" ∷ "bob" ∷ [];
  created_at = 0;
}

abbrev proposing : Proposal → State
proposing p = record start { proposals = ("model", ("p1", p) ∷ []) ∷ [] }

accept_relationship-waits_example :
    ((accept_relationship "p1" "ann" "model" (proposing proposal)).0 ≡ ok tt)
    × ((accept_relationship "p1" "ann" "model" (proposing proposal)).1.workspaces
        ≡ (proposing proposal).workspaces)
    × (get "p1"
          (proposals_of "model" (accept_relationship "p1" "ann" "model" (proposing proposal)).1)
        ≡ some (approved "ann" proposal))
unfolding proposals_of get mem exclude
accept_relationship-waits_example =
    accept_relationship-waits "p1" "ann" "model" (proposing proposal) proposal refl refl refl

-- Ann approved before.
abbrev later : State
later = proposing (record proposal { pending_approvals = "bob" ∷ [] })

accept_relationship-last_example :
    ((accept_relationship "p1" "bob" "model" later).0 ≡ ok tt)
    × (get "model" (accept_relationship "p1" "bob" "model" later).1.workspaces
        ≡ some (with_relationship uses model))
    × (get "p1" (proposals_of "model" (accept_relationship "p1" "bob" "model" later).1) ≡ none)
unfolding proposals_of get mem exclude
accept_relationship-last_example =
    accept_relationship-last "p1" "bob" "model" later
      (record proposal { pending_approvals = "bob" ∷ [] }) model refl refl refl refl
