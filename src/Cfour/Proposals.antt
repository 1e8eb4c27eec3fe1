-- ===== src/Cfour/Proposals.antt =====
-- Joint approval of relationships in `BaseCfour`: `proposeRelationship`, `acceptRelationship`,
-- `rejectRelationship`, `getRelationshipProposals`, `setProposalTtl`, `expireStaleProposals`,
-- `restoreProposals` and the private `_proposalsFor`.
pub mod Approval
mod Tests
use noware.Prelude.{
  ℕ, ◌-◌, String, Bool, not, ◌||◌, Option, none, some, List, [], ◌∷◌, ltb, if◌then◌else◌, ◌==◌,
  filter, Map, get, set, delete, values, map, get_or, mem, include, exclude, from_list,
}
use noware.Exec.{ok, ◌>>=◌, ◌>>◌, pure, throw, modify, throw_if, for_each}
use noware.Model.{Relationship}
use noware.Model.Collab.{Claim, Proposal}
use noware.Cfour.{
  State, M, Op, bare, a_proposal, no_claim_boundary, proposal_not_found, approval_not_required,
  no_standing, date_now, random_uuid,
}
use noware.Cfour.Events.{notify}
use noware.Cfour.Claims.{get_claim_for, is_empty}
use noware.Cfour.Mutators.{add_relationship_raw}

abbrev pub Proposals : Type 0
Proposals = Map Proposal

-- The proposals of a workspace, without the map that `_proposalsFor` makes where there is none.
unfoldable pub proposals_of : String → State → Proposals
proposals_of name s = get_or (get name s.proposals) []

unfoldable pub put_proposals : String → Proposals → State → State
put_proposals name proposals s = record s { proposals = set name proposals s.proposals }

-- `_proposalsFor`
unfoldable pub proposals_for : String → M Proposals
proposals_for name s = elim (get name s.proposals) [
  | none ↦ (ok [], put_proposals name [] s)
  | some proposals ↦ (ok proposals, s)
]

abbrev pub approver : String → Option Claim → List String → List String
approver proposer none s = s
approver proposer (some c) s = if c.editor_id == proposer then s else include c.editor_id s

-- The editors other than the proposer who hold a claim on an endpoint.
abbrev pub approvers : String → Option Claim → Option Claim → List String
approvers proposer source destination = approver proposer destination (approver proposer source [])

abbrev pub notify_proposal : Op → String → Proposal → State → State
notify_proposal op name p = notify (record (bare op name) { payload = some (a_proposal p) })

abbrev pub set_proposal : String → Proposal → State → State
set_proposal name p s = put_proposals name (set p.id p (proposals_of name s)) s

abbrev pub drop_proposal : String → String → State → State
drop_proposal name id s = put_proposals name (delete id (proposals_of name s)) s

unfoldable pub propose_relationship : Relationship → String → String → M Proposal
propose_relationship rel proposer name = do
  source ← get_claim_for rel.source_id name
  destination ← get_claim_for rel.destination_id name
  let pending = approvers proposer source destination
  throw_if (is_empty pending) (no_claim_boundary rel.id name)
  id ← random_uuid
  now ← date_now
  let created : Proposal = record {
    id = id;
    relationship = rel;
    workspace_name = name;
    proposer_id = proposer;
    pending_approvals = pending;
    created_at = now;
  }
  proposals_for name
  modify (set_proposal name created)
  modify (notify_proposal Op.propose_relationship name created)
  pure created

-- `acceptRelationship` after the accepter was taken off the pending approvals.
unfoldable pub finish_accept : Proposal → String → String → M Unit
finish_accept p id name s =
    if is_empty p.pending_approvals
    then (do
      modify (drop_proposal name id)
      add_relationship_raw p.relationship name
      modify (notify_proposal Op.accept_relationship name p))
        s
    else (ok tt, put_proposals name (set id p (proposals_of name s)) s)

unfoldable pub accept_found : String → String → String → Option Proposal → M Unit
accept_found id accepter name none = throw (proposal_not_found id name)
accept_found id accepter name (some p) = do
  throw_if (not (mem accepter p.pending_approvals)) (approval_not_required accepter id name)
  finish_accept (record p { pending_approvals = exclude accepter p.pending_approvals }) id name

unfoldable pub accept_relationship : String → String → String → M Unit
accept_relationship id accepter name = do
  proposals ← proposals_for name
  accept_found id accepter name (get id proposals)

unfoldable pub reject_found : String → String → String → Option Proposal → M Unit
reject_found id editor name none = throw (proposal_not_found id name)
reject_found id editor name (some p) = do
  throw_if (not (editor == p.proposer_id || mem editor p.pending_approvals))
      (no_standing editor id name)
  modify (drop_proposal name id)
  modify (notify_proposal Op.reject_relationship name p)

unfoldable pub reject_relationship : String → String → String → M Unit
reject_relationship id editor name = do
  proposals ← proposals_for name
  reject_found id editor name (get id proposals)

unfoldable pub get_relationship_proposals : String → M (List Proposal)
get_relationship_proposals name = do proposals ← proposals_for name; pure (values proposals)

unfoldable pub set_proposal_ttl : ℕ → Option String → State → State
set_proposal_ttl ms none s = record s { proposal_ttl_ms = ms }
set_proposal_ttl ms (some name) s = record s {
  proposal_ttl_by_workspace = set name ms s.proposal_ttl_by_workspace;
}

unfoldable pub proposal_threshold : String → Option ℕ → State → ℕ
proposal_threshold name max_age s =
    get_or max_age (get_or (get name s.proposal_ttl_by_workspace) s.proposal_ttl_ms)

abbrev pub is_old : ℕ → ℕ → Proposal → Bool
is_old now threshold p = ltb threshold (now - p.created_at)

-- `proposals.delete(id)` without an event, where the proposal is too old.
abbrev pub expire_one : String → ℕ → ℕ → String × Proposal → M Unit
expire_one name now threshold (id, p) s =
    if is_old now threshold p then (ok tt, drop_proposal name id s) else (ok tt, s)

unfoldable pub sweep_proposals : String → ℕ → M (List String)
sweep_proposals name threshold = do
  now ← date_now
  proposals ← proposals_for name
  for_each proposals (expire_one name now threshold)
  pure (map (λ e. e.0) (filter (λ e. is_old now threshold e.1) proposals))

unfoldable pub expire_stale_proposals : String → Option ℕ → M (List String)
unfolding sweep_proposals
expire_stale_proposals name max_age s = sweep_proposals name (proposal_threshold name max_age s) s

restored : String → Proposals → List Proposal → Proposals
restored name m [] = m
restored name m (p ∷ ps) =
    restored name
      (set p.id
        (record p { pending_approvals = from_list [] p.pending_approvals; workspace_name = name })
        m)
      ps

unfoldable pub restore_proposals : List Proposal → String → State → State
unfolding restored
restore_proposals proposals name = put_proposals name (restored name [] proposals)
