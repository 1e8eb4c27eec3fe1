-- ===== src/Cfour/Merge.antt =====
-- Three-way merges of `BaseCfour`: `planMerge`, `resolveMerge` and `_withResolutions`.
pub mod Plan
pub mod Apply
pub mod Applied
pub mod Order
pub mod Resolve
mod Tests
use noware.Prelude.{
  String, Bool, true, false, not, Option, none, some, List, [], ◌∷◌, ◌++◌, map, if◌then◌else◌, ◌==◌,
  filter, find, get, is_some, mem, from_list,
}
use noware.Exec.{Result, ok, throws, ◌>>=◌, pure, throw}
use noware.Model.{id_of}
use noware.Model.Collab.{
  Claim, Modified, DiffResult, WorkspaceDiff, Side, MergeResolution, ClaimBlocker, MergePlan,
  BranchBase, branch_side, target_side,
}
use noware.Model.Diff.{diff_workspaces}
use noware.Cfour.{State, M, Error, no_branch_base, conflict_unresolved, not_a_conflict}
use noware.Cfour.Workspaces.{get_workspace}
use noware.Cfour.Claims.{get_claim_for, is_empty}

-- The ids of a diff's entries, with repetitions.
abbrev pub entry_ids : {T : Type 0} → (T → String) → DiffResult T → List String
entry_ids f d = map f d.added ++ map (λ m. m.id) d.modified ++ map f d.removed

unfoldable pub touched_ids : WorkspaceDiff → List String
touched_ids d = from_list [] (entry_ids id_of d.nodes ++ entry_ids (λ r. r.id) d.relationships)

abbrev pub note_blocker : String → Option Claim → List ClaimBlocker → List ClaimBlocker
note_blocker id none rest = rest
note_blocker id (some c) rest = record { element_id = id; holder_editor_id = c.editor_id } ∷ rest

-- `getClaimFor` of each touched id on the target.
unfoldable pub claim_blockers : List String → String → M (List ClaimBlocker)
claim_blockers [] name = pure []
claim_blockers (id ∷ ids) name = do
  holder ← get_claim_for id name
  rest ← claim_blockers ids name
  pure (note_blocker id holder rest)

unfoldable pub plan_against : String → String → Option BranchBase → M MergePlan
plan_against branch into none = throw (no_branch_base branch)
plan_against branch into (some base) = do
  theirs ← get_workspace branch
  ours ← get_workspace into
  let branch_changes = diff_workspaces base.base_snapshot theirs
  let target_changes = diff_workspaces base.base_snapshot ours
  let touched = touched_ids branch_changes
  let on_target = touched_ids target_changes
  blockers ← claim_blockers touched into
  pure (record {
    branch = branch;
    into = into;
    branch_changes = branch_changes;
    target_changes = target_changes;
    conflicts = filter (λ id. mem id on_target) touched;
    claim_blockers = blockers;
    resolutions = none;
  })

unfoldable pub plan_merge : String → String → M MergePlan
unfolding plan_against
plan_merge branch into s = plan_against branch into (get branch s.branch_base) s

abbrev pub resolved_ids : List MergeResolution → List String
resolved_ids = map λ r. r.id

unfoldable pub first_outside : List String → List String → Option String
first_outside ids [] = none
first_outside ids (id ∷ rest) = if mem id ids then first_outside ids rest else some id

abbrev pub resolve_checked :
    MergePlan → List MergeResolution → Option String → Option String → Result Error MergePlan
resolve_checked plan resolutions (some id) other = throws (conflict_unresolved id plan.into)
resolve_checked plan resolutions none (some id) = throws (not_a_conflict id plan.into)
resolve_checked plan resolutions none none =
    ok (record plan { conflicts = []; resolutions = some resolutions })

-- `resolveMerge`: the two loops of checks, in order.
unfoldable pub resolve_merge : MergePlan → List MergeResolution → Result Error MergePlan
unfolding first_outside
resolve_merge plan resolutions =
    resolve_checked plan resolutions (first_outside (resolved_ids resolutions) plan.conflicts)
      (first_outside plan.conflicts (resolved_ids resolutions))

abbrev pub takes_target : Side → Bool
takes_target branch_side = false
takes_target target_side = true

unfoldable pub dropped : List MergeResolution → List String
dropped resolutions = from_list [] (resolved_ids (filter (λ r. takes_target r.take) resolutions))

abbrev pub filter_diff : {T : Type 0} → (T → String) → List String → DiffResult T → DiffResult T
filter_diff f drop d = record {
  added = filter (λ x. not (mem (f x) drop)) d.added;
  removed = filter (λ x. not (mem (f x) drop)) d.removed;
  modified = filter (λ m. not (mem m.id drop)) d.modified;
}

-- `_withResolutions`
unfoldable pub with_resolutions : WorkspaceDiff → List MergeResolution → WorkspaceDiff
unfolding dropped
with_resolutions d resolutions = if is_empty (dropped resolutions) then d else record {
  nodes = filter_diff id_of (dropped resolutions) d.nodes;
  relationships = filter_diff (λ r. r.id) (dropped resolutions) d.relationships;
}
