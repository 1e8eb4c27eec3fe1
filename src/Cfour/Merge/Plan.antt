-- ===== src/Cfour/Merge/Plan.antt =====
-- What a merge plan reports.
use noware.Prelude.{
  String, Bool, ◌&&◌, ◌≡◌, refl, ap, ◌∙◌, Option, none, some, List, [], ◌∷◌, map, arith, eq_iff,
  filter, get, is_some, mem, mem-cons, mem-nil,
}
use noware.Exec.{ok, ◌>>=◌, pure}
use noware.Model.{Workspace}
use noware.Model.Collab.{ClaimBlocker, MergePlan, BranchBase, WorkspaceDiff}
use noware.Model.Diff.{diff_workspaces}
use noware.Cfour.{State, M}
use noware.Cfour.Batch.{capture}
use noware.Cfour.Workspaces.{get_workspace}
use noware.Cfour.Claims.{Claims, claims_of, holder_in, get_claim_for}
use noware.Cfour.Claims.Enforcement.{bind-ok, get_claim_for_lem, with_claims, capture-workspaces}
use noware.Cfour.Claims.Expiry.{with_claims-claims_of}
use noware.Cfour.Merge.{touched_ids, note_blocker, claim_blockers, plan_against, plan_merge}

-- The blockers, read off the claims.
abbrev pub blockers_in : List String → Claims → List ClaimBlocker
blockers_in [] claims = []
blockers_in (id ∷ ids) claims = note_blocker id (holder_in id claims) (blockers_in ids claims)

-- An action that returns, then a function of what it returns.
then_pure :
    {A B : Type 0} (m : M A) (f : A → B) (a : A) (s : State)
    → (m s).0 ≡ ok a
    → ((m >>= λ x. pure (f x)) s).0 ≡ ok (f a)
unfolding ◌>>=◌ pure
then_pure m f a s h = rw h

claim_blockers_lem :
    (ids : List String) (name : String) (s : State)
    → (claim_blockers ids name s).0 ≡ ok (blockers_in ids (claims_of name s))
unfolding claim_blockers pure
claim_blockers_lem [] name s = refl
claim_blockers_lem (id ∷ ids) name s =
    let t = with_claims name s in
    let holder = holder_in id (claims_of name s) in
    let rest : (claim_blockers ids name t).0 ≡ ok (blockers_in ids (claims_of name s)) =
      claim_blockers_lem ids name t
      ∙ ap (λ c. ok (blockers_in ids c)) (with_claims-claims_of name s) in
    ap (λ r. r.0) (bind-ok (get_claim_for id name) _ holder s t (get_claim_for_lem id name s))
    ∙ then_pure (claim_blockers ids name) (note_blocker id holder) _ t rest

-- An id blocks exactly when it is one of the ids and a claim covers it.
blockers_in_lem :
    (ids : List String) (claims : Claims) (k : String)
    → mem k (map (λ b. b.element_id) (blockers_in ids claims))
      ≡ (mem k ids && is_some (holder_in k claims))
blockers_in_lem [] claims k = rw (mem-nil k)
blockers_in_lem (id ∷ ids) claims k = ground (
  arith,
  blockers_in_lem ids claims k,
  mem-cons k id ids,
  mem-cons k id (map (λ (b : ClaimBlocker). b.element_id) (blockers_in ids claims)),
  eq_iff id k,
)

mem-filter :
    (test : String → Bool) (k : String) (l : List String)
    → mem k (filter test l) ≡ (mem k l && test k)
mem-filter test k [] = rw (mem-nil k)
mem-filter test k (x ∷ l) =
    ground (arith, mem-filter test k l, mem-cons k x l, mem-cons k x (filter test l), eq_iff x k)

get_workspace_lem :
    (name : String) (s : State) (ws : Workspace)
    → get name s.workspaces ≡ some ws
    → get_workspace name s ≡ (ok ws, capture name (some ws) s)
unfolding get_workspace
get_workspace_lem name s ws h = rw (h, get_workspace)

other_claims :
    (into name : String) (current : Option Workspace) (s : State)
    → claims_of into (capture name current s) ≡ claims_of into s
unfolding capture claims_of
other_claims into name current s = ground arith

abbrev planned : String → String → WorkspaceDiff → WorkspaceDiff → List ClaimBlocker → MergePlan
planned branch into branch_changes target_changes blockers = record {
  branch = branch;
  into = into;
  branch_changes = branch_changes;
  target_changes = target_changes;
  conflicts = filter (λ id. mem id (touched_ids target_changes)) (touched_ids branch_changes);
  claim_blockers = blockers;
  resolutions = none;
}

-- With a recorded base and both workspaces there, `planMerge` returns a plan: both diffs are taken
-- from the base, the conflicts are exactly the ids that both sides touch, and the blocked ids are
-- exactly those that the branch touches and a claim on the target covers.
pub plan_merge_lem :
    (branch into : String) (s : State) (base : BranchBase) (theirs ours : Workspace)
    → get branch s.branch_base ≡ some base
    → get branch s.workspaces ≡ some theirs
    → get into s.workspaces ≡ some ours
    → (plan : MergePlan) × ((plan_merge branch into s).0 ≡ ok plan)
      × (plan.branch_changes ≡ diff_workspaces base.base_snapshot theirs)
      × (plan.target_changes ≡ diff_workspaces base.base_snapshot ours)
      × ((k : String)
          → (mem k plan.conflicts ≡ (
              mem k (touched_ids plan.branch_changes) && mem k (touched_ids plan.target_changes)))
            × (mem k (map (λ b. b.element_id) plan.claim_blockers) ≡ (
                mem k (touched_ids plan.branch_changes)
                && is_some (holder_in k (claims_of into s)))))
unfolding plan_merge plan_against
plan_merge_lem branch into s base theirs ours b t o =
    let u = capture branch (some theirs) s in
    let v = capture into (some ours) u in
    let branch_changes = diff_workspaces base.base_snapshot theirs in
    let target_changes = diff_workspaces base.base_snapshot ours in
    let touched = touched_ids branch_changes in
    let blockers = blockers_in touched (claims_of into s) in
    let at_v : claims_of into v ≡ claims_of into s =
      other_claims into into (some ours) u ∙ other_claims into branch (some theirs) s in
    let found : get into u.workspaces ≡ some ours =
      ap (get into) (capture-workspaces branch (some theirs) s) ∙ o in
    let plan : List ClaimBlocker → MergePlan = planned branch into branch_changes target_changes in
    let run =
      ap (λ r. r.0)
        (bind-ok (get_workspace branch) _ theirs s u (get_workspace_lem branch s theirs t)
          ∙ bind-ok (get_workspace into) _ ours u v (get_workspace_lem into u ours found))
      ∙ then_pure (claim_blockers touched into) plan blockers v
          (claim_blockers_lem touched into v ∙ ap (λ c. ok (blockers_in touched c)) at_v) in
    (
      plan blockers,
      rw b run,
      refl,
      refl,
      λ k. (
        mem-filter (λ id. mem id (touched_ids target_changes)) k touched,
        blockers_in_lem touched (claims_of into s) k,
      ),
    )
