-- ===== src/MergeReview/Reviews/Policy.antt =====
-- When `evaluateMerge` passes a review, and what `tryMerge` does then.
use noware.Prelude.{
  ◌≤◌, String, true, false, ◌≡◌, ◌↔◌, refl, Option, none, some, List, [], ◌∷◌, arith, All, get,
  Bool-cases, inl, inr,
}
use noware.Exec.{ok}
use noware.Cfour.Queries.{has_some}
use noware.MergeReview.{Client, State, Review, ReviewStatus, Vote, approve, reject, GateResult}
use noware.MergeReview.Store.{get_review}
use noware.MergeReview.Reviews.{
  MergePolicy, evaluate_merge, approvals, first_missing, failed_gates, approves, is_open,
  last_check, try_merge, all_passed,
}

-- The rules of the policy.
pub record Satisfies (policy : MergePolicy) (review : Review) : Type 0 where
  pub is_opened : review.status ≡ ReviewStatus.opened
  pub passed : All (λ g. g.pass ≡ true) review.gates
  pub enough : policy.min_approvals ≤ approvals review.votes
  pub required : All (λ r. get r review.votes ≡ some approve) policy.required

open_iff : (s : ReviewStatus) → (is_open s ≡ true) ↔ (s ≡ ReviewStatus.opened)
open_iff ReviewStatus.opened = (λ _. refl, λ _. refl)
open_iff ReviewStatus.approved = (λ e. cc, λ e. cc)
open_iff ReviewStatus.rejected = (λ e. cc, λ e. cc)

gates_iff :
    (gates : List GateResult)
    → (has_some (failed_gates gates) ≡ false) ↔ All (λ g. g.pass ≡ true) gates
gates_iff [] = (λ _. tt, λ _. refl)
gates_iff (g ∷ gates) = ground (arith, gates_iff gates)

approves_iff : (o : Option Vote) → (approves o ≡ true) ↔ (o ≡ some approve)
approves_iff none = (λ e. cc, λ e. cc)
approves_iff (some approve) = (λ _. refl, λ _. refl)
approves_iff (some reject) = (λ e. cc, λ e. cc)

required_iff :
    (review : Review) (rs : List String)
    → ((last_check (first_missing review.votes rs)).pass ≡ true)
      ↔ All (λ r. get r review.votes ≡ some approve) rs
unfolding first_missing
required_iff review [] = (λ _. tt, λ _. refl)
required_iff review (r ∷ rs) =
    ground (arith, required_iff review rs, approves_iff (get r review.votes))

-- `evaluateMerge` passes a review exactly when the review is open, every gate that was run for it
-- passed, it has at least the approvals that the policy asks for, and each required reviewer approved.
pub evaluate_merge_lem :
    (review : Review) (policy : MergePolicy)
    → ((evaluate_merge review policy).pass ≡ true) ↔ Satisfies policy review
unfolding evaluate_merge
evaluate_merge_lem review policy =
    let opened = open_iff review.status in
    let gates = gates_iff review.gates in
    let reviewers = required_iff review policy.required in
    (
      λ h. record {
        is_opened = ground (arith, h, opened);
        passed = ground (arith, h, gates);
        enough = ground (arith, h);
        required = ground (arith, h, reviewers);
      },
      λ k. ground (arith, k.is_opened, k.passed, k.enough, k.required, opened, gates, reviewers),
    )

last_check_cases :
    (o : Option String)
    → (last_check o).pass ≡ true
    → last_check o ≡ record { pass = true; reason = all_passed }
last_check_cases none h = refl
last_check_cases (some r) h = cc

pub check_cases :
    (review : Review) (policy : MergePolicy)
    → (evaluate_merge review policy).pass ≡ true
    → evaluate_merge review policy ≡ record { pass = true; reason = all_passed }
unfolding evaluate_merge first_missing
check_cases review policy h =
    ground (arith, h, last_check_cases (first_missing review.votes policy.required))

module _ {C E : Type 0} (client : Client C E) (id : String) (policy : MergePolicy)
    (review : Review) where
  -- `tryMerge` of a review that does not satisfy the policy gives the failed check: nothing is merged
  -- and nothing else changes.
  pub try_merge-refused :
      (s : State C)
      → get id s.reviews ≡ some review
      → (Satisfies policy review → ⊥)
      → ((evaluate_merge review policy).pass ≡ false)
        × (try_merge client id policy s ≡ (ok (evaluate_merge review policy), s))
  unfolding try_merge
  try_merge-refused s found unmet = elim (Bool-cases (evaluate_merge review policy).pass) [
    | inl e ↦ absurd (unmet ((evaluate_merge_lem review policy).0 e))
    | inr e ↦ (e, rw (get_review, found, e) refl)
  ]
