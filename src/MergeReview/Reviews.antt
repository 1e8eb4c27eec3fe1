-- ===== src/MergeReview/Reviews.antt =====
-- Reviews and the merge policy of packages/merge-review/src/index.ts: `openReview`, `addComment`,
-- `evaluateMerge`, `voteReview`, `tryMerge` and `rejectReview`.
pub mod Policy
pub mod Closed
pub mod Status
use noware.Prelude.{
  ℕ, suc, String, Bool, true, false, not, Option, none, some, List, [], ◌∷◌, ◌++◌, map, filter, ltb,
  Map, get, set, values, length, if◌then◌else◌,
}
use noware.Prelude.Decimals.{numbered}
use noware.Exec.{Exec, pure, throw, ◌>>=◌, ◌>>◌}
use noware.Cfour.Queries.{has_some}
use noware.MergeReview.{
  Client, M, State, Review, ReviewComment, ReviewStatus, Vote, approve, reject, Gate, GateResult,
  Assign, cannot_vote, lift, date_now,
}
use noware.MergeReview.Gates.{DriftReport, run_gates}
use noware.MergeReview.Store.{create, update, get_review}

pub record MergePolicy : Type 0 where
  pub min_approvals : ℕ
  pub required : List String
  pub block_on_open_claims : Bool
  pub auto_merge_when_green : Bool

pub data Reason : Type 0 where
  not_open : ReviewStatus → Reason
  gates_failed : List Gate → Reason
  need_approvals : ℕ → ℕ → Reason
  not_approved_by : String → Reason
  all_passed : Reason
  rejected_by : String → String → Reason

pub record MergeCheckResult : Type 0 where
  pub pass : Bool
  pub reason : Reason

abbrev pub refused : Reason → MergeCheckResult
refused reason = record { pass = false; reason = reason }

abbrev pub is_open : ReviewStatus → Bool
is_open ReviewStatus.opened = true
is_open ReviewStatus.approved = false
is_open ReviewStatus.rejected = false

abbrev pub is_approve : Vote → Bool
is_approve approve = true
is_approve reject = false

abbrev pub approves : Option Vote → Bool
approves none = false
approves (some v) = is_approve v

abbrev pub failed_gates : List GateResult → List GateResult
failed_gates = filter (λ g. not g.pass)

unfoldable pub approvals : Map Vote → ℕ
approvals votes = length (filter is_approve (values votes))

-- The loop over the required reviewers.
unfoldable pub first_missing : Map Vote → List String → Option String
unfolding get
first_missing votes [] = none
first_missing votes (r ∷ rs) =
    let rest = first_missing votes rs in if approves (get r votes) then rest else some r

abbrev pub last_check : Option String → MergeCheckResult
last_check none = record { pass = true; reason = all_passed }
last_check (some reviewer) = refused (not_approved_by reviewer)

unfoldable pub evaluate_merge : Review → MergePolicy → MergeCheckResult
unfolding approvals first_missing
evaluate_merge review policy =
    if not (is_open review.status)
    then refused (not_open review.status)
    else (if has_some (failed_gates review.gates)
        then refused (gates_failed (map (λ g. g.gate) (failed_gates review.gates)))
        else (if ltb (approvals review.votes) policy.min_approvals
            then refused (need_approvals policy.min_approvals (approvals review.votes))
            else last_check (first_missing review.votes policy.required)))

module _ {C E : Type 0} where
  unfoldable pub open_review :
      Client C E → String → String → String → Option (Exec C E DriftReport) → M C E Review
  unfolding lift run_gates create ◌>>=◌
  open_review client project branch target drift = do
    gates ← lift (run_gates client branch target drift)
    create project branch target gates

  unfoldable pub add_comment : String → String → String → M C E ReviewComment
  unfolding get_review update date_now numbered ◌>>=◌
  add_comment id editor text = do
    review ← get_review id
    now ← date_now
    let comment : ReviewComment = record {
      id = numbered "comment-" (suc (length review.comments));
      editor_id = editor;
      text = text;
      created_at = now;
    }
    update id (Assign.comments (review.comments ++ comment ∷ []) ∷ [])
    pure comment

  vote_on : Review → String → String → Vote → M C E Review
  unfolding update set
  vote_on review id editor vote =
      if is_open review.status
      then update id (Assign.votes (set editor vote review.votes) ∷ [])
      else throw (cannot_vote review.status)

  unfoldable pub vote_review : String → String → Vote → M C E Review
  unfolding get_review vote_on ◌>>=◌
  vote_review id editor vote = do review ← get_review id; vote_on review id editor vote

  -- The part of `tryMerge` behind its check.
  unfoldable pub merge_review :
      Client C E → String → Review → MergeCheckResult → M C E MergeCheckResult
  unfolding lift update ◌>>=◌
  merge_review client id review check = do
    plan ← lift (client.plan_merge review.branch_name review.target_branch)
    lift (client.apply_merge plan review.target_branch)
    update id (Assign.status ReviewStatus.approved ∷ [])
    pure check

  unfoldable pub try_merge : Client C E → String → MergePolicy → M C E MergeCheckResult
  unfolding get_review merge_review ◌>>=◌
  try_merge client id policy = do
    review ← get_review id
    let check = evaluate_merge review policy
    if check.pass then merge_review client id review check else pure check

  unfoldable pub reject_review : String → String → String → M C E MergeCheckResult
  unfolding get_review vote_review update ◌>>=◌
  reject_review id editor reason = do
    get_review id
    vote_review id editor reject
    update id (Assign.status ReviewStatus.rejected ∷ [])
    pure (refused (rejected_by editor reason))
