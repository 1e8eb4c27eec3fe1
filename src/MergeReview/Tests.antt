-- ===== src/MergeReview/Tests.antt =====
-- Reviews by two editors, with a client that merges at once.
use noware.Prelude.{String, true, false, ◌≡◌, ◌↔◌, refl, none, List, [], ◌∷◌, arith, get, set}
use noware.Exec.{ok}
use noware.Model.Collab.{MergePlan}
use noware.Model.Sample.{model}
use noware.Model.Diff.{diff_workspaces}
use noware.MergeReview.{Client, State, Review, ReviewStatus, approve, GateResult, Gate, elements}
use noware.MergeReview.Store.{get_review}
use noware.MergeReview.Gates.{run_gates}
use noware.MergeReview.Gates.FailFast.{Returns, StopsFrom, run_gates-StopsFrom}
use noware.MergeReview.Reviews.{
  merge_review, MergePolicy, evaluate_merge, approvals, all_passed, try_merge, vote_review,
  open_review,
}
use noware.MergeReview.Reviews.Policy.{Satisfies, evaluate_merge_lem, try_merge-refused}
use noware.MergeReview.Reviews.Status.{votes}

abbrev empty_plan : MergePlan
empty_plan = record {
  branch = "draft";
  into = "model";
  branch_changes = diff_workspaces model model;
  target_changes = diff_workspaces model model;
  conflicts = [];
  claim_blockers = [];
  resolutions = none;
}

-- It lists the workspaces that were merged into, and finds a fault with "broken" alone.
abbrev client : Client (List String) String
client = record {
  query_events = λ f s. (ok [], s);
  plan_merge = λ branch into s. (ok empty_plan, s);
  apply_merge = λ plan into s. (ok tt, into ∷ s);
  lint = λ view name s. (ok (record { check = "c"; message = "m"; category = elements } ∷ []), s);
  validate = λ name s. (ok [], s);
}

abbrev passed_gate : GateResult
passed_gate = record { gate = Gate.blockers; pass = true; report = [] }

abbrev review : Review
review = record {
  id = "review-1";
  project_id = "p";
  branch_name = "draft";
  target_branch = "model";
  status = ReviewStatus.opened;
  comments = [];
  votes = ("ann", approve) ∷ [];
  gates = passed_gate ∷ [];
  created_at = 0;
}

abbrev policy : MergePolicy
policy = record {
  min_approvals = 1;
  required = "ann" ∷ [];
  block_on_open_claims = true;
  auto_merge_when_green = false;
}

abbrev strict : MergePolicy
strict = record policy { min_approvals = 2 }

abbrev with_review : {C : Type 0} → Review → C → State C
with_review r c = record {
  remote = c;
  reviews = ("review-1", r) ∷ [];
  counter = 1;
  clock = λ n. n;
  reads = 1;
}

met : Satisfies policy review
unfolding approvals get
met = record { is_opened = refl; passed = (refl, tt); enough = omega arith; required = (refl, tt) }

evaluate_merge_lem_example : ((evaluate_merge review policy).pass ≡ true) ↔ Satisfies policy review
evaluate_merge_lem_example = evaluate_merge_lem review policy

few : Satisfies strict review → ⊥
unfolding approvals
few h = let two = h.enough in absurd (omega arith)

abbrev calm : State (List String)
calm = with_review review []

try_merge-refused_example :
    ((evaluate_merge review strict).pass ≡ false)
    × (try_merge client "review-1" strict calm ≡ (ok (evaluate_merge review strict), calm))
unfolding get
try_merge-refused_example = try_merge-refused client "review-1" strict review calm refl few

-- A review that satisfies the policy is merged and approved.
merges : try_merge client "review-1" policy calm ≡ (
  ok (record { pass = true; reason = all_passed }),
  record calm {
    remote = "model" ∷ [];
    reviews = set "review-1" (record review { status = ReviewStatus.approved }) calm.reviews;
  },
)
unfolding get try_merge evaluate_merge merge_review get_review
merges = refl

-- A review that was rejected, and what is tried with it.
abbrev shut : Review
shut = record review { status = ReviewStatus.rejected }

abbrev after : State (List String)
after = with_review shut []

abbrev tried : State (List String)
tried =
    (open_review client "p" "draft" "model" none
      (vote_review {E = String} "review-1" "bob" approve after).1).1

run_gates-StopsFrom_example : Returns (StopsFrom 0) (run_gates client "draft" "model" none [])
run_gates-StopsFrom_example = run_gates-StopsFrom client "draft" "model" none []
