-- ===== src/MergeReview.antt =====
-- packages/merge-review/src/index.ts: the client that is injected, the data of reviews, and the
-- store that `createReviewStore` makes. What a message or a report's line says is a value with what
-- its text names. Calls run one after the other, each to its end.
pub mod Store
pub mod Gates
pub mod Reviews
pub mod Resolver
mod Tests
use noware.Prelude.{
  ℕ, suc, String, Bool, Option, none, some, List, [], ◌∷◌, ◌&&◌, ◌==◌, Map, get, set, values,
  filter,
}
use Prim.Native.String.{◌++◌}
use noware.Prelude.Decimals.{decimal}
use noware.Exec.{Result, ok, throws, Exec, pure, throw, modify, ◌>>=◌, ◌>>◌}
use noware.Model.{View}
use noware.Model.Collab.{MergePlan}
use noware.Model.Patch.{assign_all}
use noware.Cfour.{Event}
use noware.Cfour.Events.Query.{EventQuery}

pub data Category : Type 0 where
  general elements relationships : Category

pub record LintIssue : Type 0 where
  pub check : String
  pub message : String
  pub category : Category

pub data Severity : Type 0 where
  error warning : Severity

pub record ValidateIssue : Type 0 where
  pub id : String
  pub message : String
  pub severity : Severity

-- `MergeReviewClient`, on a state and with errors of its own. Its `diff` and `getView` are called by
-- no function of the package.
pub record Client (C E : Type 0) : Type 0 where
  pub query_events : EventQuery → Exec C E (List Event)
  pub plan_merge : String → String → Exec C E MergePlan
  pub apply_merge : MergePlan → String → Exec C E (Unit {0})
  pub lint : Option View → Option String → Exec C E (List LintIssue)
  pub validate : Option String → Exec C E (List ValidateIssue)

pub data Gate : Type 0 where
  lint validate drift blockers : Gate

-- A line of a report.
pub data Line : Type 0 where
  linted : Category → String → String → Line
  validated : Severity → String → String → Line
  drifted_files orphan_files : List String → Line
  no_drift no_blockers : Line
  blocked : String → String → Line

pub record GateResult : Type 0 where
  pub gate : Gate
  pub pass : Bool
  pub report : List Line

-- `opened` is the status "open".
pub data ReviewStatus : Type 0 where
  opened approved rejected : ReviewStatus

pub data Vote : Type 0 where
  approve reject : Vote

pub record ReviewComment : Type 0 where
  pub id : String
  pub editor_id : String
  pub text : String
  pub created_at : ℕ

pub record Review : Type 0 where
  pub id : String
  pub project_id : String
  pub branch_name : String
  pub target_branch : String
  pub status : ReviewStatus
  pub comments : List ReviewComment
  pub votes : Map Vote
  pub gates : List GateResult
  pub created_at : ℕ

-- The client's state beside the store's variables; `clock` has the readings of `Date.now()`.
pub record State (C : Type 0) : Type 0 where
  pub remote : C
  pub reviews : Map Review
  pub counter : ℕ
  pub clock : ℕ → ℕ
  pub reads : ℕ

pub data Fault (E : Type 0) : Type 0 where
  review_not_found : String → Fault E
  cannot_vote : ReviewStatus → Fault E
  of_client : E → Fault E

-- `Partial<Review>`
pub data Assign : Type 0 where
  id project_id branch_name target_branch : String → Assign
  status : ReviewStatus → Assign
  comments : List ReviewComment → Assign
  votes : Map Vote → Assign
  gates : List GateResult → Assign
  created_at : ℕ → Assign

unfoldable pub assign : Review → Assign → Review
assign r (id v) = record r { id = v }
assign r (project_id v) = record r { project_id = v }
assign r (branch_name v) = record r { branch_name = v }
assign r (target_branch v) = record r { target_branch = v }
assign r (status v) = record r { status = v }
assign r (comments v) = record r { comments = v }
assign r (votes v) = record r { votes = v }
assign r (gates v) = record r { gates = v }
assign r (created_at v) = record r { created_at = v }

abbrev pub M : Type 0 → Type 0 → Type 0 → Type 0
M C E A = Exec (State C) (Fault E) A

module _ {C E : Type 0} where
  abbrev pub lifted : {A : Type 0} → State C → Result E A × C → Result (Fault E) A × State C
  lifted s (ok a, c) = (ok a, record s { remote = c })
  lifted s (throws e, c) = (throws (of_client e), record s { remote = c })

  -- A call of the client.
  unfoldable pub lift : {A : Type 0} → Exec C E A → M C E A
  lift m s = lifted s (m s.remote)

  unfoldable pub date_now : M C E ℕ
  date_now s = (ok (s.clock s.reads), record s { reads = suc s.reads })
