-- ===== src/MergeReview/Gates.antt =====
-- The gates of packages/merge-review/src/index.ts, and `runGates`, which stops at the first that fails.
pub mod FailFast
use noware.Prelude.{
  ℕ, String, Bool, true, false, not, Option, none, some, List, [], ◌∷◌, ◌++◌, ◌&&◌, map, filter,
  Map, keys, if◌then◌else◌,
}
use noware.Exec.{Exec, pure, ◌>>=◌}
use noware.Model.Collab.{WorkspaceDiff, ClaimBlocker, MergePlan}
use noware.Cfour.{Event}
use noware.Cfour.Events.Query.{EventQuery}
use noware.Cfour.Queries.{has_some}
use noware.MergeReview.{
  Category, general, elements, relationships, LintIssue, Severity, error, warning, ValidateIssue,
  Client, Gate, Line, linted, validated, drifted_files, orphan_files, no_drift, no_blockers,
  blocked, GateResult,
}

abbrev pub is_error_category : Category → Bool
is_error_category general = false
is_error_category elements = true
is_error_category relationships = true

abbrev pub is_error : Severity → Bool
is_error error = true
is_error warning = false

abbrev pub is_none : {A : Type 0} → List A → Bool
is_none l = not (has_some l)

-- DriftReport of packages/gen-diesel/src/index.ts.
pub record DriftReport : Type 0 where
  pub drifted_files : Map (List String)
  pub model_diff : WorkspaceDiff
  pub orphans : List String

unfoldable pub lint_result : List LintIssue → GateResult
lint_result issues = record {
  gate = Gate.lint;
  pass = is_none (filter (λ i. is_error_category i.category) issues);
  report = map (λ i. linted i.category i.check i.message) issues;
}

unfoldable pub validate_result : List ValidateIssue → GateResult
validate_result issues = record {
  gate = Gate.validate;
  pass = is_none (filter (λ i. is_error i.severity) issues);
  report = map (λ i. validated i.severity i.id i.message) issues;
}

abbrev when_so : Bool → Line → List Line
when_so b line = if b then line ∷ [] else []

unfoldable pub drift_result : DriftReport → GateResult
drift_result report = record {
  gate = Gate.drift;
  pass = is_none report.drifted_files && is_none report.orphans;
  report =
      when_so (has_some report.drifted_files) (drifted_files (keys report.drifted_files))
      ++ when_so (has_some report.orphans) (orphan_files report.orphans)
      ++ when_so (is_none report.drifted_files && is_none report.orphans) no_drift;
}

unfoldable pub blockers_gate : MergePlan → GateResult
blockers_gate plan = record {
  gate = Gate.blockers;
  pass = is_none plan.claim_blockers;
  report =
      if has_some plan.claim_blockers
      then map (λ b. blocked b.element_id b.holder_editor_id) plan.claim_blockers
      else no_blockers ∷ [];
}

module _ {C E : Type 0} (client : Client C E) where
  -- `pollEvents`
  unfoldable pub poll_events : EventQuery → Option ℕ → Exec C E (List Event)
  poll_events filter none = client.query_events filter
  poll_events filter (some since) = client.query_events (record filter { since = some since })

  unfoldable pub lint_gate : Option String → Exec C E GateResult
  unfolding lint_result ◌>>=◌
  lint_gate name = do issues ← client.lint none name; pure (lint_result issues)

  unfoldable pub validate_gate : Option String → Exec C E GateResult
  unfolding validate_result ◌>>=◌
  validate_gate name = do issues ← client.validate name; pure (validate_result issues)

module _ {C E : Type 0} where
  -- `reportDriftFn`, applied to its arguments.
  unfoldable pub drift_gate : Exec C E DriftReport → Exec C E GateResult
  unfolding drift_result ◌>>=◌
  drift_gate report_drift = do report ← report_drift; pure (drift_result report)

  -- `results.push(g); if (!g.pass) return results;` before the rest.
  unfoldable pub and_then : GateResult → Exec C E (List GateResult) → Exec C E (List GateResult)
  unfolding ◌>>=◌
  and_then g rest = if g.pass then (do gs ← rest; pure (g ∷ gs)) else pure (g ∷ [])

  -- The drift gate is left out unless its three options are given.
  unfoldable pub maybe_drift :
      Option (Exec C E DriftReport) → Exec C E (List GateResult) → Exec C E (List GateResult)
  unfolding drift_gate and_then
  maybe_drift none rest = rest
  maybe_drift (some report_drift) rest = do g ← drift_gate report_drift; and_then g rest

module _ {C E : Type 0} (client : Client C E) (branch into : String) where
  unfoldable pub plan_gate : Exec C E (List GateResult)
  unfolding blockers_gate ◌>>=◌
  plan_gate = do plan ← client.plan_merge branch into; pure (blockers_gate plan ∷ [])

  unfoldable pub run_gates : Option (Exec C E DriftReport) → Exec C E (List GateResult)
  unfolding lint_gate validate_gate maybe_drift plan_gate
  run_gates drift = do
    first ← lint_gate client (some branch)
    and_then first (do
      second ← validate_gate client (some branch)
      and_then second (maybe_drift drift plan_gate))
