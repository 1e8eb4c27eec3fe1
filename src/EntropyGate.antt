-- ===== src/EntropyGate.antt =====
-- `EntropyGate` of packages/entropy-gate/src: gates that an input passes in turn, and the breaker that
-- refuses everything for a while after too many failures. A reason is what its text is made of.
pub mod Texts
pub mod Checks
pub mod Gates
pub mod Breaker
mod Tests
use noware.Prelude.{
  ℕ, ◌+◌, String, Bool, true, false, Option, none, some, List, [], ◌∷◌, ◌++◌, get_or, leb, ltb,
  if◌then◌else◌,
}
use noware.EntropyGate.Checks.{
  GateResult, GateContext, Input, Reason, circuit_open, failed, schema_gate, semantic_gate,
  ordering_gate, passed, present,
}
use noware.EntropyGate.Gates.{
  ProvenanceTracker, ConsistencyChecker, provenance_gate, consistency_gate, track,
}

pub record CircuitBreaker : Type 0 where
  pub threshold : ℕ
  pub cooldown_ms : ℕ

-- What the caller gives; what is left out is the default.
pub record GateConfig : Type 0 where
  pub schema : Option Bool
  pub semantic : Option Bool
  pub ordering : Option Bool
  pub provenance : Option Bool
  pub consistency : Option Bool
  pub stage_order : Option (List String)
  pub max_concurrent : Option ℕ
  pub circuit_breaker : Option CircuitBreaker

pub record EntropyGate : Type 0 where
  pub schema : Bool
  pub semantic : Bool
  pub ordering : Bool
  pub provenance : Bool
  pub consistency : Bool
  pub stage_order : List String
  pub max_concurrent : ℕ
  pub circuit_breaker : CircuitBreaker
  pub provenance_tracker : ProvenanceTracker
  pub consistency_checker : ConsistencyChecker
  pub failure_count : ℕ
  pub circuit_open_until : ℕ

abbrev pub default_stage_order : List String
default_stage_order =
    "requirements" ∷ "architecture" ∷ "design" ∷ "coding" ∷ "review" ∷ "qa" ∷ "security" ∷ "devops"
    ∷ "release" ∷ "sre-docs" ∷ []

unfoldable pub create_entropy_gate : GateConfig → EntropyGate
create_entropy_gate config = record {
  schema = get_or config.schema true;
  semantic = get_or config.semantic true;
  ordering = get_or config.ordering true;
  provenance = get_or config.provenance true;
  consistency = get_or config.consistency true;
  stage_order = get_or config.stage_order default_stage_order;
  max_concurrent = get_or config.max_concurrent 5;
  circuit_breaker = get_or config.circuit_breaker (record { threshold = 10; cooldown_ms = 60000 });
  provenance_tracker = record { records = []; seen = [] };
  consistency_checker = record { claims = [] };
  failure_count = 0;
  circuit_open_until = 0;
}

pub record GateDecision : Type 0 where
  pub allowed : Bool
  pub gates : List GateResult
  pub timestamp : ℕ
  pub source_agent : Option String
  pub target_agent : Option String

-- What an evaluation meets: the readings of the clock, and what other calls did to the gate while the
-- provenance gate waited for the hash, for the hash that `track` makes again, and for its result.
pub record Course : Type 0 where
  pub started : ℕ
  pub checked : ℕ
  pub tracked : ℕ
  pub claimed : ℕ
  pub failed_at : ℕ
  pub hashing : EntropyGate → EntropyGate
  pub tracking : EntropyGate → EntropyGate
  pub returning : EntropyGate → EntropyGate

unfoldable pub record_failure : ℕ → EntropyGate → EntropyGate
record_failure now g =
    let count = g.failure_count + 1 in
    if leb g.circuit_breaker.threshold count
    then record g {
      failure_count = count;
      circuit_open_until = now + g.circuit_breaker.cooldown_ms;
    }
    else record g { failure_count = count }

abbrev pub Gate : Type 0
Gate = EntropyGate → GateResult × EntropyGate

-- The gates that are on, in turn, up to the first that fails.
unfoldable pub run_gates :
    ℕ → List (Bool × Gate) → List GateResult → EntropyGate → (Bool × List GateResult) × EntropyGate
unfolding record_failure
run_gates now [] results g = ((true, results), record g { failure_count = 0 })
run_gates now ((on, gate) ∷ rest) results g = elim on [
  | false ↦ run_gates now rest results g
  | true ↦
      let (result, g') = gate g in
      elim result.pass [
        | true ↦ run_gates now rest (results ++ result ∷ []) g'
        | false ↦ ((false, results ++ result ∷ []), record_failure now g')
      ]
]

module _ (hash : Input → String) (lower : String → String) (input : Input)
    (context : GateContext) where
  -- The gates that `evaluateSync` runs too.
  abbrev pub first_gates : EntropyGate → List (Bool × Gate)
  first_gates g =
      (g.schema, λ s. (schema_gate input g.stage_order, s))
      ∷ (g.semantic, λ s. (semantic_gate lower input, s))
      ∷ (g.ordering, λ s. (ordering_gate input context g.stage_order, s))
      ∷ []

  -- `track` where the provenance gate passes.
  abbrev pub recorded : Course → String → Bool → EntropyGate → EntropyGate
  recorded times agent false s = s
  recorded times agent true s =
      let later = times.tracking s in
      record later {
        provenance_tracker = track times.tracked agent (hash input) none later.provenance_tracker;
      }

  -- `await provenanceGate(…)`: other calls run while it waits.
  abbrev pub provenance_step : Course → Option String → EntropyGate → GateResult × EntropyGate
  provenance_step times none s = (passed "provenance", times.returning s)
  provenance_step times (some agent) s =
      let waited = times.hashing s in
      let result = (provenance_gate hash input context times.tracked waited.provenance_tracker).0 in
      (result, times.returning (recorded times agent result.pass waited))

  abbrev pub tracking_gates : Course → EntropyGate → List (Bool × Gate)
  tracking_gates times g =
      (g.provenance, λ s. provenance_step times (present context.source_agent) s)
      ∷ (
        g.consistency,
        λ s.
            let (r, c) = consistency_gate input context times.claimed s.consistency_checker in
            (r, record s { consistency_checker = c }),
      )
      ∷ []

  abbrev pub decision : ℕ → (Bool × List GateResult) × EntropyGate → GateDecision × EntropyGate
  decision timestamp ((allowed, results), g) = (
    record {
      allowed = allowed;
      gates = results;
      timestamp = timestamp;
      source_agent = context.source_agent;
      target_agent = context.target_agent;
    },
    g,
  )

  abbrev pub all_gates : Course → EntropyGate → List (Bool × Gate)
  all_gates times g = first_gates g ++ tracking_gates times g

  unfoldable pub evaluate : Course → EntropyGate → GateDecision × EntropyGate
  unfolding run_gates
  evaluate times g =
      if leb g.circuit_breaker.threshold g.failure_count
      then if ltb times.checked g.circuit_open_until
        then decision times.started (
          (
            false,
            failed "circuit-breaker" (circuit_open g.failure_count g.circuit_open_until) ∷ [],
          ),
          g,
        )
        else decision times.started
            (run_gates times.failed_at (all_gates times g) [] (record g { failure_count = 0 }))
      else decision times.started (run_gates times.failed_at (all_gates times g) [] g)

  -- `evaluateSync`, which does not ask the breaker.
  unfoldable pub evaluate_sync : Course → EntropyGate → GateDecision × EntropyGate
  unfolding run_gates
  evaluate_sync times g = decision times.started (run_gates times.failed_at (first_gates g) [] g)
