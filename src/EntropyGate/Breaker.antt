-- ===== src/EntropyGate/Breaker.antt =====
-- What an evaluation decides, and the count of failures that the breaker looks at.
use noware.Prelude.{
  ℕ, ◌+◌, ◌≤◌, ◌<◌, String, Bool, true, false, ◌&&◌, ◌≡◌, refl, sym, ap, ◌∙◌, inl, inr, List, [],
  ◌∷◌, ◌++◌, leb, ltb, if◌then◌else◌, All, Bool-cases, arith,
}
use mathlib.Core.Path.{subst}
use noware.EntropyGate.Checks.{GateResult, GateContext, Input}
use noware.EntropyGate.Gates.{provenance_gate}
use noware.Prelude.{Option, none, some}
use noware.EntropyGate.{
  recorded, provenance_step, EntropyGate, GateDecision, Course, Gate, record_failure, run_gates,
  evaluate, decision, all_gates,
}

abbrev pub all_pass : List GateResult → Bool
all_pass [] = true
all_pass (r ∷ rs) = r.pass && all_pass rs

all_pass-append :
    (rs : List GateResult) (r : GateResult) → all_pass (rs ++ r ∷ []) ≡ (all_pass rs && r.pass)
all_pass-append [] r = ground arith
all_pass-append (x ∷ rs) r = rw (all_pass-append rs r) (ground arith)

-- The count has not passed the threshold.
abbrev pub IsWithin : EntropyGate → Type 0
IsWithin g = g.failure_count ≤ g.circuit_breaker.threshold

-- A gate that leaves the count and the breaker's configuration as they are.
abbrev Leaves : Gate → Type 0
Leaves gate =
    (s : EntropyGate)
    → ((gate s).1.failure_count ≡ s.failure_count)
      × ((gate s).1.circuit_breaker ≡ s.circuit_breaker)

-- What other calls do to the gate in the meantime leaves the count of failures as it is.
pub record IsAlone (times : Course) : Type 0 where
  pub hashing :
      (s : EntropyGate)
      → ((times.hashing s).failure_count ≡ s.failure_count)
        × ((times.hashing s).circuit_breaker ≡ s.circuit_breaker)
  pub tracking :
      (s : EntropyGate)
      → ((times.tracking s).failure_count ≡ s.failure_count)
        × ((times.tracking s).circuit_breaker ≡ s.circuit_breaker)
  pub returning :
      (s : EntropyGate)
      → ((times.returning s).failure_count ≡ s.failure_count)
        × ((times.returning s).circuit_breaker ≡ s.circuit_breaker)

abbrev next_count : Bool → ℕ → ℕ
next_count allowed n = if allowed then 0 else n + 1

abbrev Ends : EntropyGate → (Bool × List GateResult) × EntropyGate → Type 0
Ends g ((allowed, results), g') =
    (allowed ≡ all_pass results)
    × (g'.failure_count ≡ next_count allowed g.failure_count)
    × (g'.circuit_breaker ≡ g.circuit_breaker)

record_failure_lem :
    (now : ℕ) (g : EntropyGate)
    → ((record_failure now g).failure_count ≡ g.failure_count + 1)
      × ((record_failure now g).circuit_breaker ≡ g.circuit_breaker)
unfolding record_failure
record_failure_lem now g = ground arith

Ends-from :
    (g h : EntropyGate) (out : (Bool × List GateResult) × EntropyGate)
    → h.failure_count ≡ g.failure_count
    → h.circuit_breaker ≡ g.circuit_breaker
    → Ends h out
    → Ends g out
Ends-from g h ((allowed, results), g') count breaker (a, c, b) =
    (a, c ∙ ap (next_count allowed) count, b ∙ breaker)

run_gates-Ends :
    (now : ℕ) (gates : List (Bool × Gate)) (results : List GateResult) (g : EntropyGate)
    → All (λ x. Leaves x.1) gates
    → all_pass results ≡ true
    → Ends g (run_gates now gates results g)
unfolding run_gates
run_gates-Ends now [] results g leaves h = (sym h, refl, refl)
run_gates-Ends now ((false, gate) ∷ rest) results g leaves h =
    run_gates-Ends now rest results g leaves.1 h
run_gates-Ends now ((true, gate) ∷ rest) results g leaves h = elim (Bool-cases (gate g).0.pass) [
  | inl pass ↦
      rw (run_gates, pass)
        (Ends-from g (gate g).1 (run_gates now rest (results ++ (gate g).0 ∷ []) (gate g).1)
          (leaves.0 g).0 (leaves.0 g).1
          (run_gates-Ends now rest (results ++ (gate g).0 ∷ []) (gate g).1 leaves.1
            (all_pass-append results (gate g).0 ∙ rw (h, pass) refl)))
  | inr fail ↦
      rw (run_gates, fail)
        (let count = record_failure_lem now (gate g).1 in
          Ends-from g (gate g).1
            ((false, results ++ (gate g).0 ∷ []), record_failure now (gate g).1) (leaves.0 g).0
            (leaves.0 g).1
            (sym (all_pass-append results (gate g).0 ∙ rw (h, fail) refl), count.0, count.1))
]

-- The breaker refuses everything for now.
abbrev pub is_open : Course → EntropyGate → Bool
is_open times g =
    leb g.circuit_breaker.threshold g.failure_count && ltb times.checked g.circuit_open_until

-- What an evaluation of `g` says and leaves.
abbrev pub Evaluated : Course → EntropyGate → GateDecision × EntropyGate → Type 0
Evaluated times g (d, g') =
    (d.allowed ≡ all_pass d.gates)
    × (is_open times g ≡ true → (d.allowed ≡ false) × (g' ≡ g))
    × (d.allowed ≡ true → g'.failure_count ≡ 0)
    × IsWithin g'
    × (g'.circuit_breaker ≡ g.circuit_breaker)

module _ (hash : Input → String) (lower : String → String) (input : Input)
    (context : GateContext) where
  recorded_leaves :
      (times : Course) (agent : String) (pass : Bool) (s : EntropyGate)
      → IsAlone times
      → ((recorded hash lower input context times agent pass s).failure_count ≡ s.failure_count)
        × ((recorded hash lower input context times agent pass s).circuit_breaker
            ≡ s.circuit_breaker)
  recorded_leaves times agent false s alone = (refl, refl)
  recorded_leaves times agent true s alone = alone.tracking s

  provenance_step-Leaves :
      (times : Course) (agent : Option String)
      → IsAlone times
      → Leaves (provenance_step hash lower input context times agent)
  provenance_step-Leaves times none alone s = alone.returning s
  provenance_step-Leaves times (some agent) alone s =
      let waited = times.hashing s in
      let result = (provenance_gate hash input context times.tracked waited.provenance_tracker).0 in
      let later = recorded hash lower input context times agent result.pass waited in
      let (count, breaker) = recorded_leaves times agent result.pass waited alone in
      (
        (alone.returning later).0 ∙ count ∙ (alone.hashing s).0,
        (alone.returning later).1 ∙ breaker ∙ (alone.hashing s).1,
      )

  gates_leave :
      (times : Course) (g : EntropyGate)
      → IsAlone times
      → All (λ x. Leaves x.1) (all_gates hash lower input context times g)
  gates_leave times g alone = (
    (λ s. (refl, refl)),
    (
      (λ s. (refl, refl)),
      ((λ s. (refl, refl)), (provenance_step-Leaves times _ alone, ((λ s. (refl, refl)), tt))),
    ),
  )

  Within-next :
      (g h : EntropyGate) (allowed : Bool)
      → g.failure_count < g.circuit_breaker.threshold
      → h.failure_count ≡ next_count allowed g.failure_count
      → h.circuit_breaker ≡ g.circuit_breaker
      → (allowed ≡ true → h.failure_count ≡ 0) × IsWithin h
  Within-next g h true room count breaker = (λ e. count, rw (count, breaker) (omega arith))
  Within-next g h false room count breaker =
      (λ e. ground (arith, e), rw (count, breaker) (omega (arith, room)))

  ran :
      (times : Course) (g h : EntropyGate) (out : (Bool × List GateResult) × EntropyGate)
      → is_open times g ≡ false
      → h.circuit_breaker ≡ g.circuit_breaker
      → h.failure_count < h.circuit_breaker.threshold
      → Ends h out
      → Evaluated times g (decision hash lower input context times.started out)
  ran times g h ((allowed, results), g') closed same room (verdict, count, breaker) =
      let next = Within-next h g' allowed room count breaker in
      (verdict, (λ e. ground (arith, e, closed)), next.0, next.1, breaker ∙ same)

  -- The gates run from `h`.
  abbrev run_from : Course → EntropyGate → EntropyGate → GateDecision × EntropyGate
  run_from times g h =
      decision hash lower input context times.started
        (run_gates times.failed_at (all_gates hash lower input context times g) [] h)

  evaluate_closed :
      (times : Course) (g : EntropyGate)
      → leb g.circuit_breaker.threshold g.failure_count ≡ false
      → evaluate hash lower input context times g ≡ run_from times g g
  unfolding evaluate
  evaluate_closed times g below = rw (evaluate, below) refl

  evaluate_late :
      (times : Course) (g : EntropyGate)
      → leb g.circuit_breaker.threshold g.failure_count ≡ true
      → ltb times.checked g.circuit_open_until ≡ false
      → evaluate hash lower input context times g
        ≡ run_from times g (record g { failure_count = 0 })
  unfolding evaluate
  evaluate_late times g reached late = rw (evaluate, reached, late) refl

  ran_from :
      (times : Course) (g h : EntropyGate)
      → is_open times g ≡ false
      → h.circuit_breaker ≡ g.circuit_breaker
      → h.failure_count < h.circuit_breaker.threshold
      → IsAlone times
      → Evaluated times g (run_from times g h)
  ran_from times g h closed same room alone =
      ran times g h (run_gates times.failed_at (all_gates hash lower input context times g) [] h)
        closed same room
        (run_gates-Ends times.failed_at (all_gates hash lower input context times g) [] h
          (gates_leave times g alone) refl)

  -- When the count of failures is at most a positive threshold, and what other calls do to the gate
  -- while the evaluation waits leaves the count as it is, an evaluation allows the input exactly when
  -- every gate that it ran passed; while the breaker is open it refuses and changes nothing; when it
  -- allows the input the count is 0, and in every case the count stays at most the threshold.
  pub evaluate-IsWithin :
      (times : Course) (g : EntropyGate)
      → 0 < g.circuit_breaker.threshold
      → IsWithin g
      → IsAlone times
      → Evaluated times g (evaluate hash lower input context times g)
  unfolding evaluate
  evaluate-IsWithin times g positive within alone =
      elim (Bool-cases (leb g.circuit_breaker.threshold g.failure_count)) [
        | inr below ↦
            subst (Evaluated times g) (sym (evaluate_closed times g below))
              (ran_from times g g (ground (arith, below)) refl (ground (arith, below)) alone)
        | inl reached ↦ elim (Bool-cases (ltb times.checked g.circuit_open_until)) [
          | inl early ↦
              rw (evaluate, reached, early)
                (refl, (λ e. (refl, refl)), (λ e. ground (arith, e)), within, refl)
          | inr late ↦ subst (Evaluated times g) (sym (evaluate_late times g reached late)) (
              ran_from times g (record g { failure_count = 0 }) (ground (arith, late)) refl positive
                alone)
        ]
      ]
