-- ===== src/MergeReview/Gates/FailFast.antt =====
-- `runGates` stops at the first gate that fails.
use noware.Prelude.{
  ℕ, suc, true, false, ◌≡◌, refl, ◌⊎◌, inl, inr, String, Option, none, some, List, [], ◌∷◌, leb,
  Bool-cases,
}
use noware.Exec.{Result, ok, throws, Exec, continue, ◌>>=◌}
use noware.MergeReview.{Client, Gate, GateResult}
use noware.MergeReview.Gates.{
  DriftReport, blockers_gate, lint_gate, validate_gate, drift_gate, and_then, maybe_drift,
  plan_gate, run_gates,
}

abbrev pub gate_index : Gate → ℕ
gate_index Gate.lint = 0
gate_index Gate.validate = 1
gate_index Gate.drift = 2
gate_index Gate.blockers = 3

-- The results are in the order of the gates, all but the last passed, and the last failed or is that
-- of the last gate.
abbrev pub StopsFrom : ℕ → List GateResult → Type 0
StopsFrom k [] = ⊥
StopsFrom k (g ∷ []) =
    (leb k (gate_index g.gate) ≡ true) × ((g.pass ≡ false) ⊎ (g.gate ≡ Gate.blockers))
StopsFrom k (g ∷ h ∷ rest) =
    (leb k (gate_index g.gate) ≡ true)
    × (g.pass ≡ true)
    × StopsFrom (suc (gate_index g.gate)) (h ∷ rest)

-- The property holds of what is returned.
abbrev pub Returns : {C E A : Type 0} → (A → Type 0) → Result E A × C → Type 0
Returns P (ok a, c) = P a
Returns P (throws e, c) = Unit

abbrev At : ℕ → GateResult → Type 0
At n g = gate_index g.gate ≡ n

push :
    (k : ℕ) (g : GateResult) (gs : List GateResult)
    → leb k (gate_index g.gate) ≡ true
    → g.pass ≡ true
    → StopsFrom (suc (gate_index g.gate)) gs
    → StopsFrom k (g ∷ gs)
push k g [] later passed h = absurd h
push k g (x ∷ gs) later passed h = (later, passed, h)

module _ {C E : Type 0} where
  anything : {A : Type 0} (r : Result E A × C) → Returns (λ _. Unit {0}) r
  anything (ok a, c) = tt
  anything (throws e, c) = tt

  bind-Returns :
      {A B : Type 0} (Q : A → Type 0) (P : B → Type 0) (m : Exec C E A) (f : A → Exec C E B) (c : C)
      → Returns Q (m c)
      → ((a : A) (d : C) → Q a → Returns P (f a d))
      → Returns P ((m >>= f) c)
  unfolding ◌>>=◌
  bind-Returns {A} {B} Q P m f c q h = on (m c) q
    where
      on : (r : Result E A × C) → Returns Q r → Returns P (let (x, d) = r in continue x f d)
      on (ok a, d) q = h a d q
      on (throws e, d) q = tt

  and_then-Stops :
      (k : ℕ) (g : GateResult) (rest : Exec C E (List GateResult)) (c : C)
      → leb k (gate_index g.gate) ≡ true
      → ((d : C) → Returns (StopsFrom (suc (gate_index g.gate))) (rest d))
      → Returns (StopsFrom k) (and_then g rest c)
  unfolding and_then
  and_then-Stops k g rest c later h = elim (Bool-cases g.pass) [
    | inl e ↦
        rw (and_then, e)
          (bind-Returns (StopsFrom (suc (gate_index g.gate))) (StopsFrom k) rest _ c (h c)
            (λ gs d q. push k (record g { pass = true }) gs later refl q))
    | inr e ↦ rw (and_then, e) (later, inl refl)
  ]

  -- A gate, and then the rest unless it failed.
  gate-Stops :
      (k n : ℕ) (gate : Exec C E GateResult) (rest : Exec C E (List GateResult)) (c : C)
      → Returns (At n) (gate c)
      → leb k n ≡ true
      → ((d : C) → Returns (StopsFrom (suc n)) (rest d))
      → Returns (StopsFrom k) ((gate >>= λ g. and_then g rest) c)
  gate-Stops k n gate rest c named later h =
      bind-Returns (At n) (StopsFrom k) gate _ c named
        (λ g d at. and_then-Stops k g rest d (rw at later) (rw at h))

  lint_gate-At :
      (client : Client C E) (name : Option String) (c : C)
      → Returns (At 0) (lint_gate client name c)
  unfolding lint_gate
  lint_gate-At client name c =
      bind-Returns (λ _. Unit {0}) (At 0) (client.lint none name) _ c (anything _) (λ a d _. refl)

  validate_gate-At :
      (client : Client C E) (name : Option String) (c : C)
      → Returns (At 1) (validate_gate client name c)
  unfolding validate_gate
  validate_gate-At client name c =
      bind-Returns (λ _. Unit {0}) (At 1) (client.validate name) _ c (anything _) (λ a d _. refl)

  drift_gate-At : (report : Exec C E DriftReport) (c : C) → Returns (At 2) (drift_gate report c)
  unfolding drift_gate
  drift_gate-At report c =
      bind-Returns (λ _. Unit {0}) (At 2) report _ c (anything _) (λ a d _. refl)

  module _ (client : Client C E) (branch into : String) where
    plan_gate-Stops :
        (k : ℕ) (c : C) → leb k 3 ≡ true → Returns (StopsFrom k) (plan_gate client branch into c)
    unfolding plan_gate blockers_gate
    plan_gate-Stops k c later =
        bind-Returns (λ _. Unit {0}) (StopsFrom k) (client.plan_merge branch into) _ c (anything _)
          (λ plan d _. (later, inr refl))

    maybe_drift-Stops :
        (drift : Option (Exec C E DriftReport)) (c : C)
        → Returns (StopsFrom 2) (maybe_drift drift (plan_gate client branch into) c)
    unfolding maybe_drift
    maybe_drift-Stops none c = plan_gate-Stops 2 c refl
    maybe_drift-Stops (some report) c =
        gate-Stops 2 2 (drift_gate report) (plan_gate client branch into) c (drift_gate-At report c)
          refl (λ d. plan_gate-Stops 3 d refl)

    -- Whatever `runGates` returns, by any client: the results are in the order lint, validate, drift,
    -- blockers; all but the last passed; and the last one failed or is that of the blockers gate.
    pub run_gates-StopsFrom :
        (drift : Option (Exec C E DriftReport)) (c : C)
        → Returns (StopsFrom 0) (run_gates client branch into drift c)
    unfolding run_gates
    run_gates-StopsFrom drift c =
        gate-Stops 0 0 (lint_gate client (some branch)) _ c (lint_gate-At client (some branch) c)
          refl
          (λ d.
            gate-Stops 1 1 (validate_gate client (some branch)) _ d
              (validate_gate-At client (some branch) d) refl (λ e. maybe_drift-Stops drift e))
