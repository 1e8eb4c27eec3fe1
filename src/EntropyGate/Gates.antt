-- ===== src/EntropyGate/Gates.antt =====
-- The gates that remember: `ProvenanceTracker` and `ConsistencyChecker` of packages/entropy-gate.
use noware.Prelude.{
  ℕ, String, Bool, true, false, not, ◌&&◌, Option, none, some, List, [], ◌∷◌, ◌++◌, filter, any,
  include, if◌then◌else◌, ◌==◌,
}
use noware.EntropyGate.Checks.{
  GateResult, GateContext, Input, data_hash, contradictions, passed, failed, echo, contradiction,
  present,
}

pub record ProvenanceRecord : Type 0 where
  pub agent : String
  pub data_hash : String
  pub parent_hash : Option String
  pub timestamp : ℕ

pub record ProvenanceTracker : Type 0 where
  pub records : List ProvenanceRecord
  pub seen : List String

unfoldable pub get_audit_trail : String → ProvenanceTracker → List ProvenanceRecord
get_audit_trail agent t = filter (λ r. r.agent == agent) t.records

unfoldable pub detect_cycle : String → String → ProvenanceTracker → Bool
unfolding get_audit_trail
detect_cycle agent hash t = any (λ r. r.data_hash == hash) (get_audit_trail agent t)

-- `track` of data with this hash.
unfoldable pub track : ℕ → String → String → Option String → ProvenanceTracker → ProvenanceTracker
track now agent hash parent t = record {
  records =
      t.records
      ++ record { agent = agent; data_hash = hash; parent_hash = parent; timestamp = now } ∷ [];
  seen = include hash t.seen;
}

-- `hash` is the SHA-256 of the input's JSON text.
unfoldable pub provenance_gate :
    (Input → String) → Input → GateContext → ℕ → ProvenanceTracker → GateResult × ProvenanceTracker
unfolding detect_cycle track
provenance_gate hash input context now t = elim (present context.source_agent) [
  | none ↦ (passed "provenance", t)
  | some agent ↦
      if detect_cycle agent (hash input) t
      then (record (failed "provenance" (echo agent)) { metadata = data_hash (hash input) }, t)
      else (
        record (passed "provenance") { metadata = data_hash (hash input) },
        track now agent (hash input) none t,
      )
]

pub record Claim : Type 0 where
  pub agent : String
  pub claim : String
  pub truth_value : Bool
  pub timestamp : ℕ

pub record ConsistencyChecker : Type 0 where
  pub claims : List Claim

abbrev same : Bool → Bool → Bool
same true b = b
same false b = not b

unfoldable pub contradicts : Claim → Claim → Bool
contradicts a b =
    a.claim == b.claim && not (a.agent == b.agent) && not (same a.truth_value b.truth_value)

abbrev pairs : List Claim → List (Claim × Claim)
pairs [] = []
pairs (a ∷ rest) = with_later a rest ++ pairs rest
  where
    with_later : Claim → List Claim → List (Claim × Claim)
    with_later a [] = []
    with_later a (b ∷ rest) = (a, b) ∷ with_later a rest

unfoldable pub detect_contradictions : ConsistencyChecker → List (Claim × Claim)
unfolding contradicts
detect_contradictions c = filter (λ p. contradicts p.0 p.1) (pairs c.claims)

unfoldable pub record_claim : ℕ → String → String → Bool → ConsistencyChecker → ConsistencyChecker
record_claim now agent claim truth c = record {
  claims =
      c.claims
      ++ record { agent = agent; claim = claim; truth_value = truth; timestamp = now } ∷ [];
}

abbrev count : {A : Type 0} → List A → ℕ
count [] = 0
count (x ∷ xs) = ℕ.suc (count xs)

-- The result for the contradictions that were found; the last one is told.
abbrev told : ℕ → List (Claim × Claim) → GateResult
told n [] = passed "consistency"
told n ((a, b) ∷ []) = record (failed "consistency" (contradiction a.agent b.agent a.claim)) {
  metadata = contradictions n;
}
told n (p ∷ q ∷ rest) = told n (q ∷ rest)

abbrev stated : Input → GateContext → Option (String × String × Bool)
stated none context = none
stated (some m) context = elim (present context.source_agent) [
  | none ↦ none
  | some agent ↦ elim m.claim [
    | none ↦ none
    | some claim ↦ elim m.truth_value [ none ↦ none | some truth ↦ some (agent, claim, truth) ]
  ]
]

unfoldable pub consistency_gate :
    Input → GateContext → ℕ → ConsistencyChecker → GateResult × ConsistencyChecker
unfolding detect_contradictions record_claim
consistency_gate input context now c = elim (stated input context) [
  | none ↦ (passed "consistency", c)
  | some (agent, claim, truth) ↦
      let c' = record_claim now agent claim truth c in
      let found = detect_contradictions c' in (told (count found) found, c')
]
