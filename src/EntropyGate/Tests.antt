-- ===== src/EntropyGate/Tests.antt =====
-- A gate that two failures shut.
use noware.Prelude.{
  ℕ, String, true, false, ◌≡◌, refl, none, some, mem, include, map, arith, [], ◌∷◌,
}
use noware.Prelude.Strings.{includes}
use noware.EntropyGate.Texts.{length, all_chars, is_branch, is_repo, is_uuid, is_blank}
use noware.EntropyGate.Checks.{
  GateContext, Message, Input, schema_gate, semantic_gate, ordering_gate, index_of,
  validate_agent_name, validate_branch_name, validate_task_description, validate_stage_name,
  validate_stage_order, validate_repo_name, validate_conversation_id, validate_conversation_body,
  validate_attributes,
}
use noware.EntropyGate.Gates.{
  provenance_gate, consistency_gate, detect_cycle, get_audit_trail, track, record_claim,
  detect_contradictions, contradicts,
}
use noware.EntropyGate.{
  EntropyGate, Course, create_entropy_gate, evaluate, run_gates, record_failure,
}
use noware.EntropyGate.Breaker.{Evaluated, evaluate-IsWithin}

gating : Unit {0}
unfolding length all_chars is_branch includes is_blank schema_gate semantic_gate ordering_gate
    index_of validate_agent_name validate_branch_name validate_task_description validate_stage_name
    validate_stage_order provenance_gate consistency_gate detect_cycle get_audit_trail track
    record_claim detect_contradictions contradicts create_entropy_gate evaluate run_gates
    record_failure mem include is_repo is_uuid validate_repo_name validate_conversation_id
    validate_conversation_body validate_attributes
gating = tt

abbrev gate : EntropyGate
unfolding create_entropy_gate
gate = create_entropy_gate (record {
  schema = none;
  semantic = none;
  ordering = none;
  provenance = none;
  consistency = none;
  stage_order = none;
  max_concurrent = none;
  circuit_breaker = some (record { threshold = 2; cooldown_ms = 1000 });
})

abbrev message : Message
message = record {
  agent = some "coding";
  branch = some "feature/a-1";
  repo = some "nowarelabs/noware";
  conversation_id = none;
  stage = some "review";
  task = some "fix the parser";
  attributes = none;
  body = none;
  claim = none;
  truth_value = none;
}

abbrev context : GateContext
context = record {
  source_agent = some "coding";
  target_agent = none;
  current_stage = some "coding";
}

abbrev at : ℕ → Course
at n = record {
  started = n;
  checked = n;
  tracked = n;
  claimed = n;
  failed_at = n;
  hashing = λ g. g;
  tracking = λ g. g;
  returning = λ g. g;
}

abbrev same_hash : Input → String
same_hash i = "0f"

-- The first message passes, the second is an echo of it.
passes : (evaluate same_hash (λ s. s) (some message) context (at 5) gate).0.allowed ≡ true
unfolding gating
passes = refl

abbrev after_first : EntropyGate
after_first = (evaluate same_hash (λ s. s) (some message) context (at 5) gate).1

echoes : (evaluate same_hash (λ s. s) (some message) context (at 6) after_first).0.allowed ≡ false
unfolding gating
echoes = refl

texts :
    (map is_branch ("feature/a-1" ∷ "/a" ∷ "" ∷ "A" ∷ []) ≡ true ∷ false ∷ false ∷ false ∷ [])
    × (map is_repo ("a/b" ∷ "a/" ∷ "/b" ∷ "a/b/c" ∷ "ab" ∷ [])
        ≡ true ∷ false ∷ false ∷ false ∷ false ∷ [])
    × (map is_uuid ("0f8fad5b-d9cb-469f-A165-70867728950e" ∷ "0f8fad5b-d9cb" ∷ [])
        ≡ true ∷ false ∷ [])
    × (includes "please fix it" "fix" ≡ true)
    × (is_blank " " ≡ true)
unfolding gating
texts = (refl, refl, refl, refl, refl)

evaluate-IsWithin_example :
    Evaluated
      (at 6)
      after_first
      (evaluate same_hash (λ s. s) (some message) context (at 6) after_first)
unfolding gating
evaluate-IsWithin_example =
    evaluate-IsWithin same_hash (λ s. s) (some message) context (at 6) after_first (omega arith)
      (omega arith)
      (record {
        hashing = λ s. (refl, refl);
        tracking = λ s. (refl, refl);
        returning = λ s. (refl, refl);
      })

-- Another evaluation fails while this one waits, and then this one does: the count passes a threshold
-- of 1.
overlapping :
    (evaluate same_hash
      (λ s. s)
      (some message)
      context
      (record (at 6) { returning = record_failure 6 })
      (record after_first {
        circuit_breaker = record { threshold = 1; cooldown_ms = 1 };
      })).1.failure_count
    ≡ 2
unfolding gating
overlapping = refl
