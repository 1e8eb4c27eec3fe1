-- ===== src/EntropyGate/Checks.antt =====
-- The gates that keep no state: `schemaGate`, `semanticGate` and `orderingGate` of
-- packages/entropy-gate/src/gates.
use noware.Prelude.{
  ℕ, zero, suc, String, Bool, true, false, not, Option, none, some, List, [], ◌∷◌, mem, leb, ltb,
  if◌then◌else◌, ◌==◌, Map, any,
}
use noware.Prelude.Strings.{includes}
use noware.EntropyGate.Texts.{length, is_branch, is_repo, is_uuid, is_blank}

pub data Reason : Type 0 where
  not_an_object : Reason
  invalid_agent_name : String → Reason
  branch_too_long : Reason
  invalid_branch_name : String → Reason
  invalid_repo_name : String → Reason
  invalid_conversation_id : String → Reason
  invalid_stage_name : String → Reason
  task_too_short : ℕ → Reason
  task_too_long : ℕ → Reason
  no_action_verb : Reason
  empty_attributes : Reason
  attribute_not_text : String → Reason
  attribute_too_long : String → Reason
  empty_body : Reason
  unknown_current_stage : String → Reason
  unknown_next_stage : String → Reason
  backward : String → String → Reason
  echo : String → Reason
  contradiction : String → String → String → Reason
  circuit_open : (failures until : ℕ) → Reason

pub data Metadata : Type 0 where
  nothing : Metadata
  data_hash : String → Metadata
  contradictions : ℕ → Metadata

pub record GateResult : Type 0 where
  pub pass : Bool
  pub gate : String
  pub reason : Option Reason
  pub metadata : Metadata

pub record GateContext : Type 0 where
  pub source_agent : Option String
  pub target_agent : Option String
  pub current_stage : Option String

-- The properties of an object that the gates read, each when it has the type that they ask for. An
-- attribute that is no text is `none`.
pub record Message : Type 0 where
  pub agent : Option String
  pub branch : Option String
  pub repo : Option String
  pub conversation_id : Option String
  pub stage : Option String
  pub task : Option String
  pub attributes : Option (Map (Option String))
  pub body : Option String
  pub claim : Option String
  pub truth_value : Option Bool

-- `none` is an input that is no object.
abbrev pub Input : Type 0
Input = Option Message

abbrev pub passed : String → GateResult
passed gate = record { pass = true; gate = gate; reason = none; metadata = nothing }

abbrev pub failed : String → Reason → GateResult
failed gate reason = record { pass = false; gate = gate; reason = some reason; metadata = nothing }

-- The first reason of several checks.
abbrev first_of : List (Option Reason) → Option Reason
first_of [] = none
first_of (none ∷ rest) = first_of rest
first_of (some r ∷ rest) = some r

abbrev verdict : String → Option Reason → GateResult
verdict gate none = passed gate
verdict gate (some r) = failed gate r

abbrev check : Option String → (String → Option Reason) → Option Reason
check none f = none
check (some s) f = f s

abbrev unless : Bool → Reason → Option Reason
unless true r = none
unless false r = some r

abbrev agent_names : List String
agent_names =
    "product-requirements" ∷ "business-data-analyst" ∷ "solutions-architect" ∷ "ux-ui-designer"
    ∷ "coding" ∷ "database-data-engineer" ∷ "code-review" ∷ "qa-test" ∷ "security-appsec"
    ∷ "devops-cicd" ∷ "release-manager" ∷ "sre-observability" ∷ "documentation" ∷ "support-feedback"
    ∷ "support" ∷ "orchestrator" ∷ []

unfoldable pub validate_agent_name : String → Option Reason
validate_agent_name name = unless (mem name agent_names) (invalid_agent_name name)

unfoldable pub validate_branch_name : String → Option Reason
validate_branch_name name =
    if ltb 64 (length name)
    then some branch_too_long
    else unless (is_branch name) (invalid_branch_name name)

unfoldable pub validate_repo_name : String → Option Reason
validate_repo_name name = unless (is_repo name) (invalid_repo_name name)

unfoldable pub validate_conversation_id : String → Option Reason
validate_conversation_id id = unless (is_uuid id) (invalid_conversation_id id)

unfoldable pub validate_stage_name : List String → String → Option Reason
validate_stage_name order name = unless (mem name order) (invalid_stage_name name)

unfoldable pub schema_gate : Input → List String → GateResult
unfolding validate_agent_name validate_branch_name validate_repo_name validate_conversation_id
    validate_stage_name
schema_gate none order = failed "schema" not_an_object
schema_gate (some m) order = verdict "schema" (
    first_of (
      check m.agent validate_agent_name
      ∷ check m.branch validate_branch_name
      ∷ check m.repo validate_repo_name
      ∷ check m.conversation_id validate_conversation_id
      ∷ check m.stage (validate_stage_name order)
      ∷ []))

abbrev action_verbs : List String
action_verbs =
    "implement" ∷ "create" ∷ "add" ∷ "remove" ∷ "update" ∷ "fix" ∷ "refactor" ∷ "migrate" ∷ "deploy"
    ∷ "test" ∷ "review" ∷ "audit" ∷ "optimize" ∷ "configure" ∷ "build" ∷ "design" ∷ "analyze"
    ∷ "validate" ∷ "verify" ∷ "document" ∷ "debug" ∷ "integrate" ∷ "setup" ∷ "initialize"
    ∷ "configure" ∷ "modify" ∷ "enhance" ∷ "improve" ∷ "rewrite" ∷ "extract" ∷ []

-- `lower` is `toLowerCase`.
unfoldable pub validate_task_description : (String → String) → String → Option Reason
validate_task_description lower task =
    let n = length task in
    if ltb n 10
    then some (task_too_short n)
    else if ltb 500 n
    then some (task_too_long n)
    else unless (any (includes (lower task)) action_verbs) no_action_verb

abbrev check_attributes : Map (Option String) → Option Reason
check_attributes [] = none
check_attributes ((key, none) ∷ rest) = some (attribute_not_text key)
check_attributes ((key, some value) ∷ rest) =
    let others = check_attributes rest in
    if ltb 200 (length value) then some (attribute_too_long key) else others

unfoldable pub validate_attributes : Map (Option String) → Option Reason
validate_attributes [] = some empty_attributes
validate_attributes (a ∷ rest) = check_attributes (a ∷ rest)

unfoldable pub validate_conversation_body : String → Option Reason
validate_conversation_body body = unless (not (is_blank body)) empty_body

abbrev check_map : Option (Map (Option String)) → Option Reason
check_map none = none
check_map (some attributes) = validate_attributes attributes

unfoldable pub semantic_gate : (String → String) → Input → GateResult
unfolding validate_task_description validate_conversation_body
semantic_gate lower none = failed "semantic" not_an_object
semantic_gate lower (some m) = verdict "semantic" (
    first_of (
      check m.task (validate_task_description lower)
      ∷ check_map m.attributes
      ∷ check m.body validate_conversation_body
      ∷ []))

abbrev shift : Option ℕ → Option ℕ
shift none = none
shift (some n) = some (suc n)

unfoldable pub index_of : String → List String → Option ℕ
index_of s [] = none
index_of s (t ∷ rest) = let later = index_of s rest in if t == s then some zero else shift later

unfoldable pub validate_stage_order : String → String → List String → Option Reason
unfolding index_of
validate_stage_order current next order = elim (index_of current order) [
  | none ↦ some (unknown_current_stage current)
  | some i ↦ elim (index_of next order) [
    | none ↦ some (unknown_next_stage next)
    | some j ↦ if leb j i then some (backward current next) else none
  ]
]

-- A text that is there and not empty.
abbrev pub present : Option String → Option String
present none = none
present (some s) = if s == "" then none else some s

abbrev stages : Option String → Option String → List String → Option Reason
stages (some current) (some next) order = validate_stage_order current next order
stages _ _ order = none

abbrev stage_of : Input → Option String
stage_of none = none
stage_of (some m) = m.stage

unfoldable pub ordering_gate : Input → GateContext → List String → GateResult
unfolding validate_stage_order
ordering_gate input context [] = passed "ordering"
ordering_gate input context (s ∷ order) =
    verdict "ordering"
      (stages (present context.current_stage) (present (stage_of input)) (s ∷ order))
