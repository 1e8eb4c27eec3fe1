-- ===== src/Stigmergy/Registry.antt =====
-- `ComponentRegistry` of packages/cfour/src/index.ts: component definitions by name, and the
-- components attached to entities. A schema is what the registry reads of it, a value is `unknown`
-- but for the properties that it has as an object; the times are given.
pub mod Laws
use noware.Prelude.{
  ℕ, suc, String, Bool, true, false, not, Option, none, some, List, [], ◌∷◌, ◌++◌, if◌then◌else◌,
  ◌==◌, find, is_some, get_or, Map, get, set, has, values,
}
use noware.Exec.{Result, ok, throws}

pub record Schema : Type 0 where
  pub has_properties : Bool
  pub required : Option (List String)

-- `unknown`: an object with the names of the properties that are not undefined, or no object.
pub data Value : Type 0 where
  object : List String → Value
  other : Value

pub record ComponentDefinition : Type 0 where
  pub name : String
  pub schema : Schema
  pub version : ℕ
  pub created_at : ℕ
  pub updated_at : ℕ

pub record ComponentInstance : Type 0 where
  pub entity_id : String
  pub component_name : String
  pub value : Value
  pub created_at : ℕ
  pub updated_at : ℕ

pub record Registry : Type 0 where
  pub definitions : Map ComponentDefinition
  pub instances : Map (List ComponentInstance)

-- new Error(`Component ${name} not defined`)
pub data Error : Type 0 where
  not_defined : String → Error

unfoldable pub define : String → Schema → ℕ → ℕ → Registry → Registry
define name schema created updated r = record r {
  definitions =
      set name
        (record {
          name = name;
          schema = schema;
          version = 1;
          created_at = created;
          updated_at = updated;
        })
        r.definitions;
}

abbrev pub renewed : Schema → ℕ → ComponentDefinition → ComponentDefinition
renewed schema now d = record d { schema = schema; version = suc d.version; updated_at = now }

unfoldable pub update_definition :
    String → Schema → ℕ → Registry → Result Error ComponentDefinition × Registry
update_definition name schema now r = elim (get name r.definitions) [
  | none ↦ (throws (not_defined name), r)
  | some d ↦ (
    ok (renewed schema now d),
    record r { definitions = set name (renewed schema now d) r.definitions },
  )
]

abbrev pub all_present : List String → List String → Bool
all_present [] names = true
all_present (field ∷ fields) names =
    if is_some (find (λ n. n == field) names) then all_present fields names else false

abbrev pub conforms : Schema → Value → Bool
conforms s other = false
conforms s (object names) =
    if s.has_properties then all_present (get_or s.required []) names else true

unfoldable pub validate_component : String → Value → Registry → Bool
validate_component name value r = elim (get name r.definitions) [
  | none ↦ false
  | some d ↦ conforms d.schema value
]

abbrev pub instances_of : String → Registry → List ComponentInstance
instances_of entity r = get_or (get entity r.instances) []

abbrev pub instance_of : String → String → Value → ℕ → ℕ → ComponentInstance
instance_of entity name value created updated = record {
  entity_id = entity;
  component_name = name;
  value = value;
  created_at = created;
  updated_at = updated;
}

unfoldable pub attach : ComponentInstance → Registry → Registry
attach i r = record r {
  instances = set i.entity_id (instances_of i.entity_id r ++ i ∷ []) r.instances;
}

-- `splice(idx, 1)` at the first one of the name.
unfoldable pub without_first : String → List ComponentInstance → List ComponentInstance
without_first name [] = []
without_first name (i ∷ l) =
    let rest = without_first name l in if i.component_name == name then l else i ∷ rest

unfoldable pub get_component : String → String → Registry → Option ComponentInstance
get_component entity name r = find (λ i. i.component_name == name) (instances_of entity r)

unfoldable pub detach : String → String → Registry → Bool × Registry
unfolding without_first get_component
detach entity name r =
    if is_some (get_component entity name r)
    then (
      true,
      record r { instances = set entity (without_first name (instances_of entity r)) r.instances },
    )
    else (false, r)

unfoldable pub get_definition : String → Registry → Option ComponentDefinition
get_definition name r = get name r.definitions
