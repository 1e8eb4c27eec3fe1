-- ===== src/Model/Compare.antt =====
-- `deepEqual` at the types of the model's properties, and `getObjectChanges`, of
-- packages/cfour/src/index.ts. The order of the reported names is fixed here; in the program it is
-- the order in which the properties were made.
pub mod Refl
use noware.Prelude.{
  ℕ, String, Bool, true, false, not, ◌&&◌, Option, none, some, List, [], ◌∷◌, ◌++◌, ◌==◌, nat_eq,
  if◌then◌else◌, all, Map, get, has,
}
use noware.Model.{
  ContainerKind, plain, queue, topic, CodeKind, class, interface, abstract_class, enum, function,
  table, object, ElementKind, person, software_system, component, container, code, Node, a_person,
  a_system, a_container, a_component, a_code, InteractionStyle, sync, async, CodeRelationshipKind,
  extends, implements, aggregates, composes, associates, depends, realizes, Relationship,
  element_of, kind_of, technology_of, external_of,
}
use noware.Model.Collab.{Key}

abbrev pub option_eq {ℓ} : {A : Type ℓ} → (A → A → Bool) → Option A → Option A → Bool
option_eq eq none none = true
option_eq eq (some a) (some b) = eq a b
option_eq eq _ _ = false

abbrev pub list_eq {ℓ} : {A : Type ℓ} → (A → A → Bool) → List A → List A → Bool
list_eq eq [] [] = true
list_eq eq (a ∷ as') (b ∷ bs) = eq a b && list_eq eq as' bs
list_eq eq _ _ = false

abbrev pub bool_eq : Bool → Bool → Bool
bool_eq true b = b
bool_eq false b = not b

-- Objects with text values: the order of the properties does not matter.
unfoldable pub object_eq : Map String → Map String → Bool
unfolding get has
object_eq a b = all (λ e. option_eq ◌==◌ (get e.0 a) (get e.0 b)) a && all (λ e. has e.0 a) b

abbrev container_kind_index : ContainerKind → ℕ
container_kind_index plain = 0
container_kind_index queue = 1
container_kind_index topic = 2

abbrev code_kind_index : CodeKind → ℕ
code_kind_index class = 0
code_kind_index interface = 1
code_kind_index abstract_class = 2
code_kind_index enum = 3
code_kind_index function = 4
code_kind_index table = 5
code_kind_index object = 6

abbrev kind_index : ElementKind → ℕ × ℕ
kind_index person = (0, 0)
kind_index software_system = (1, 0)
kind_index component = (2, 0)
kind_index (container k) = (3, container_kind_index k)
kind_index (code k) = (4, code_kind_index k)

unfoldable pub kind_eq : ElementKind → ElementKind → Bool
kind_eq a b = nat_eq (kind_index a).0 (kind_index b).0 && nat_eq (kind_index a).1 (kind_index b).1

abbrev style_index : InteractionStyle → ℕ
style_index sync = 0
style_index async = 1

abbrev relationship_kind_index : CodeRelationshipKind → ℕ
relationship_kind_index extends = 0
relationship_kind_index implements = 1
relationship_kind_index aggregates = 2
relationship_kind_index composes = 3
relationship_kind_index associates = 4
relationship_kind_index depends = 5
relationship_kind_index realizes = 6

unfoldable pub style_eq : InteractionStyle → InteractionStyle → Bool
style_eq a b = nat_eq (style_index a) (style_index b)

unfoldable pub relationship_kind_eq : CodeRelationshipKind → CodeRelationshipKind → Bool
relationship_kind_eq a b = nat_eq (relationship_kind_index a) (relationship_kind_index b)

-- The properties of a node's object; `none` where it is absent or undefined.
abbrev pub system_id_of : Node → Option String
system_id_of (a_container c) = some c.system_id
system_id_of _ = none

abbrev pub container_id_of : Node → Option String
container_id_of (a_component c) = some c.container_id
container_id_of _ = none

abbrev pub component_id_of : Node → Option String
component_id_of (a_code c) = some c.component_id
component_id_of _ = none

abbrev pub behavior_of : Node → Option String
behavior_of (a_component c) = c.behavior
behavior_of (a_code c) = c.behavior
behavior_of _ = none

abbrev pub stereotype_of : Node → Option String
stereotype_of (a_code c) = c.stereotype
stereotype_of _ = none

abbrev pub namespace_of : Node → Option String
namespace_of (a_code c) = c.namespace
namespace_of _ = none

abbrev text_eq : Option String → Option String → Bool
text_eq = option_eq ◌==◌

-- `changes.push(key)` where the values differ.
abbrev pub unless : Bool → Key → List Key
unless true k = []
unless false k = k ∷ []

-- The children collections and `members` are skipped.
unfoldable pub node_changes : Node → Node → List Key
unfolding element_of kind_of technology_of external_of kind_eq object_eq
node_changes a b =
    let x = element_of a in
    let y = element_of b in
    unless (x.id == y.id) Key.key_id
    ++ unless (x.name == y.name) Key.key_name
    ++ unless (kind_eq (kind_of a) (kind_of b)) Key.key_kind
    ++ unless (text_eq x.description y.description) Key.key_description
    ++ unless (text_eq x.owner y.owner) Key.key_owner
    ++ unless (text_eq x.icon y.icon) Key.key_icon
    ++ unless (option_eq (list_eq ◌==◌) x.tags y.tags) Key.key_tags
    ++ unless (option_eq object_eq x.metadata y.metadata) Key.key_metadata
    ++ unless (option_eq bool_eq (external_of a) (external_of b)) Key.key_external
    ++ unless (text_eq (system_id_of a) (system_id_of b)) Key.key_system_id
    ++ unless (text_eq (container_id_of a) (container_id_of b)) Key.key_container_id
    ++ unless (text_eq (component_id_of a) (component_id_of b)) Key.key_component_id
    ++ unless (text_eq (technology_of a) (technology_of b)) Key.key_technology
    ++ unless (text_eq (behavior_of a) (behavior_of b)) Key.key_behavior
    ++ unless (text_eq (stereotype_of a) (stereotype_of b)) Key.key_stereotype
    ++ unless (text_eq (namespace_of a) (namespace_of b)) Key.key_namespace

unfoldable pub relationship_changes : Relationship → Relationship → List Key
unfolding style_eq relationship_kind_eq
relationship_changes a b =
    unless (a.id == b.id) Key.key_id
    ++ unless (a.source_id == b.source_id) Key.key_source_id
    ++ unless (a.destination_id == b.destination_id) Key.key_destination_id
    ++ unless (text_eq a.description b.description) Key.key_description
    ++ unless (text_eq a.technology b.technology) Key.key_technology
    ++ unless (option_eq style_eq a.interaction_style b.interaction_style) Key.key_interaction_style
    ++ unless (option_eq relationship_kind_eq a.code_relationship_kind b.code_relationship_kind)
        Key.key_code_relationship_kind
    ++ unless (option_eq (list_eq ◌==◌) a.tags b.tags) Key.key_tags
