-- ===== src/Model/Patch.antt =====
-- `Object.assign` of a patch to an element or a relationship, in place at the first object with the
-- id, and the places where new children are pushed.
use noware.Prelude.{
  String, Bool, Option, none, some, List, [], ◌∷◌, ◌++◌, if◌then◌else◌, ◌==◌, or_empty, find,
  is_some, update_first,
}
use noware.Model.{
  ElementKind, container, code, Element, Person, SoftwareSystem, Container, Component, CodeElement,
  Node, a_person, a_system, a_container, a_component, a_code, InteractionStyle,
  CodeRelationshipKind, Relationship, Workspace,
}

-- What an element's patch assigns: the properties that all kinds have, and those of one kind, which
-- `applyMerge` passes too. A property that the element's kind does not have is not kept here.
pub data Assign : Type 0 where
  id name : String → Assign
  description owner icon : Option String → Assign
  tags : Option (List String) → Assign
  metadata : Option (List (String × String)) → Assign
  kind : ElementKind → Assign
  external : Option Bool → Assign
  system_id container_id component_id : Option String → Assign
  technology behavior stereotype namespace : Option String → Assign

unfoldable pub assign : Element → Assign → Element
assign e (id v) = record e { id = v }
assign e (name v) = record e { name = v }
assign e (description v) = record e { description = v }
assign e (owner v) = record e { owner = v }
assign e (icon v) = record e { icon = v }
assign e (tags v) = record e { tags = v }
assign e (metadata v) = record e { metadata = v }
assign e _ = e

unfoldable pub assign_person : Person → Assign → Person
unfolding assign
assign_person p (external v) = record p { external = v }
assign_person p a = record p { element = assign p.element a }

unfoldable pub assign_system : SoftwareSystem → Assign → SoftwareSystem
unfolding assign
assign_system s (external v) = record s { external = v }
assign_system s a = record s { element = assign s.element a }

unfoldable pub assign_container : Container → Assign → Container
unfolding assign
assign_container c (kind (container k)) = record c { kind = k }
assign_container c (system_id (some v)) = record c { system_id = v }
assign_container c (technology v) = record c { technology = v }
assign_container c a = record c { element = assign c.element a }

unfoldable pub assign_component : Component → Assign → Component
unfolding assign
assign_component c (container_id (some v)) = record c { container_id = v }
assign_component c (technology v) = record c { technology = v }
assign_component c (behavior v) = record c { behavior = v }
assign_component c a = record c { element = assign c.element a }

unfoldable pub assign_code : CodeElement → Assign → CodeElement
unfolding assign
assign_code e (kind (code k)) = record e { kind = k }
assign_code e (component_id (some v)) = record e { component_id = v }
assign_code e (technology v) = record e { technology = v }
assign_code e (behavior v) = record e { behavior = v }
assign_code e (stereotype v) = record e { stereotype = v }
assign_code e (namespace v) = record e { namespace = v }
assign_code e a = record e { element = assign e.element a }

-- `Object.assign(x, patch)`, one property after the other.
unfoldable pub assign_all : {T A : Type 0} → (T → A → T) → List A → T → T
assign_all f [] x = x
assign_all f (a ∷ rest) x = assign_all f rest (f x a)

unfoldable pub assign_node : List Assign → Node → Node
unfolding assign_all assign_person assign_system assign_container assign_component assign_code
assign_node patch (a_person p) = a_person (assign_all assign_person patch p)
assign_node patch (a_system s) = a_system (assign_all assign_system patch s)
assign_node patch (a_container c) = a_container (assign_all assign_container patch c)
assign_node patch (a_component c) = a_component (assign_all assign_component patch c)
assign_node patch (a_code c) = a_code (assign_all assign_code patch c)

-- Partial<Omit<C4Relationship, "id" | "kind">>
pub data RelationshipAssign : Type 0 where
  id source_id destination_id : String → RelationshipAssign
  description technology : Option String → RelationshipAssign
  interaction_style : Option InteractionStyle → RelationshipAssign
  code_relationship_kind : Option CodeRelationshipKind → RelationshipAssign
  tags : Option (List String) → RelationshipAssign

unfoldable pub assign_relationship : Relationship → RelationshipAssign → Relationship
assign_relationship r (id v) = record r { id = v }
assign_relationship r (source_id v) = record r { source_id = v }
assign_relationship r (destination_id v) = record r { destination_id = v }
assign_relationship r (description v) = record r { description = v }
assign_relationship r (technology v) = record r { technology = v }
assign_relationship r (interaction_style v) = record r { interaction_style = v }
assign_relationship r (code_relationship_kind v) = record r { code_relationship_kind = v }
assign_relationship r (tags v) = record r { tags = v }

unfoldable pub assign_relationship_all : List RelationshipAssign → Relationship → Relationship
unfolding assign_all assign_relationship
assign_relationship_all = assign_all assign_relationship

-- The walk of `findNodeWithAncestry` with a change at the node that it finds; `none` where it finds
-- none.
abbrev kept : {A B : Type 0} → (A → B) → Option B → Option A → Option B
kept f b none = b
kept f b (some a) = some (f a)

module _ (wanted : String) (patch : List Assign) where
  unfoldable pub change_code : List CodeElement → Option (List CodeElement)
  unfolding assign_all assign_code
  change_code [] = none
  change_code (c ∷ cs) =
      if c.id == wanted
      then some (assign_all assign_code patch c ∷ cs)
      else kept (◌∷◌ c) none (change_code cs)

  unfoldable pub change_components : List Component → Option (List Component)
  unfolding change_code assign_component
  change_components [] = none
  change_components (c ∷ cs) =
      if c.id == wanted
      then some (assign_all assign_component patch c ∷ cs)
      else kept (λ es. record c { code_elements = some es } ∷ cs)
          (kept (◌∷◌ c) none (change_components cs)) (change_code (or_empty c.code_elements))

  unfoldable pub change_containers : List Container → Option (List Container)
  unfolding change_components assign_container
  change_containers [] = none
  change_containers (c ∷ cs) =
      if c.id == wanted
      then some (assign_all assign_container patch c ∷ cs)
      else kept (λ es. record c { components = some es } ∷ cs)
          (kept (◌∷◌ c) none (change_containers cs)) (change_components (or_empty c.components))

  unfoldable pub change_systems : List SoftwareSystem → Option (List SoftwareSystem)
  unfolding change_containers assign_system
  change_systems [] = none
  change_systems (s ∷ ss) =
      if s.id == wanted
      then some (assign_all assign_system patch s ∷ ss)
      else kept (λ es. record s { containers = some es } ∷ ss)
          (kept (◌∷◌ s) none (change_systems ss)) (change_containers (or_empty s.containers))

  unfoldable pub change_people : List Person → Option (List Person)
  unfolding assign_all assign_person
  change_people [] = none
  change_people (p ∷ ps) =
      if p.id == wanted
      then some (assign_all assign_person patch p ∷ ps)
      else kept (◌∷◌ p) none (change_people ps)

  unfoldable pub change_node : Workspace → Workspace
  unfolding change_systems change_people
  change_node ws = elim (change_people ws.people) [
    | some ps ↦ record ws { people = ps }
    | none ↦ elim (change_systems ws.software_systems) [
      | some ss ↦ record ws { software_systems = ss }
      | none ↦ ws
    ]
  ]

-- `xs = xs || []; xs.push(x)` on an optional property.
abbrev pushed : {A : Type 0} → A → Option (List A) → Option (List A)
pushed a l = some (or_empty l ++ a ∷ [])

unfoldable pub push_container : Container → List SoftwareSystem → List SoftwareSystem
push_container c =
    update_first (λ s. s.id == c.system_id) (λ s. record s { containers = pushed c s.containers })

abbrev pub has_container : String → SoftwareSystem → Bool
has_container wanted s = is_some (find (λ (c : Container). c.id == wanted) (or_empty s.containers))

unfoldable pub push_component : Component → List SoftwareSystem → List SoftwareSystem
push_component c = update_first (has_container c.container_id) (λ s. record s {
  containers = some (
      update_first (λ d. d.id == c.container_id)
        (λ d. record d { components = pushed c d.components }) (or_empty s.containers));
})

abbrev pub has_component : String → Container → Bool
has_component wanted c = is_some (find (λ (d : Component). d.id == wanted) (or_empty c.components))

abbrev pub holds_component : String → SoftwareSystem → Bool
holds_component wanted s = is_some (find (has_component wanted) (or_empty s.containers))

unfoldable pub push_code : CodeElement → Container → Container
push_code e c = record c {
  components = some (
      update_first (λ d. d.id == e.component_id)
        (λ d. record d { code_elements = pushed e d.code_elements }) (or_empty c.components));
}

unfoldable pub push_code_element : CodeElement → List SoftwareSystem → List SoftwareSystem
unfolding push_code
push_code_element e = update_first (holds_component e.component_id) (λ s. record s {
  containers =
      some (update_first (has_component e.component_id) (push_code e) (or_empty s.containers));
})
