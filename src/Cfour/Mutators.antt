-- ===== src/Cfour/Mutators.antt =====
-- Additions and updates of `BaseCfour`: `addPerson`, `addSoftwareSystem`, `addContainer`,
-- `addQueue`, `addTopic`, `addComponent`, `addCodeElement`, `addRelationship`,
-- `_addRelationshipRaw`, `updateElement`, `updateRelationship` and `refreshNode`. The views' methods
-- are `saveView`, `updateViewPosition` and `restoreViews`.
pub mod Linking
use noware.Prelude.{
  ℕ, String, Bool, not, Option, none, some, List, [], ◌∷◌, ◌++◌, if◌then◌else◌, ◌==◌, or_empty,
  find, is_some, update_first, get_or,
}
use noware.Exec.{◌>>=◌, ◌>>◌, pure, throw, modify, throw_if}
use noware.Model.{
  ContainerKind, plain, queue, topic, CodeKind, class, Person, SoftwareSystem, Container, Component,
  CodeElement, Node, a_person, a_system, a_container, a_component, a_code, Relationship, View,
  ViewElement, Workspace, id_of, kind_of,
}
use noware.Model.Collab.{Claim}
use noware.Model.Compare.{node_changes, relationship_changes}
use noware.Model.Tree.{Found, find_node_with_ancestry}
use noware.Model.Patch.{
  Assign, RelationshipAssign, assign_relationship_all, assign_node, change_node, push_container,
  has_container, push_component, holds_component, has_component, push_code_element,
}
use noware.Cfour.{
  M, Error, Op, Event, EventKind, of_element, of_relationship, of_view, Subject, bare,
  system_not_found, container_not_found, component_not_found, spans_claims, element_claimed,
}
use noware.Cfour.Events.{notify}
use noware.Cfour.Workspaces.{get_workspace, put_workspace}
use noware.Cfour.Claims.{get_claim_for, assert_claim_allows, absorb_created_element, element}
use noware.Cfour.Claims.{relationship}

abbrev pub added : String → String → EventKind → List String → Subject → Event
added name id kind path subject = record (bare Op.add name) {
  element_id = some id;
  element_kind = some kind;
  path = some path;
  after = some subject;
}

abbrev added_node : String → List String → Node → Event
added_node name path n = added name (id_of n) (of_element (kind_of n)) path (Subject.node n)

abbrev pub store : String → Workspace → M Unit
store name ws = modify (put_workspace name ws)

unfoldable pub add_person : Person → String → M Unit
add_person p name = do
  ws ← get_workspace name
  store name (record ws { people = ws.people ++ p ∷ [] })
  modify (notify (added_node name [] (a_person p)))

unfoldable pub add_software_system : SoftwareSystem → String → M Unit
add_software_system s name = do
  ws ← get_workspace name
  store name (record ws { software_systems = ws.software_systems ++ s ∷ [] })
  modify (notify (added_node name [] (a_system s)))

-- The end of the three additions below a parent.
abbrev pub place : String → String → String → List String → Node → Workspace → M Unit
place parent editor name path n ws = do
  assert_claim_allows parent editor name element
  store name ws
  absorb_created_element parent (id_of n) editor name
  modify (notify (added_node name path n))

-- `kind` is `container.kind`, which may be left out.
unfoldable pub add_container : Container → Option ContainerKind → String → String → M Unit
add_container c kind name editor = do
  ws ← get_workspace name
  throw_if (not (is_some (find (λ (s : SoftwareSystem). s.id == c.system_id) ws.software_systems)))
      (system_not_found c.system_id name)
  let created = record c { kind = get_or kind plain }
  place c.system_id editor name (c.system_id ∷ []) (a_container created)
      (record ws { software_systems = push_container created ws.software_systems })

unfoldable pub add_queue : Container → String → String → M Unit
add_queue c = add_container c (some queue)

unfoldable pub add_topic : Container → String → String → M Unit
add_topic c = add_container c (some topic)

unfoldable pub place_component :
    Component → String → String → Workspace → Option SoftwareSystem → M Unit
place_component c name editor ws none = throw (container_not_found c.container_id name)
place_component c name editor ws (some s) =
    place c.container_id editor name (s.id ∷ c.container_id ∷ []) (a_component c)
      (record ws { software_systems = push_component c ws.software_systems })

unfoldable pub add_component : Component → String → String → M Unit
add_component c name editor = do
  ws ← get_workspace name
  place_component c name editor ws (find (has_container c.container_id) ws.software_systems)

-- The container of the component, in the system that the loops stop at.
abbrev container_of : String → SoftwareSystem → Option Container
container_of id s = find (has_component id) (or_empty s.containers)

unfoldable pub place_code_in :
    CodeElement → String → String → Workspace → SoftwareSystem → Option Container → M Unit
place_code_in e name editor ws s none = throw (component_not_found e.component_id name)
place_code_in e name editor ws s (some c) =
    place e.component_id editor name (s.id ∷ c.id ∷ e.component_id ∷ []) (a_code e)
      (record ws { software_systems = push_code_element e ws.software_systems })

unfoldable pub place_code :
    CodeElement → String → String → Workspace → Option SoftwareSystem → M Unit
place_code e name editor ws none = throw (component_not_found e.component_id name)
place_code e name editor ws (some s) =
    place_code_in e name editor ws s (container_of e.component_id s)

unfoldable pub add_code_element : CodeElement → Option CodeKind → String → String → M Unit
add_code_element e kind name editor = do
  ws ← get_workspace name
  let created = record e { kind = get_or kind class }
  place_code created name editor ws (find (holds_component e.component_id) ws.software_systems)

-- `_addRelationshipRaw`; the program keeps the caller's object itself.
unfoldable pub add_relationship_raw : Relationship → String → M Unit
add_relationship_raw rel name = do
  ws ← get_workspace name
  store name (record ws { relationships = ws.relationships ++ rel ∷ [] })
  modify (notify (added name rel.id of_relationship [] (Subject.relationship rel)))

-- `claim?.editorId`, where an empty id counts as none.
abbrev pub editor_of : Option Claim → Option String
editor_of none = none
editor_of (some c) = if c.editor_id == "" then none else some c.editor_id

-- The three tests of `addRelationship`, in order.
unfoldable pub relationship_refusal :
    Relationship → String → String → Option String → Option String → Option Error
relationship_refusal rel name editor none none = none
relationship_refusal rel name editor (some s) none =
    if s == editor then none else some (element_claimed rel.source_id s name)
relationship_refusal rel name editor none (some d) =
    if d == editor then none else some (element_claimed rel.destination_id d name)
relationship_refusal rel name editor (some s) (some d) =
    if s == d
    then (if s == editor then none else some (element_claimed rel.source_id s name))
    else some (spans_claims rel.id s d name)

abbrev pub throw_some : Option Error → M Unit
throw_some none = pure tt
throw_some (some e) = throw e

unfoldable pub add_relationship : Relationship → String → String → M Unit
add_relationship rel name editor = do
  source ← get_claim_for rel.source_id name
  destination ← get_claim_for rel.destination_id name
  throw_some (relationship_refusal rel name editor (editor_of source) (editor_of destination))
  add_relationship_raw rel name

unfoldable pub update_found_relationship :
    String → List RelationshipAssign → String → Workspace → Option Relationship → M Unit
update_found_relationship id patch name ws none = pure tt
update_found_relationship id patch name ws (some before) = do
  let after = assign_relationship_all patch before
  store name (record ws {
    relationships = update_first (λ r. r.id == id) (assign_relationship_all patch) ws.relationships;
  })
  modify (
      notify (record (bare Op.update name) {
        element_id = some id;
        element_kind = some of_relationship;
        path = some [];
        before = some (Subject.relationship before);
        after = some (Subject.relationship after);
        changes = some (relationship_changes before after);
      }))

unfoldable pub update_relationship : String → List RelationshipAssign → String → String → M Unit
update_relationship id patch name editor = do
  ws ← get_workspace name
  assert_claim_allows id editor name relationship
  update_found_relationship id patch name ws (find (λ r. r.id == id) ws.relationships)

unfoldable pub update_found : String → List Assign → String → Workspace → Option Found → M Unit
update_found id patch name ws none = pure tt
update_found id patch name ws (some found) = do
  let after = assign_node patch found.node
  store name (change_node id patch ws)
  modify (
      notify (record (bare Op.update name) {
        element_id = some id;
        element_kind = some (of_element (kind_of found.node));
        path = some found.path;
        before = some (Subject.node found.node);
        after = some (Subject.node after);
        changes = some (node_changes found.node after);
      }))

unfoldable pub update_element : String → List Assign → String → String → M Unit
update_element id patch name editor = do
  ws ← get_workspace name
  assert_claim_allows id editor name element
  update_found id patch name ws (find_node_with_ancestry ws id)

-- `refreshNode`
unfoldable pub refresh_node : String → List Assign → String → String → M Unit
refresh_node = update_element

abbrev place_element : String → ℕ → ℕ → List ViewElement → List ViewElement
place_element id x y l =
    if is_some (find (λ (e : ViewElement). e.element_id == id) l)
    then update_first (λ e. e.element_id == id) (λ e. record e { x = some x; y = some y }) l
    else l ++ record { element_id = id; x = some x; y = some y } ∷ []

move_in : String → ℕ → ℕ → String → Workspace → Option View → M Unit
move_in item x y name ws none = pure tt
move_in item x y name ws (some v) = do
  let moved = record v { elements = place_element item x y v.elements }
  store name (record ws {
    views = some (update_first (λ w. w.id == v.id) (λ _. moved) (or_empty ws.views));
  })
  modify (
      notify (record (bare Op.update name) {
        element_id = some v.id;
        element_kind = some of_view;
        path = some [];
        after = some (Subject.view moved);
      }))

unfoldable pub update_view_position : String → String → ℕ → ℕ → String → M Unit
unfolding move_in
update_view_position view item x y name = do
  ws ← get_workspace name
  move_in item x y name ws (find (λ (v : View). v.id == view) (or_empty ws.views))

abbrev is_known_view : View → Workspace → Bool
is_known_view v ws = is_some (find (λ (w : View). w.id == v.id) (or_empty ws.views))

abbrev with_view : View → Workspace → Workspace
with_view v ws = record ws {
  views = some (
      if is_known_view v ws
      then update_first (λ w. w.id == v.id) (λ _. v) (or_empty ws.views)
      else or_empty ws.views ++ v ∷ []);
}

unfoldable pub save_view : View → String → M Unit
save_view v name = do
  ws ← get_workspace name
  store name (with_view v ws)
  modify (
      notify (record (bare (if is_known_view v ws then Op.update else Op.add) name) {
        element_id = some v.id;
        element_kind = some of_view;
        path = some [];
        after = some (Subject.view v);
      }))

-- `restoreViews`, without an event.
unfoldable pub restore_views : List View → String → M Unit
restore_views views name = do ws ← get_workspace name; store name (record ws { views = some views })
