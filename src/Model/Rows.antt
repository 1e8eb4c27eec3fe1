-- ===== src/Model/Rows.antt =====
-- The rows of a SQLite store: `nodeToRow`, `relationshipToRow`, `exportRows` and `rowsToWorkspace` of
-- packages/cfour/src/index.ts. A JSON text in a row is the value that it encodes.
pub mod Levels
pub mod Picks
pub mod RoundTrip
mod Tests
use noware.Prelude.{
  ℕ, String, Bool, true, false, not, ◌&&◌, Option, none, some, List, [], ◌∷◌, map, if◌then◌else◌,
  ◌==◌, nat_eq, filter, mem, get_or,
}
use noware.Model.{
  ElementKind, ContainerKind, CodeKind, person, software_system, component, container, code,
  Element, Person, SoftwareSystem, Container, Component, CodeElement, CodeMember, Node, a_code,
  InteractionStyle, CodeRelationshipKind, Relationship, Workspace, element_of, kind_of,
  technology_of, external_of, parent_id_of,
}
use noware.Model.Compare.{behavior_of, stereotype_of, namespace_of}
use noware.Model.Tree.{FlatModel, flatten_workspace}

pub record NodeRow : Type 0 where
  pub workspace_name : String
  pub id : String
  pub kind : ElementKind
  pub name : String
  pub description : Option String
  pub owner : Option String
  pub icon : Option String
  pub tags : Option (List String)
  pub metadata : Option (List (String × String))
  pub parent_id : Option String
  pub technology : Option String
  pub external : Option ℕ
  pub behavior : Option String
  pub stereotype : Option String
  pub namespace : Option String
  pub members : Option (List CodeMember)

pub record RelationshipRow : Type 0 where
  pub workspace_name : String
  pub id : String
  pub source_id : String
  pub destination_id : String
  pub description : Option String
  pub technology : Option String
  pub interaction_style : Option InteractionStyle
  pub code_relationship_kind : Option CodeRelationshipKind
  pub tags : Option (List String)

pub record WorkspaceRows : Type 0 where
  pub nodes : List NodeRow
  pub relationships : List RelationshipRow

abbrev flag : Option Bool → Option ℕ
flag none = none
flag (some b) = some (if b then 1 else 0)

abbrev members_of : Node → Option (List CodeMember)
members_of (a_code c) = c.members
members_of _ = none

unfoldable pub node_to_row : String → Node → NodeRow
unfolding element_of kind_of technology_of external_of parent_id_of
node_to_row name n =
    let e = element_of n in
    record {
      workspace_name = name;
      id = e.id;
      kind = kind_of n;
      name = e.name;
      description = e.description;
      owner = e.owner;
      icon = e.icon;
      tags = e.tags;
      metadata = e.metadata;
      parent_id = parent_id_of n;
      technology = technology_of n;
      external = flag (external_of n);
      behavior = behavior_of n;
      stereotype = stereotype_of n;
      namespace = namespace_of n;
      members = members_of n;
    }

unfoldable pub relationship_to_row : String → Relationship → RelationshipRow
relationship_to_row name r = record {
  workspace_name = name;
  id = r.id;
  source_id = r.source_id;
  destination_id = r.destination_id;
  description = r.description;
  technology = r.technology;
  interaction_style = r.interaction_style;
  code_relationship_kind = r.code_relationship_kind;
  tags = r.tags;
}

-- `exportRows` of a workspace.
unfoldable pub export_rows : String → Workspace → WorkspaceRows
unfolding node_to_row relationship_to_row flatten_workspace
export_rows name ws =
    let flat = flatten_workspace ws in
    record {
      nodes = map (node_to_row name) flat.nodes;
      relationships = map (relationship_to_row name) flat.relationships;
    }

-- The rows of a kind, with what the kind says.
unfoldable pub select : {K : Type 0} → (ElementKind → Option K) → List NodeRow → List (K × NodeRow)
select pick [] = []
select pick (r ∷ rs) = elim (pick r.kind) [
  | none ↦ select pick rs
  | some k ↦ (k, r) ∷ select pick rs
]

abbrev pub a_person_kind : ElementKind → Option (Unit {0})
a_person_kind person = some tt
a_person_kind _ = none

abbrev pub a_system_kind : ElementKind → Option (Unit {0})
a_system_kind software_system = some tt
a_system_kind _ = none

abbrev pub a_container_kind : ElementKind → Option ContainerKind
a_container_kind (container k) = some k
a_container_kind _ = none

abbrev pub a_component_kind : ElementKind → Option (Unit {0})
a_component_kind component = some tt
a_component_kind _ = none

abbrev pub a_code_kind : ElementKind → Option CodeKind
a_code_kind (code k) = some k
a_code_kind _ = none

-- `base` and `external`
abbrev pub base : NodeRow → Element
base r = record {
  id = r.id;
  name = r.name;
  description = r.description;
  owner = r.owner;
  icon = r.icon;
  tags = r.tags;
  metadata = r.metadata;
}

abbrev pub external : NodeRow → Option Bool
external r = elim r.external [ none ↦ none | some n ↦ some (nat_eq n 1) ]

abbrev pub row_ids : {K : Type 0} → List (K × NodeRow) → List String
row_ids = map λ e. e.1.id

-- `r.parent_id ? parents.get(r.parent_id) : undefined` is there.
abbrev pub has_parent : List String → NodeRow → Bool
has_parent ids r = elim r.parent_id [ none ↦ false | some p ↦ not (p == "") && mem p ids ]

unfoldable pub adopted : {K : Type 0} → List String → List (K × NodeRow) → List (K × NodeRow)
adopted ids = filter λ e. has_parent ids e.1

-- Of the rows with one id the map of the next level finds the last: only that one has children.
unfoldable pub mark : {K : Type 0} → List (K × NodeRow) → List (Bool × K × NodeRow)
mark [] = []
mark (e ∷ es) = (not (mem e.1.id (row_ids es)), e.0, e.1) ∷ mark es

abbrev pub is_child : String → Option String → Bool
is_child id none = false
is_child id (some p) = p == id

-- The children that the row's object is given.
abbrev pub children_of : {E B : Type 0} → (E → NodeRow) → (E → B) → List E → Bool → String → List B
children_of row build rows live id =
    if live then map build (filter (λ e. is_child id (row e).parent_id) rows) else []

unfoldable pub person_from : Unit {0} × NodeRow → Person
person_from (_, r) = record { element = base r; external = external r }

unfoldable pub code_from : CodeKind × NodeRow → CodeElement
code_from (k, r) = record {
  element = base r;
  kind = k;
  component_id = get_or r.parent_id "";
  technology = r.technology;
  stereotype = r.stereotype;
  behavior = r.behavior;
  members = r.members;
  namespace = r.namespace;
}

unfoldable pub component_from : List (CodeKind × NodeRow) → Bool × Unit {0} × NodeRow → Component
unfolding code_from
component_from codes (live, _, r) = record {
  element = base r;
  container_id = get_or r.parent_id "";
  technology = r.technology;
  behavior = r.behavior;
  code_elements = some (children_of (λ e. e.1) code_from codes live r.id);
}

unfoldable pub container_from :
    (Bool × Unit {0} × NodeRow → Component)
    → List (Bool × Unit {0} × NodeRow)
    → Bool × ContainerKind × NodeRow
    → Container
container_from build components (live, k, r) = record {
  element = base r;
  kind = k;
  system_id = get_or r.parent_id "";
  technology = r.technology;
  components = some (children_of (λ e. e.2) build components live r.id);
}

unfoldable pub system_from :
    (Bool × ContainerKind × NodeRow → Container)
    → List (Bool × ContainerKind × NodeRow)
    → Bool × Unit {0} × NodeRow
    → SoftwareSystem
system_from build containers (live, _, r) = record {
  element = base r;
  external = external r;
  containers = some (children_of (λ e. e.2) build containers live r.id);
}

unfoldable pub relationship_from : RelationshipRow → Relationship
relationship_from r = record {
  id = r.id;
  source_id = r.source_id;
  destination_id = r.destination_id;
  description = r.description;
  technology = r.technology;
  interaction_style = r.interaction_style;
  code_relationship_kind = r.code_relationship_kind;
  tags = r.tags;
}

-- The objects of the rows, where every row but the systems' has a parent.
unfoldable pub assemble :
    List (Unit {0} × NodeRow)
    → List (ContainerKind × NodeRow)
    → List (Unit {0} × NodeRow)
    → List (CodeKind × NodeRow)
    → List SoftwareSystem
assemble systems containers components codes =
    map (system_from (container_from (component_from codes) (mark components)) (mark containers))
      (mark systems)

-- The passes over the node rows: systems, containers, components, code elements.
unfoldable pub systems_from : List NodeRow → List SoftwareSystem
systems_from rows =
    let systems = select a_system_kind rows in
    let containers = adopted (row_ids systems) (select a_container_kind rows) in
    let components = adopted (row_ids containers) (select a_component_kind rows) in
    let codes = adopted (row_ids components) (select a_code_kind rows) in
    assemble systems containers components codes

unfoldable pub rows_to_workspace : WorkspaceRows → String → Option String → Workspace
unfolding systems_from person_from relationship_from assemble select
rows_to_workspace rows title description = record {
  name = title;
  description = description;
  people = map person_from (select a_person_kind rows.nodes);
  software_systems = systems_from rows.nodes;
  relationships = map relationship_from rows.relationships;
  views = none;
}
