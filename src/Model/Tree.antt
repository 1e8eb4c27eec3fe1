-- ===== src/Model/Tree.antt =====
-- The walks over a workspace's tree: `flattenWorkspace`, `findNodeWithAncestry` and
-- `collectDescendants` of packages/cfour/src/index.ts.
pub mod Walks
use noware.Prelude.{
  String, Bool, Option, none, some, List, [], ◌∷◌, ◌++◌, map, or_empty, if◌then◌else◌, ◌==◌, Map,
  set_all, no_entries,
}
use noware.Model.{
  Node, a_person, a_system, a_container, a_component, a_code, Person, SoftwareSystem, Container,
  Component, CodeElement, Relationship, Workspace, id_of, element_of,
}

-- `flattenWorkspace`, a loop for each level.
abbrev pub flat_code : List CodeElement → List Node
flat_code = map a_code

unfoldable pub flat_components : List Component → List Node
flat_components [] = []
flat_components (c ∷ cs) =
    a_component c ∷ flat_code (or_empty c.code_elements) ++ flat_components cs

unfoldable pub flat_containers : List Container → List Node
flat_containers [] = []
flat_containers (c ∷ cs) =
    a_container c ∷ flat_components (or_empty c.components) ++ flat_containers cs

unfoldable pub flat_systems : List SoftwareSystem → List Node
flat_systems [] = []
flat_systems (s ∷ ss) = a_system s ∷ flat_containers (or_empty s.containers) ++ flat_systems ss

pub record FlatModel : Type 0 where
  pub nodes : List Node
  pub relationships : List Relationship

unfoldable pub flatten_workspace : Workspace → FlatModel
unfolding flat_systems flat_containers flat_components
flatten_workspace ws = record {
  nodes = map a_person ws.people ++ flat_systems ws.software_systems;
  relationships = ws.relationships;
}

-- `buildNodeMap`: of two nodes with one id the later one wins, at the earlier one's place.
unfoldable pub build_node_map : FlatModel → Map Node
unfolding set_all element_of
build_node_map flat = set_all id_of (no_entries Node) flat.nodes

pub record Found : Type 0 where
  pub node : Node
  pub path : List String

-- `findNodeWithAncestry`, a loop for each level; a level that finds nothing goes on with the next
-- element of the level above.
infixr 60 ◌orelse◌
abbrev pub ◌orelse◌ : Option Found → Option Found → Option Found
none orelse b = b
some a orelse b = some a

abbrev pub hit : Node → List String → Option Found
hit n path = some (record { node = n; path = path })

unfoldable pub find_code : String → List String → List CodeElement → Option Found
find_code id path [] = none
find_code id path (c ∷ cs) = if c.id == id then hit (a_code c) path else find_code id path cs

unfoldable pub find_component : String → List String → List Component → Option Found
find_component id path [] = none
find_component id path (c ∷ cs) =
    if c.id == id
    then hit (a_component c) path
    else find_code id (path ++ c.id ∷ []) (or_empty c.code_elements)
      orelse find_component id path cs

unfoldable pub find_container : String → List String → List Container → Option Found
find_container id path [] = none
find_container id path (c ∷ cs) =
    if c.id == id
    then hit (a_container c) path
    else find_component id (path ++ c.id ∷ []) (or_empty c.components)
      orelse find_container id path cs

unfoldable pub find_system : String → List SoftwareSystem → Option Found
find_system id [] = none
find_system id (s ∷ ss) =
    if s.id == id
    then hit (a_system s) []
    else find_container id (s.id ∷ []) (or_empty s.containers) orelse find_system id ss

unfoldable pub find_person : String → List Person → Option Found
find_person id [] = none
find_person id (p ∷ ps) = if p.id == id then hit (a_person p) [] else find_person id ps

unfoldable pub find_node_with_ancestry : Workspace → String → Option Found
unfolding find_person find_system find_container find_component find_code
find_node_with_ancestry ws id = find_person id ws.people orelse find_system id ws.software_systems

-- `collectDescendants`, leaves first.
abbrev pub below_component : Component → List Node
below_component c = flat_code (or_empty c.code_elements)

unfoldable pub below_components : List Component → List Node
below_components [] = []
below_components (c ∷ cs) = below_component c ++ a_component c ∷ below_components cs

unfoldable pub below_containers : List Container → List Node
below_containers [] = []
below_containers (c ∷ cs) =
    below_components (or_empty c.components) ++ a_container c ∷ below_containers cs

unfoldable pub collect_descendants : Node → List Node
unfolding below_components below_containers
collect_descendants (a_system s) = below_containers (or_empty s.containers)
collect_descendants (a_container c) = below_components (or_empty c.components)
collect_descendants (a_component c) = below_component c
collect_descendants _ = []
