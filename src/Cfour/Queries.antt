-- ===== src/Cfour/Queries.antt =====
-- What `BaseCfour` reads out of a workspace: `validate`, `getSubtree`, `getDescendants`,
-- `getAncestors`, `getFlowCatalog`, `lint` and the private `_internalRelationshipIds`.
pub mod Integrity
mod Tests
use noware.Prelude.{
  String, Bool, not, ◌&&◌, Option, none, some, List, [], ◌∷◌, ◌++◌, map, if◌then◌else◌, ◌==◌,
  or_empty, filter, any, is_some, Map, get, mem, from_list,
}
use noware.Exec.{◌>>=◌, ◌>>◌, pure, throw_if}
use noware.Model.{
  ElementKind, person, software_system, SoftwareSystem, Node, Relationship, View, Workspace, id_of,
  element_of, kind_of, technology_of,
}
use noware.Model.Collab.{Selection}
use noware.Model.Tree.{
  FlatModel, flatten_workspace, build_node_map, find_node_with_ancestry, collect_descendants,
}
use noware.Cfour.{M, element_not_found}
use noware.Cfour.Workspaces.{get_workspace}

-- What `validate` reports: a dangling end of a relationship is an error, a system without containers
-- a warning. Each names the relationship or system, and the dangling end the missing node.
pub data Problem : Type 0 where
  dangling_source dangling_destination : String → String → Problem
  no_containers : String → String → Problem

abbrev pub unless_known : Bool → Problem → List Problem
unless_known known p = if known then [] else p ∷ []

unfoldable pub dangling : List String → List Relationship → List Problem
dangling ids [] = []
dangling ids (r ∷ rs) =
    unless_known (mem r.source_id ids) (dangling_source r.id r.source_id)
    ++ unless_known (mem r.destination_id ids) (dangling_destination r.id r.destination_id)
    ++ dangling ids rs

abbrev pub has_some : {A : Type 0} → List A → Bool
has_some [] = Bool.false
has_some (a ∷ l) = Bool.true

unfoldable pub bare_systems : List SoftwareSystem → List Problem
bare_systems [] = []
bare_systems (s ∷ ss) =
    unless_known (has_some (or_empty s.containers)) (no_containers s.id s.name) ++ bare_systems ss

unfoldable pub problems : Workspace → List Problem
problems ws =
    dangling (map id_of (flatten_workspace ws).nodes) ws.relationships
    ++ bare_systems ws.software_systems

unfoldable pub validate : String → M (List Problem)
validate name = do ws ← get_workspace name; pure (problems ws)

-- `_internalRelationshipIds`
unfoldable pub internal_relationship_ids : List Relationship → List String → List String
internal_relationship_ids rels ids =
    map (λ r. r.id) (filter (λ r. mem r.source_id ids && mem r.destination_id ids) rels)

unfoldable pub descendants : Workspace → String → List Node
descendants ws id = elim (find_node_with_ancestry ws id) [
  | none ↦ []
  | some found ↦ collect_descendants found.node
]

unfoldable pub get_descendants : String → String → M (List Node)
get_descendants id name = do ws ← get_workspace name; pure (descendants ws id)

unfoldable pub selection_of : Workspace → List String → Selection
selection_of ws ids = record {
  element_ids = ids;
  relationship_ids = internal_relationship_ids ws.relationships (from_list [] ids);
}

unfoldable pub get_subtree : String → String → M Selection
get_subtree root name = do
  ws ← get_workspace name
  throw_if (not (is_some (find_node_with_ancestry ws root))) (element_not_found root name)
  below ← get_descendants root name
  pure (selection_of ws (root ∷ map id_of below))

abbrev lookups : Map Node → List String → List Node
lookups m [] = []
lookups m (id ∷ ids) = elim (get id m) [ none ↦ lookups m ids | some n ↦ n ∷ lookups m ids ]

unfoldable pub ancestors : Workspace → String → List Node
ancestors ws id = elim (find_node_with_ancestry ws id) [
  | none ↦ []
  | some found ↦ lookups (build_node_map (flatten_workspace ws)) found.path
]

unfoldable pub get_ancestors : String → String → M (List Node)
get_ancestors id name = do ws ← get_workspace name; pure (ancestors ws id)

-- A property that is absent or the empty text.
abbrev is_missing : Option String → Bool
is_missing none = Bool.true
is_missing (some t) = t == ""

pub data Violation : Type 0 where
  no_title no_scope : String → Violation
  no_description : String → String → Violation
  no_technology : String → Violation
  no_label : String → Violation
  no_protocol : String → String → Violation

abbrev when_so : Bool → Violation → List Violation
when_so b v = if b then v ∷ [] else []

abbrev is_top_level : ElementKind → Bool
is_top_level person = Bool.true
is_top_level software_system = Bool.true
is_top_level _ = Bool.false

unfoldable pub lint_nodes : List Node → List Violation
lint_nodes [] = []
lint_nodes (n ∷ ns) =
    let e = element_of n in
    when_so (is_missing e.description) (no_description e.name e.id)
    ++ when_so (is_missing (technology_of n) && not (is_top_level (kind_of n)))
        (no_technology e.name)
    ++ lint_nodes ns

unfoldable pub lint_relationships : List Relationship → List Violation
lint_relationships [] = []
lint_relationships (r ∷ rs) =
    when_so (is_missing r.description) (no_label r.id)
    ++ when_so (is_missing r.technology) (no_protocol r.source_id r.destination_id)
    ++ lint_relationships rs

abbrev shown_in : View → FlatModel → FlatModel
shown_in v flat = record {
  nodes = filter (λ n. any (λ e. e.element_id == id_of n) v.elements) flat.nodes;
  relationships = filter (λ r. any (λ id. id == r.id) v.relationships) flat.relationships;
}

abbrev lint_view : View → List Violation
lint_view v =
    when_so (is_missing v.title) (no_title v.id)
    ++ when_so (is_missing v.description) (no_scope v.id)

abbrev lint_flat : FlatModel → List Violation
lint_flat flat = lint_nodes flat.nodes ++ lint_relationships flat.relationships

unfoldable pub violations : Option View → Workspace → List Violation
violations none ws = lint_flat (flatten_workspace ws)
violations (some v) ws = lint_view v ++ lint_flat (shown_in v (flatten_workspace ws))

unfoldable pub lint : Option View → String → M (List Violation)
lint view name = do ws ← get_workspace name; pure (violations view ws)

pub record Flow : Type 0 where
  pub id : String
  pub source : String
  pub destination : String
  pub description : String
  pub technology : String

abbrev name_in : Map Node → String → String
name_in m id = elim (get id m) [ none ↦ id | some n ↦ (element_of n).name ]

-- `text || fallback`
abbrev or_text : Option String → String → String
or_text none d = d
or_text (some t) d = if t == "" then d else t

abbrev flow_of : Map Node → Relationship → Flow
flow_of m r = record {
  id = r.id;
  source = name_in m r.source_id;
  destination = name_in m r.destination_id;
  description = or_text r.description "Relationship";
  technology = or_text r.technology "Unknown";
}

abbrev has_tag : String → Relationship → Bool
has_tag tag r = mem tag (or_empty r.tags)

unfoldable pub flow_catalog : String → Workspace → List Flow
flow_catalog tag ws =
    map (flow_of (build_node_map (flatten_workspace ws))) (filter (has_tag tag) ws.relationships)

unfoldable pub get_flow_catalog : String → String → M (List Flow)
get_flow_catalog tag name = do ws ← get_workspace name; pure (flow_catalog tag ws)
