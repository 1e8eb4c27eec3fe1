-- ===== src/Model/Tree/Walks.antt =====
-- `findNodeWithAncestry` and `flattenWorkspace` see the same nodes.
use noware.Prelude.{
  String, ◌||◌, ◌≡◌, refl, sym, Option, none, some, List, [], ◌∷◌, ◌++◌, map, arith, or_empty, ◌==◌,
  eq_iff, is_some, mem, mem-append, mem-cons, mem-nil,
}
use mathlib.Core.List.{map-append}
use noware.Model.{
  Person, SoftwareSystem, Container, Component, CodeElement, Node, a_person, Workspace, id_of,
  element_of,
}
use noware.Model.Tree.{
  flat_code, flat_components, flat_containers, flat_systems, flatten_workspace, Found, ◌orelse◌,
  find_code, find_component, find_container, find_system, find_person, find_node_with_ancestry,
}

-- The ids of the nodes, in the order of `flattenWorkspace`.
abbrev pub ids : List Node → List String
ids = map id_of

abbrev pub node_ids : Workspace → List String
node_ids ws = ids (flatten_workspace ws).nodes

pub mem-ids-append :
    (k : String) (xs ys : List Node) → mem k (ids (xs ++ ys)) ≡ (mem k (ids xs) || mem k (ids ys))
mem-ids-append k xs ys = rw (map-append id_of xs ys) (mem-append k (ids xs) (ids ys))

is_some-orelse : (a b : Option Found) → is_some (a orelse b) ≡ (is_some a || is_some b)
is_some-orelse none b = refl
is_some-orelse (some a) b = refl

eq_swap : (a b : String) → (a == b) ≡ (b == a)
eq_swap a b = ground (arith, eq_iff a b, eq_iff b a)

module _ (k : String) where
  find_code_lem :
      (path : List String) (l : List CodeElement)
      → is_some (find_code k path l) ≡ mem k (ids (flat_code l))
  unfolding find_code element_of
  find_code_lem path [] = sym (mem-nil k)
  find_code_lem path (c ∷ cs) =
      ground (arith, find_code_lem path cs, eq_swap c.id k, mem-cons k c.id (ids (flat_code cs)))

  find_component_lem :
      (path : List String) (l : List Component)
      → is_some (find_component k path l) ≡ mem k (ids (flat_components l))
  unfolding find_component flat_components element_of
  find_component_lem path [] = sym (mem-nil k)
  find_component_lem path (c ∷ cs) =
      let inner = or_empty c.code_elements in
      let inner_path = path ++ c.id ∷ [] in
      ground (
        arith,
        find_component_lem path cs,
        find_code_lem inner_path inner,
        is_some-orelse (find_code k inner_path inner) (find_component k path cs),
        eq_swap c.id k,
        mem-cons k c.id (ids (flat_code inner ++ flat_components cs)),
        mem-ids-append k (flat_code inner) (flat_components cs),
      )

  find_container_lem :
      (path : List String) (l : List Container)
      → is_some (find_container k path l) ≡ mem k (ids (flat_containers l))
  unfolding find_container flat_containers element_of
  find_container_lem path [] = sym (mem-nil k)
  find_container_lem path (c ∷ cs) =
      let inner = or_empty c.components in
      let inner_path = path ++ c.id ∷ [] in
      ground (
        arith,
        find_container_lem path cs,
        find_component_lem inner_path inner,
        is_some-orelse (find_component k inner_path inner) (find_container k path cs),
        eq_swap c.id k,
        mem-cons k c.id (ids (flat_components inner ++ flat_containers cs)),
        mem-ids-append k (flat_components inner) (flat_containers cs),
      )

  find_system_lem :
      (l : List SoftwareSystem) → is_some (find_system k l) ≡ mem k (ids (flat_systems l))
  unfolding find_system flat_systems element_of
  find_system_lem [] = sym (mem-nil k)
  find_system_lem (c ∷ cs) =
      let inner = or_empty c.containers in
      let inner_path = c.id ∷ [] in
      ground (
        arith,
        find_system_lem cs,
        find_container_lem inner_path inner,
        is_some-orelse (find_container k inner_path inner) (find_system k cs),
        eq_swap c.id k,
        mem-cons k c.id (ids (flat_containers inner ++ flat_systems cs)),
        mem-ids-append k (flat_containers inner) (flat_systems cs),
      )

  find_person_lem : (l : List Person) → is_some (find_person k l) ≡ mem k (ids (map a_person l))
  unfolding find_person element_of
  find_person_lem [] = sym (mem-nil k)
  find_person_lem (p ∷ ps) =
      ground (arith, find_person_lem ps, eq_swap p.id k, mem-cons k p.id (ids (map a_person ps)))

-- `findNodeWithAncestry` finds a node for an id if and only if the id is one of the flattened
-- workspace's.
pub find_node_with_ancestry_lem :
    (k : String) (ws : Workspace) → is_some (find_node_with_ancestry ws k) ≡ mem k (node_ids ws)
unfolding find_node_with_ancestry flatten_workspace
find_node_with_ancestry_lem k ws = rw (
  is_some-orelse (find_person k ws.people) (find_system k ws.software_systems),
  mem-ids-append k (map a_person ws.people) (flat_systems ws.software_systems),
  find_person_lem k ws.people,
  find_system_lem k ws.software_systems,
)
