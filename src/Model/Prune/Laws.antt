-- ===== src/Model/Prune/Laws.antt =====
-- What the filters of `removeElement` leave.
use noware.Prelude.{
  String, true, false, not, ◌≡◌, Option, none, some, List, [], ◌∷◌, ◌++◌, map, arith, ◌==◌, eq_iff,
  or_empty, filter, mem, mem-cons, mem-nil, All,
}
use noware.Model.{
  Person, SoftwareSystem, Container, Component, CodeElement, a_person, Relationship, Workspace,
  element_of,
}
use noware.Model.Tree.{flat_code, flat_components, flat_containers, flat_systems, flatten_workspace}
use noware.Model.Prune.{
  prune_optional, prune_code, prune_components, prune_containers, prune_systems, prune, touches,
}
use noware.Model.Tree.Walks.{ids, node_ids, mem-ids-append}

module _ (removed : List String) (k : String) (gone : mem k removed ≡ true) where
  -- An id that stays is not `k`.
  stays : (id : String) → mem id removed ≡ false → (id == k) ≡ false
  stays id h = ground (arith, eq_iff id k)

  prune_code-gone : (l : List CodeElement) → mem k (ids (flat_code (prune_code removed l))) ≡ false
  unfolding prune_code element_of
  prune_code-gone [] = mem-nil k
  prune_code-gone (c ∷ cs) = ground (
    arith,
    prune_code-gone cs,
    stays c.id,
    mem-cons k c.id (ids (flat_code (prune_code removed cs))),
  )

  code_part :
      (o : Option (List CodeElement))
      → mem k (ids (flat_code (or_empty (prune_optional removed (prune_code removed) o)))) ≡ false
  code_part none = mem-nil k
  code_part (some l) = prune_code-gone l

  prune_components-gone :
      (l : List Component) → mem k (ids (flat_components (prune_components removed l))) ≡ false
  unfolding prune_components flat_components element_of
  prune_components-gone [] = mem-nil k
  prune_components-gone (c ∷ cs) =
      let below =
        flat_code (or_empty (prune_optional removed (prune_code removed) c.code_elements)) in
      let rest = flat_components (prune_components removed cs) in
      ground (
        arith,
        prune_components-gone cs,
        code_part c.code_elements,
        stays c.id,
        mem-cons k c.id (ids (below ++ rest)),
        mem-ids-append k below rest,
      )

  component_part :
      (o : Option (List Component))
      → mem k
          (ids (flat_components (or_empty (prune_optional removed (prune_components removed) o))))
        ≡ false
  unfolding flat_components
  component_part none = mem-nil k
  component_part (some l) = prune_components-gone l

  prune_containers-gone :
      (l : List Container) → mem k (ids (flat_containers (prune_containers removed l))) ≡ false
  unfolding prune_containers flat_containers element_of
  prune_containers-gone [] = mem-nil k
  prune_containers-gone (c ∷ cs) =
      let below =
        flat_components
          (or_empty (prune_optional removed (prune_components removed) c.components)) in
      let rest = flat_containers (prune_containers removed cs) in
      ground (
        arith,
        prune_containers-gone cs,
        component_part c.components,
        stays c.id,
        mem-cons k c.id (ids (below ++ rest)),
        mem-ids-append k below rest,
      )

  container_part :
      (o : Option (List Container))
      → mem k
          (ids (flat_containers (or_empty (prune_optional removed (prune_containers removed) o))))
        ≡ false
  unfolding flat_containers
  container_part none = mem-nil k
  container_part (some l) = prune_containers-gone l

  prune_systems-gone :
      (l : List SoftwareSystem) → mem k (ids (flat_systems (prune_systems removed l))) ≡ false
  unfolding prune_systems flat_systems element_of
  prune_systems-gone [] = mem-nil k
  prune_systems-gone (c ∷ cs) =
      let below =
        flat_containers
          (or_empty (prune_optional removed (prune_containers removed) c.containers)) in
      let rest = flat_systems (prune_systems removed cs) in
      ground (
        arith,
        prune_systems-gone cs,
        container_part c.containers,
        stays c.id,
        mem-cons k c.id (ids (below ++ rest)),
        mem-ids-append k below rest,
      )

  people-gone :
      (l : List Person)
      → mem k (ids (map a_person (filter (λ p. not (mem p.id removed)) l))) ≡ false
  unfolding element_of
  people-gone [] = mem-nil k
  people-gone (p ∷ ps) = ground (
    arith,
    people-gone ps,
    stays p.id,
    mem-cons k p.id (ids (map a_person (filter (λ p. not (mem p.id removed)) ps))),
  )

  -- No node of the pruned workspace has an id of the removal set.
  pub prune-gone : (ws : Workspace) → mem k (node_ids (prune removed ws)) ≡ false
  unfolding prune flatten_workspace
  prune-gone ws = rw (
    mem-ids-append k (map a_person (filter (λ p. not (mem p.id removed)) ws.people))
        (flat_systems (prune_systems removed ws.software_systems)),
    people-gone ws.people,
    prune_systems-gone ws.software_systems,
  )

-- No relationship of the pruned workspace touches the removal set.
pub prune-untouched :
    (removed : List String) (l : List Relationship)
    → All (λ r. touches removed r ≡ false) (filter (λ r. not (touches removed r)) l)
prune-untouched removed [] = tt
prune-untouched removed (r ∷ rs) = ground (arith, prune-untouched removed rs)
