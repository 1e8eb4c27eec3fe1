-- ===== src/Model/Prune.antt =====
-- The filters of `removeElement`: every node whose id is in the removal set leaves the tree, and
-- every relationship that touches one leaves too.
pub mod Laws
use noware.Prelude.{
  String, Bool, not, ◌&&◌, ◌||◌, Option, none, some, List, [], ◌∷◌, ◌++◌, map, if◌then◌else◌,
  filter, mem,
}
use noware.Model.{
  Person, SoftwareSystem, Container, Component, CodeElement, Relationship, Workspace,
}

module _ (removed : List String) where
  abbrev pub prune_optional : {A B : Type 0} → (List A → List B) → Option (List A) → Option (List B)
  prune_optional f none = none
  prune_optional f (some l) = some (f l)

  unfoldable pub prune_code : List CodeElement → List CodeElement
  unfolding mem
  prune_code = filter (λ c. not (mem c.id removed))

  unfoldable pub prune_components : List Component → List Component
  unfolding prune_code
  prune_components [] = []
  prune_components (c ∷ cs) =
      let rest = prune_components cs in
      if mem c.id removed
      then rest
      else record c { code_elements = prune_optional prune_code c.code_elements } ∷ rest

  unfoldable pub prune_containers : List Container → List Container
  unfolding prune_components
  prune_containers [] = []
  prune_containers (c ∷ cs) =
      let rest = prune_containers cs in
      if mem c.id removed
      then rest
      else record c { components = prune_optional prune_components c.components } ∷ rest

  unfoldable pub prune_systems : List SoftwareSystem → List SoftwareSystem
  unfolding prune_containers
  prune_systems [] = []
  prune_systems (s ∷ ss) =
      let rest = prune_systems ss in
      if mem s.id removed
      then rest
      else record s { containers = prune_optional prune_containers s.containers } ∷ rest

  abbrev pub touches : Relationship → Bool
  touches r = mem r.source_id removed || mem r.destination_id removed

  unfoldable pub prune : Workspace → Workspace
  unfolding prune_systems
  prune ws = record ws {
    people = filter (λ p. not (mem p.id removed)) ws.people;
    software_systems = prune_systems ws.software_systems;
    relationships = filter (λ r. not (touches r)) ws.relationships;
  }
