-- ===== src/Model/Rows/Picks.antt =====
-- Which rows of an exported workspace are of each kind, in which order.
use noware.Prelude.{
  String, ◌≡◌, refl, sym, ap, ◌∙◌, Option, none, List, [], ◌∷◌, ◌++◌, map, arith, or_empty,
}
use mathlib.Core.List.{map-append}
use noware.Model.{
  ElementKind, ContainerKind, CodeKind, person, software_system, component, container, code, Person,
  SoftwareSystem, Container, Component, CodeElement, Node, a_person, a_system, a_container,
  a_component, a_code, Workspace,
}
use noware.Model.Tree.{flat_code, flat_components, flat_containers, flat_systems}
use noware.Model.Rows.{
  NodeRow, node_to_row, select, a_person_kind, a_system_kind, a_container_kind, a_component_kind,
  a_code_kind,
}
use noware.Model.Rows.Levels.{concat_map, concat_map-append}

abbrev pub containers_of : SoftwareSystem → List Container
containers_of s = or_empty s.containers

abbrev pub components_of : Container → List Component
components_of c = or_empty c.components

abbrev pub codes_of : Component → List CodeElement
codes_of p = or_empty p.code_elements

abbrev pub all_containers : Workspace → List Container
all_containers ws = concat_map containers_of ws.software_systems

abbrev pub all_components : Workspace → List Component
all_components ws = concat_map components_of (all_containers ws)

abbrev pub all_codes : Workspace → List CodeElement
all_codes ws = concat_map codes_of (all_components ws)

module _ (name : String) where
  abbrev pub row : Node → NodeRow
  row = node_to_row name

  abbrev pub picked : {K : Type 0} → (ElementKind → Option K) → List Node → List (K × NodeRow)
  picked pick l = select pick (map row l)

  select-append :
      {K : Type 0} (pick : ElementKind → Option K) (xs ys : List NodeRow)
      → select pick (xs ++ ys) ≡ select pick xs ++ select pick ys
  unfolding select
  select-append pick [] ys = refl
  select-append pick (r ∷ xs) ys = ground (arith, select-append pick xs ys)

  pub picked-append :
      {K : Type 0} (pick : ElementKind → Option K) (xs ys : List Node)
      → picked pick (xs ++ ys) ≡ picked pick xs ++ picked pick ys
  picked-append pick xs ys =
      ap (select pick) (map-append row xs ys) ∙ select-append pick (map row xs) (map row ys)

  -- A kind picks nothing of the levels that have others.
  module _ {K : Type 0} (pick : ElementKind → Option K) where
    pub people_none : pick person ≡ none → (l : List Person) → picked pick (map a_person l) ≡ []
    unfolding select node_to_row
    people_none h [] = refl
    people_none h (p ∷ l) = rw h (people_none h l)

    codes_none :
        ((k : CodeKind) → pick (code k) ≡ none)
        → (l : List CodeElement) → picked pick (flat_code l) ≡ []
    unfolding select node_to_row
    codes_none h [] = refl
    codes_none h (c ∷ l) = rw (h c.kind) (codes_none h l)

    components_none :
        ((k : CodeKind) → pick (code k) ≡ none)
        → pick component ≡ none
        → (l : List Component) → picked pick (flat_components l) ≡ []
    unfolding select node_to_row flat_components
    components_none h e [] = refl
    components_none h e (c ∷ l) = rw e (
        picked-append pick (flat_code (codes_of c)) (flat_components l)
        ∙ rw (codes_none h (codes_of c), components_none h e l))

    containers_none :
        ((k : CodeKind) → pick (code k) ≡ none)
        → pick component ≡ none
        → ((k : ContainerKind) → pick (container k) ≡ none)
        → (l : List Container) → picked pick (flat_containers l) ≡ []
    unfolding select node_to_row flat_containers
    containers_none h e g [] = refl
    containers_none h e g (c ∷ l) = rw (g c.kind) (
        picked-append pick (flat_components (components_of c)) (flat_containers l)
        ∙ rw (components_none h e (components_of c), containers_none h e g l))

    pub systems_none :
        ((k : CodeKind) → pick (code k) ≡ none)
        → pick component ≡ none
        → ((k : ContainerKind) → pick (container k) ≡ none)
        → pick software_system ≡ none
        → (l : List SoftwareSystem) → picked pick (flat_systems l) ≡ []
    unfolding select node_to_row flat_systems
    systems_none h e g f [] = refl
    systems_none h e g f (c ∷ l) = rw f (
        picked-append pick (flat_containers (containers_of c)) (flat_systems l)
        ∙ rw (containers_none h e g (containers_of c), systems_none h e g f l))

  abbrev pub system_entry : SoftwareSystem → Unit {0} × NodeRow
  system_entry s = (tt, row (a_system s))

  abbrev pub container_entry : Container → ContainerKind × NodeRow
  container_entry c = (c.kind, row (a_container c))

  abbrev pub component_entry : Component → Unit {0} × NodeRow
  component_entry c = (tt, row (a_component c))

  abbrev pub code_entry : CodeElement → CodeKind × NodeRow
  code_entry c = (c.kind, row (a_code c))

  pub picked_people :
      (l : List Person)
      → picked a_person_kind (map a_person l) ≡ map (λ p. (tt, row (a_person p))) l
  unfolding select node_to_row
  picked_people [] = refl
  picked_people (p ∷ l) = ap (◌∷◌ (tt, row (a_person p))) (picked_people l)

  pub picked_systems :
      (l : List SoftwareSystem) → picked a_system_kind (flat_systems l) ≡ map system_entry l
  unfolding select node_to_row flat_systems
  picked_systems [] = refl
  picked_systems (s ∷ l) = ap (◌∷◌ (system_entry s)) (
      picked-append a_system_kind (flat_containers (containers_of s)) (flat_systems l)
      ∙ rw (containers_none a_system_kind (λ k. refl) refl (λ k. refl) (containers_of s))
          (picked_systems l))

  picked_containers :
      (l : List Container) → picked a_container_kind (flat_containers l) ≡ map container_entry l
  unfolding select node_to_row flat_containers
  picked_containers [] = refl
  picked_containers (c ∷ l) = ap (◌∷◌ (container_entry c)) (
      picked-append a_container_kind (flat_components (components_of c)) (flat_containers l)
      ∙ rw (components_none a_container_kind (λ k. refl) refl (components_of c))
          (picked_containers l))

  picked_components :
      (l : List Component) → picked a_component_kind (flat_components l) ≡ map component_entry l
  unfolding select node_to_row flat_components
  picked_components [] = refl
  picked_components (c ∷ l) = ap (◌∷◌ (component_entry c)) (
      picked-append a_component_kind (flat_code (codes_of c)) (flat_components l)
      ∙ rw (codes_none a_component_kind (λ k. refl) (codes_of c)) (picked_components l))

  picked_codes : (l : List CodeElement) → picked a_code_kind (flat_code l) ≡ map code_entry l
  unfolding select node_to_row
  picked_codes [] = refl
  picked_codes (c ∷ l) = ap (◌∷◌ (code_entry c)) (picked_codes l)

  -- What is picked below and what is picked after, put together.
  joined :
      {K B : Type 0} (pick : ElementKind → Option K) (entry : B → K × NodeRow) (xs ys : List Node)
      (ls ms : List B)
      → picked pick xs ≡ map entry ls
      → picked pick ys ≡ map entry ms
      → picked pick (xs ++ ys) ≡ map entry (ls ++ ms)
  joined pick entry xs ys ls ms h k =
      picked-append pick xs ys ∙ rw (h, k) (sym (map-append entry ls ms))

  pub picked-containers_of :
      (l : List SoftwareSystem)
      → picked a_container_kind (flat_systems l) ≡ map container_entry (concat_map containers_of l)
  unfolding select node_to_row flat_systems
  picked-containers_of [] = refl
  picked-containers_of (s ∷ l) =
      joined a_container_kind container_entry (flat_containers (containers_of s)) (flat_systems l)
        (containers_of s) _ (picked_containers (containers_of s)) (picked-containers_of l)

  picked-components_of :
      (l : List Container)
      → picked a_component_kind (flat_containers l)
        ≡ map component_entry (concat_map components_of l)
  unfolding select node_to_row flat_containers
  picked-components_of [] = refl
  picked-components_of (c ∷ l) =
      joined a_component_kind component_entry (flat_components (components_of c))
        (flat_containers l) (components_of c) _ (picked_components (components_of c))
        (picked-components_of l)

  picked-codes_of :
      (l : List Component)
      → picked a_code_kind (flat_components l) ≡ map code_entry (concat_map codes_of l)
  unfolding select node_to_row flat_components
  picked-codes_of [] = refl
  picked-codes_of (c ∷ l) =
      joined a_code_kind code_entry (flat_code (codes_of c)) (flat_components l) (codes_of c) _
        (picked_codes (codes_of c)) (picked-codes_of l)

  -- Below all systems.
  pub picked_all_components :
      (l : List SoftwareSystem)
      → picked a_component_kind (flat_systems l)
        ≡ map component_entry (concat_map components_of (concat_map containers_of l))
  unfolding select node_to_row flat_systems
  picked_all_components [] = refl
  picked_all_components (s ∷ l) =
      joined a_component_kind component_entry (flat_containers (containers_of s)) (flat_systems l) _
        _ (picked-components_of (containers_of s)) (picked_all_components l)
      ∙ ap (map component_entry) (sym (concat_map-append components_of (containers_of s) _))

  picked_codes_below :
      (l : List Container)
      → picked a_code_kind (flat_containers l)
        ≡ map code_entry (concat_map codes_of (concat_map components_of l))
  unfolding select node_to_row flat_containers
  picked_codes_below [] = refl
  picked_codes_below (c ∷ l) =
      joined a_code_kind code_entry (flat_components (components_of c)) (flat_containers l) _ _
        (picked-codes_of (components_of c)) (picked_codes_below l)
      ∙ ap (map code_entry) (sym (concat_map-append codes_of (components_of c) _))

  pub picked_all_codes :
      (l : List SoftwareSystem)
      → picked a_code_kind (flat_systems l)
        ≡ map code_entry
            (concat_map codes_of (concat_map components_of (concat_map containers_of l)))
  unfolding select node_to_row flat_systems
  picked_all_codes [] = refl
  picked_all_codes (s ∷ l) =
      joined a_code_kind code_entry (flat_containers (containers_of s)) (flat_systems l) _ _
        (picked_codes_below (containers_of s)) (picked_all_codes l)
      ∙ ap (map code_entry) (
          sym (
            ap (concat_map codes_of)
              (concat_map-append components_of (containers_of s) (concat_map containers_of l))
            ∙ concat_map-append codes_of (concat_map components_of (containers_of s)) _))
