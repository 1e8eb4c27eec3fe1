-- ===== src/Model/Rows/RoundTrip.antt =====
-- `rowsToWorkspace` after `exportRows`.
use noware.Prelude.{
  String, Bool, true, false, ◌≡◌, refl, ap, ◌∙◌, Option, none, some, List, [], ◌∷◌, map, All, mem,
  nat_eq,
}
use mathlib.Core.List.{append-nil}
use noware.Model.{
  ElementKind, person, CodeKind, ContainerKind, Person, SoftwareSystem, Container, Component, Node,
  a_person, Relationship, Workspace,
}
use noware.Model.Tree.{flat_systems, flatten_workspace}
use noware.Model.Rows.{
  NodeRow, node_to_row, relationship_to_row, export_rows, a_person_kind, a_system_kind,
  a_container_kind, a_component_kind, a_code_kind, row_ids, has_parent, adopted, mark, person_from,
  code_from, component_from, container_from, system_from, relationship_from, systems_from, assemble,
  rows_to_workspace, flag,
}
use noware.Model.Rows.Levels.{
  map-cong, All-map, map_id, map-map, filter-map, filter_all, IsDistinct, NamesParent, all_adopted,
  level_lem,
}
use noware.Model.Rows.Picks.{
  containers_of, components_of, codes_of, all_containers, all_components, all_codes, row, picked,
  people_none, systems_none, system_entry, container_entry, component_entry, code_entry,
  picked-append, picked_people, picked_systems, picked-containers_of, picked_all_components,
  picked_all_codes,
}

-- Elements of a level have distinct ids, none of them empty, and name their parents.
pub record IsExportable (ws : Workspace) : Type 0 where
  pub systems : IsDistinct (map (λ s. s.id) ws.software_systems)
  pub containers : IsDistinct (map (λ c. c.id) (all_containers ws))
  pub components : IsDistinct (map (λ c. c.id) (all_components ws))
  pub named_systems : mem "" (map (λ s. s.id) ws.software_systems) ≡ false
  pub named_containers : mem "" (map (λ c. c.id) (all_containers ws)) ≡ false
  pub named_components : mem "" (map (λ c. c.id) (all_components ws)) ≡ false
  pub in_systems :
      All (NamesParent (λ s. s.id) containers_of (λ c. c.system_id)) ws.software_systems
  pub in_containers :
      All (NamesParent (λ c. c.id) components_of (λ c. c.container_id)) (all_containers ws)
  pub in_components :
      All (NamesParent (λ c. c.id) codes_of (λ c. c.component_id)) (all_components ws)

-- The same tree with every list of children there.
abbrev pub full_component : Component → Component
full_component c = record c { code_elements = some (codes_of c) }

abbrev pub full_container : Container → Container
full_container c = record c { components = some (map full_component (components_of c)) }

abbrev pub full_system : SoftwareSystem → SoftwareSystem
full_system s = record s { containers = some (map full_container (containers_of s)) }

mark-map :
    {A K : Type 0} (f : A → K × NodeRow) (l : List A)
    → IsDistinct (map (λ x. (f x).1.id) l)
    → mark (map f l) ≡ map (λ x. (true, (f x).0, (f x).1)) l
unfolding mark
mark-map f [] d = refl
mark-map f (x ∷ l) d =
    rw (map-map (λ e. e.1.id) f l, d.0) (ap (◌∷◌ (true, (f x).0, (f x).1)) (mark-map f l d.1))

adopted-map :
    {A K : Type 0} (ids : List String) (f : A → K × NodeRow) (l : List A)
    → All (λ x. has_parent ids (f x).1 ≡ true) l
    → adopted ids (map f l) ≡ map f l
unfolding adopted
adopted-map ids f l h =
    filter-map (λ e. has_parent ids e.1) f l
    ∙ ap (map f) (filter_all (λ x. has_parent ids (f x).1) l h)

flag_lem : (o : Option Bool) → (elim (flag o) [ none ↦ none | some n ↦ some (nat_eq n 1) ]) ≡ o
flag_lem none = refl
flag_lem (some true) = refl
flag_lem (some false) = refl

person_lem : (name : String) (p : Person) → person_from (tt, row name (a_person p)) ≡ p
unfolding person_from node_to_row
person_lem name p = ap (λ e. record p { external = e }) (flag_lem p.external)

relationship_lem :
    (name : String) (r : Relationship) → relationship_from (relationship_to_row name r) ≡ r
unfolding relationship_from relationship_to_row
relationship_lem name r = refl

All_of : {A : Type 0} (P : A → Type 0) (l : List A) → ((x : A) → P x) → All P l
All_of P [] h = tt
All_of P (x ∷ l) h = (h x, All_of P l h)

module _ (name : String) (ws : Workspace) (h : IsExportable ws) where
  code_rows : List (CodeKind × NodeRow)
  code_rows = map (code_entry name) (all_codes ws)

  marked : {A K : Type 0} → (A → K × NodeRow) → A → Bool × K × NodeRow
  marked f x = (true, (f x).0, (f x).1)

  component_rows : List (Bool × Unit {0} × NodeRow)
  component_rows = map (marked (component_entry name)) (all_components ws)

  container_rows : List (Bool × ContainerKind × NodeRow)
  container_rows = map (marked (container_entry name)) (all_containers ws)

  -- The nodes' rows of the kinds.
  nodes : List Node
  nodes = (flatten_workspace ws).nodes

  people_then :
      {K : Type 0} (pick : ElementKind → Option K)
      → pick person ≡ none
      → picked name pick nodes ≡ picked name pick (flat_systems ws.software_systems)
  unfolding nodes flatten_workspace
  people_then pick e =
      picked-append name pick (map a_person ws.people) (flat_systems ws.software_systems)
      ∙ rw (people_none name pick e ws.people)

  system_ids :
      row_ids (map (system_entry name) ws.software_systems) ≡ map (λ s. s.id) ws.software_systems
  unfolding node_to_row
  system_ids = map-map (λ e. e.1.id) (system_entry name) ws.software_systems

  container_ids :
      row_ids (map (container_entry name) (all_containers ws)) ≡ map (λ c. c.id) (all_containers ws)
  unfolding node_to_row
  container_ids = map-map (λ e. e.1.id) (container_entry name) (all_containers ws)

  component_ids :
      row_ids (map (component_entry name) (all_components ws)) ≡ map (λ c. c.id) (all_components ws)
  unfolding node_to_row
  component_ids = map-map (λ e. e.1.id) (component_entry name) (all_components ws)

  adopted_containers :
      adopted (map (λ s. s.id) ws.software_systems) (map (container_entry name) (all_containers ws))
      ≡ map (container_entry name) (all_containers ws)
  unfolding node_to_row
  adopted_containers = adopted-map _ (container_entry name) (all_containers ws) (
      all_adopted (λ s. s.id) containers_of (λ c. c.system_id) ws.software_systems h.named_systems
        h.in_systems)

  adopted_components :
      adopted (map (λ c. c.id) (all_containers ws)) (map (component_entry name) (all_components ws))
      ≡ map (component_entry name) (all_components ws)
  unfolding node_to_row
  adopted_components = adopted-map _ (component_entry name) (all_components ws) (
      all_adopted (λ c. c.id) components_of (λ c. c.container_id) (all_containers ws)
        h.named_containers h.in_containers)

  adopted_codes :
      adopted (map (λ c. c.id) (all_components ws)) (map (code_entry name) (all_codes ws))
      ≡ map (code_entry name) (all_codes ws)
  unfolding node_to_row
  adopted_codes = adopted-map _ (code_entry name) (all_codes ws) (
      all_adopted (λ c. c.id) codes_of (λ c. c.component_id) (all_components ws) h.named_components
        h.in_components)

  codes_lem : All (λ c. code_from (code_entry name c) ≡ c) (all_codes ws)
  unfolding code_from node_to_row
  codes_lem = All_of _ (all_codes ws) (λ c. refl)

  components_lem :
      All
        (λ c. component_from code_rows (marked (component_entry name) c) ≡ full_component c)
        (all_components ws)
  unfolding component_from node_to_row code_rows marked
  components_lem =
      All-map _ _ (all_components ws)
        (λ c e.
          ap (λ l. record (full_component c) { code_elements = some l })
            (e ∙ map_id (λ x. x) (codes_of c) (All_of _ (codes_of c) (λ x. refl))))
        (level_lem (λ c. c.id) codes_of (λ c. c.component_id) (code_entry name) (λ e. e.1.parent_id)
          code_from (λ c. c) (all_components ws) (λ c. refl) h.components h.in_components codes_lem)

  containers_lem :
      All
        (λ c.
          container_from (component_from code_rows) component_rows (marked (container_entry name) c)
          ≡ full_container c)
        (all_containers ws)
  unfolding container_from node_to_row component_rows marked
  containers_lem =
      All-map _ _ (all_containers ws)
        (λ c e. ap (λ l. record (full_container c) { components = some l }) e)
        (level_lem (λ c. c.id) components_of (λ c. c.container_id) (marked (component_entry name))
          (λ e. e.2.parent_id) (component_from code_rows) full_component (all_containers ws)
          (λ c. refl) h.containers h.in_containers components_lem)

  systems_lem :
      All
        (λ s.
          system_from
            (container_from (component_from code_rows) component_rows)
            container_rows
            (marked (system_entry name) s)
          ≡ full_system s)
        ws.software_systems
  unfolding system_from node_to_row container_rows marked
  systems_lem =
      All-map _ _ ws.software_systems
        (λ s e i. record (full_system s) {
          external = flag_lem s.external i;
          containers = some (e i);
        })
        (level_lem (λ s. s.id) containers_of (λ c. c.system_id) (marked (container_entry name))
          (λ e. e.2.parent_id) (container_from (component_from code_rows) component_rows)
          full_container ws.software_systems (λ c. refl) h.systems h.in_systems containers_lem)

  assembled :
      assemble
        (map (system_entry name) ws.software_systems)
        (map (container_entry name) (all_containers ws))
        (map (component_entry name) (all_components ws))
        (map (code_entry name) (all_codes ws))
      ≡ map full_system ws.software_systems
  unfolding assemble code_rows container_rows component_rows marked node_to_row
  assembled =
      rw
        (
          mark-map (system_entry name) ws.software_systems h.systems,
          mark-map (container_entry name) (all_containers ws) h.containers,
          mark-map (component_entry name) (all_components ws) h.components,
        )
        (map-map _ _ ws.software_systems ∙ map-cong _ _ ws.software_systems systems_lem)

  systems_again : systems_from (map (row name) nodes) ≡ map full_system ws.software_systems
  unfolding systems_from
  systems_again =
      rw
        (
          people_then a_system_kind refl,
          picked_systems name ws.software_systems,
          people_then a_container_kind refl,
          picked-containers_of name ws.software_systems,
          people_then a_component_kind refl,
          picked_all_components name ws.software_systems,
          people_then a_code_kind refl,
          picked_all_codes name ws.software_systems,
          system_ids,
          adopted_containers,
          container_ids,
          adopted_components,
          component_ids,
          adopted_codes,
        )
        assembled

  people_again : map person_from (picked name a_person_kind nodes) ≡ ws.people
  unfolding nodes flatten_workspace
  people_again =
      ap (map person_from) (
        picked-append name a_person_kind (map a_person ws.people) (flat_systems ws.software_systems)
        ∙ rw
            (
              picked_people name ws.people,
              systems_none name a_person_kind (λ k. refl) refl (λ k. refl) refl ws.software_systems,
            )
            (append-nil _))
      ∙ map-map person_from (λ p. (tt, row name (a_person p))) ws.people
      ∙ map_id _ ws.people (All_of _ ws.people (person_lem name))

  relationships_again :
      map relationship_from (map (relationship_to_row name) ws.relationships) ≡ ws.relationships
  relationships_again =
      map-map relationship_from (relationship_to_row name) ws.relationships
      ∙ map_id _ ws.relationships (All_of _ ws.relationships (relationship_lem name))

  -- A workspace whose levels have distinct ids, none of them empty, and whose elements name their
  -- parents, comes back from its rows with the same people, relationships and tree, where the lists
  -- of children that were missing are empty, and without views.
  pub rows_to_workspace-export_rows :
      (description : Option String)
      → rows_to_workspace (export_rows name ws) ws.name description ≡ record ws {
        description = description;
        software_systems = map full_system ws.software_systems;
        views = none;
      }
  unfolding rows_to_workspace export_rows nodes
  rows_to_workspace-export_rows description i = record ws {
    description = description;
    people = people_again i;
    software_systems = systems_again i;
    relationships = relationships_again i;
    views = none;
  }
