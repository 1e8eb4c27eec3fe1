-- ===== src/Cfour/Queries/Integrity.antt =====
-- When `validate` finds nothing.
use noware.Prelude.{
  String, Bool, true, false, ◌≡◌, ◌↔◌, refl, List, [], ◌∷◌, ◌++◌, All, mem, or_empty,
}
use noware.Model.{SoftwareSystem, Relationship, Workspace}
use noware.Model.Tree.Walks.{node_ids}
use noware.Cfour.Queries.{
  Problem, dangling_source, dangling_destination, unless_known, dangling, has_some, bare_systems,
  problems,
}

-- Both ends of a relationship are nodes.
abbrev pub IsAnchored : List String → Relationship → Type 0
IsAnchored ids r = (mem r.source_id ids ≡ true) × (mem r.destination_id ids ≡ true)

abbrev pub HasContainers : SoftwareSystem → Type 0
HasContainers s = has_some (or_empty s.containers) ≡ true

append-nil_iff : {A : Type 0} (xs ys : List A) → (xs ++ ys ≡ []) ↔ ((xs ≡ []) × (ys ≡ []))
append-nil_iff [] ys = (λ h. (refl, h), λ (a, b). b)
append-nil_iff (x ∷ xs) ys = (λ h. cc, λ (a, b). cc)

unless_known-nil_iff : (b : Bool) (p : Problem) → (unless_known b p ≡ []) ↔ (b ≡ true)
unless_known-nil_iff true p = (λ _. refl, λ _. refl)
unless_known-nil_iff false p = (λ h. cc, λ h. cc)

dangling-nil_iff :
    (ids : List String) (l : List Relationship) → (dangling ids l ≡ []) ↔ All (IsAnchored ids) l
unfolding dangling
dangling-nil_iff ids [] = (λ _. tt, λ _. refl)
dangling-nil_iff ids (r ∷ l) =
    let from = unless_known (mem r.source_id ids) (dangling_source r.id r.source_id) in
    let to = unless_known (mem r.destination_id ids) (dangling_destination r.id r.destination_id) in
    let three = append-nil_iff (from ++ to) (dangling ids l) in
    let two = append-nil_iff from to in
    let source = unless_known-nil_iff (mem r.source_id ids) _ in
    let destination = unless_known-nil_iff (mem r.destination_id ids) _ in
    let rest = dangling-nil_iff ids l in
    (
      λ h.
          let (ends, others) = three.0 h in
          let (a, b) = two.0 ends in ((source.0 a, destination.0 b), rest.0 others),
      λ ((a, b), others). three.1 (two.1 (source.1 a, destination.1 b), rest.1 others),
    )

bare_systems-nil_iff : (l : List SoftwareSystem) → (bare_systems l ≡ []) ↔ All HasContainers l
unfolding bare_systems
bare_systems-nil_iff [] = (λ _. tt, λ _. refl)
bare_systems-nil_iff (s ∷ l) =
    let both =
      append-nil_iff (unless_known (has_some (or_empty s.containers)) _) (bare_systems l) in
    let one = unless_known-nil_iff (has_some (or_empty s.containers)) _ in
    let rest = bare_systems-nil_iff l in
    (λ h. let (a, b) = both.0 h in (one.0 a, rest.0 b), λ (a, b). both.1 (one.1 a, rest.1 b))

-- `validate` reports nothing exactly when both ends of every relationship are nodes of the flattened
-- workspace and every system has a container.
pub problems_lem :
    (ws : Workspace)
    → (problems ws ≡ [])
      ↔ (All (IsAnchored (node_ids ws)) ws.relationships × All HasContainers ws.software_systems)
unfolding problems
problems_lem ws =
    let both =
      append-nil_iff (dangling (node_ids ws) ws.relationships) (bare_systems ws.software_systems) in
    let ends = dangling-nil_iff (node_ids ws) ws.relationships in
    let systems = bare_systems-nil_iff ws.software_systems in
    (
      λ h. let (a, b) = both.0 h in (ends.0 a, systems.0 b),
      λ (a, b). both.1 (ends.1 a, systems.1 b),
    )
