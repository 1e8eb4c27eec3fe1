-- ===== src/Cfour/Removal.antt =====
-- Removals of `BaseCfour`: `removeElement` with its cascade, and `removeRelationship`.
use noware.Prelude.{String, not, Option, none, some, List, [], ◌∷◌, map, ◌==◌, filter, from_list}
use noware.Exec.{◌>>=◌, ◌>>◌, modify}
use noware.Model.{Node, Relationship, Workspace, id_of, kind_of}
use noware.Model.Tree.{Found, find_node_with_ancestry, collect_descendants}
use noware.Model.Prune.{prune, touches}
use noware.Cfour.{M, Op, Event, of_element, of_relationship, Removed, bare}
use noware.Cfour.Events.{notify}
use noware.Cfour.Workspaces.{get_workspace}
use noware.Cfour.Claims.{assert_claim_allows, purge_removed_from_claims, element, relationship}
use noware.Cfour.Mutators.{store}

unfoldable pub descendants_of : Option Found → List Node
descendants_of none = []
descendants_of (some found) = collect_descendants found.node

-- `new Set([id, ...descendants.map((d) => d.id)])`
unfoldable pub removal_set : Workspace → String → List String
removal_set ws id = from_list [] (id ∷ map id_of (descendants_of (find_node_with_ancestry ws id)))

abbrev removed_part : List Node → List Relationship → Option Removed
removed_part [] [] = none
removed_part nodes rels = some (record { nodes = nodes; relationships = rels })

abbrev found_event : Option Found → Event → Event
found_event none e = e
found_event (some f) e = record e {
  element_kind = some (of_element (kind_of f.node));
  path = some f.path;
}

unfoldable pub remove_element : String → String → String → M Unit
remove_element id name editor = do
  ws ← get_workspace name
  assert_claim_allows id editor name element
  let found = find_node_with_ancestry ws id
  let removed = removal_set ws id
  let rels = filter (touches removed) ws.relationships
  store name (prune removed ws)
  purge_removed_from_claims removed (from_list [] (map (λ r. r.id) rels)) name
  modify (
      notify (
        found_event found (record (bare Op.remove name) {
          element_id = some id;
          removed_descendants = removed_part (descendants_of found) rels;
        })))

unfoldable pub remove_relationship : String → String → String → M Unit
remove_relationship id name editor = do
  ws ← get_workspace name
  assert_claim_allows id editor name relationship
  store name (record ws { relationships = filter (λ r. not (r.id == id)) ws.relationships })
  modify (
      notify (record (bare Op.remove name) {
        element_id = some id;
        element_kind = some of_relationship;
        path = some [];
      }))
