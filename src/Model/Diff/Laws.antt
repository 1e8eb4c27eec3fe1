-- ===== src/Model/Diff/Laws.antt =====
-- What a diff reports.
use noware.Prelude.{
  String, Bool, not, ◌&&◌, ◌≡◌, refl, Option, List, [], ◌∷◌, map, arith, eq_iff, Map, get, has,
  set_all, mem, no_entries, IsKeyed, Finds, Distinct-Finds, set_all-Distinct, set_all-IsKeyed,
  has-cons, has-set_all,
}
use noware.Model.{
  Node, Relationship, Workspace, CodeElement, CodeMember, a_code, id_of, element_of, kind_of,
}
use noware.Model.{technology_of, external_of}
use noware.Model.Collab.{Key, DiffResult}
use noware.Model.Tree.Walks.{node_ids}
use noware.Model.Tree.{FlatModel, flatten_workspace, build_node_map}
use noware.Model.Compare.{node_changes, relationship_changes}
use noware.Model.Compare.Refl.{node_changes_self, relationship_changes_self}
use noware.Model.Diff.{added_of, modified_of, diff_maps, relationship_map, diff_workspaces}

module _ {T : Type 0} (id : T → String) where
  mem-added_of :
      (k : String) (before after : Map T)
      → IsKeyed id after
      → mem k (map id (added_of before after)) ≡ (has k after && not (has k before))
  unfolding added_of mem
  mem-added_of k before [] h = unfold has get in refl
  mem-added_of k before ((j, x) ∷ after) h =
      ground (arith, mem-added_of k before after h.1, has-cons k j x after, eq_iff j k)

module _ {T : Type 0} (changes_of : T → T → List Key) (same : (x : T) → changes_of x x ≡ []) where
  added_of_self : (m l : Map T) → Finds m l → added_of m l ≡ []
  unfolding added_of has
  added_of_self m [] h = refl
  added_of_self m ((k, x) ∷ l) h = rw h.0 (added_of_self m l h.1)

  modified_of_self : (m l : Map T) → Finds m l → modified_of changes_of m l ≡ []
  unfolding modified_of
  modified_of_self m [] h = refl
  modified_of_self m ((k, x) ∷ l) h = rw (h.0, same x) (modified_of_self m l h.1)

abbrev pub no_changes : (T : Type 0) → DiffResult T
no_changes T = record { added = []; removed = []; modified = [] }

diff_maps_self :
    {T : Type 0} (changes_of : T → T → List Key)
    → ((x : T) → changes_of x x ≡ [])
    → (m : Map T) → Finds m m
    → diff_maps changes_of m m ≡ no_changes T
unfolding diff_maps
diff_maps_self changes_of same m h =
    rw (added_of_self changes_of same m m h, modified_of_self changes_of same m m h)

node_map-Finds : (flat : FlatModel) → Finds (build_node_map flat) (build_node_map flat)
unfolding build_node_map
node_map-Finds flat = Distinct-Finds _ (set_all-Distinct id_of (no_entries Node) flat.nodes tt)

relationship_map-Finds : (flat : FlatModel) → Finds (relationship_map flat) (relationship_map flat)
unfolding relationship_map
relationship_map-Finds flat =
    Distinct-Finds _ (set_all-Distinct _ (no_entries Relationship) flat.relationships tt)

-- A workspace does not differ from itself: nothing is added, removed or modified.
pub diff_workspaces_self :
    (ws : Workspace)
    → diff_workspaces ws ws
      ≡ record { nodes = no_changes Node; relationships = no_changes Relationship }
unfolding diff_workspaces
diff_workspaces_self ws =
    let flat = flatten_workspace ws in
    rw (
      diff_maps_self node_changes node_changes_self _ (node_map-Finds flat),
      diff_maps_self relationship_changes relationship_changes_self _ (relationship_map-Finds flat),
    )

-- The ids of a workspace's nodes, and of its relationships.
abbrev pub relationship_ids : Workspace → List String
relationship_ids ws = map (λ r. r.id) (flatten_workspace ws).relationships

abbrev pub only_in : List String → List String → String → Bool
only_in xs ys k = mem k xs && not (mem k ys)

abbrev pub keyed : {T : Type 0} → (T → String) → List T → Map T
keyed f xs = set_all f [] xs

mem-added_set_all :
    {T : Type 0} (f : T → String) (k : String) (xs ys : List T)
    → mem k (map f (added_of (keyed f xs) (keyed f ys))) ≡ only_in (map f ys) (map f xs) k
unfolding has get
mem-added_set_all {T} f k xs ys = rw (
  mem-added_of f k (keyed f xs) (keyed f ys) (set_all-IsKeyed f (no_entries T) ys tt),
  has-set_all f k (no_entries T) xs,
  has-set_all f k (no_entries T) ys,
)

-- Exactly the ids that only the later workspace has are reported as added, and exactly those that
-- only the earlier one has as removed, for nodes and for relationships.
pub diff_workspaces-ids :
    (before after : Workspace) (k : String)
    → (mem k (map id_of (diff_workspaces before after).nodes.added)
        ≡ only_in (node_ids after) (node_ids before) k)
      × (mem k (map id_of (diff_workspaces before after).nodes.removed)
          ≡ only_in (node_ids before) (node_ids after) k)
      × (mem k (map (λ r. r.id) (diff_workspaces before after).relationships.added)
          ≡ only_in (relationship_ids after) (relationship_ids before) k)
      × (mem k (map (λ r. r.id) (diff_workspaces before after).relationships.removed)
          ≡ only_in (relationship_ids before) (relationship_ids after) k)
unfolding diff_workspaces diff_maps build_node_map relationship_map
diff_workspaces-ids before after k =
    let a = flatten_workspace before in
    let b = flatten_workspace after in
    (
      mem-added_set_all id_of k a.nodes b.nodes,
      mem-added_set_all id_of k b.nodes a.nodes,
      mem-added_set_all (λ (r : Relationship). r.id) k a.relationships b.relationships,
      mem-added_set_all (λ (r : Relationship). r.id) k b.relationships a.relationships,
    )

-- A code element that differs in its members alone is not reported as changed.
pub node_changes-members :
    (c : CodeElement) (members : Option (List CodeMember))
    → node_changes (a_code c) (a_code (record c { members = members })) ≡ []
unfolding node_changes element_of kind_of technology_of external_of
node_changes-members c members = node_changes_self (a_code c)
