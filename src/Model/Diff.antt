-- ===== src/Model/Diff.antt =====
-- `diffWorkspaces` of packages/cfour/src/index.ts.
pub mod Laws
use noware.Prelude.{
  String, Bool, Option, none, some, List, [], ◌∷◌, map, if◌then◌else◌, Map, get, has, set_all,
  no_entries,
}
use noware.Model.{Node, Relationship, Workspace}
use noware.Model.Collab.{Key, Modified, DiffResult, WorkspaceDiff}
use noware.Model.Tree.{FlatModel, flatten_workspace, build_node_map}
use noware.Model.Compare.{node_changes, relationship_changes}

-- The loops over the maps of both sides, which are the same for nodes and relationships.
unfoldable pub added_of : {T : Type 0} → Map T → Map T → List T
unfolding has
added_of before [] = []
added_of before ((id, x) ∷ after) =
    let rest = added_of before after in if has id before then rest else x ∷ rest

module _ {T : Type 0} (changes_of : T → T → List Key) where
  report : String → T → T → List Key → List (Modified T) → List (Modified T)
  report id prev x [] rest = rest
  report id prev x (k ∷ ks) rest =
      record { id = id; before = prev; after = x; changes = k ∷ ks } ∷ rest

  report_from : Option T → String → T → List (Modified T) → List (Modified T)
  unfolding report
  report_from none id x rest = rest
  report_from (some prev) id x rest = report id prev x (changes_of prev x) rest

  unfoldable pub modified_of : Map T → Map T → List (Modified T)
  unfolding get report_from
  modified_of before [] = []
  modified_of before ((id, x) ∷ after) = report_from (get id before) id x (modified_of before after)

  unfoldable pub diff_maps : Map T → Map T → DiffResult T
  unfolding added_of modified_of
  diff_maps before after = record {
    added = added_of before after;
    removed = added_of after before;
    modified = modified_of before after;
  }

unfoldable pub relationship_map : FlatModel → Map Relationship
unfolding set_all
relationship_map flat = set_all (λ r. r.id) (no_entries Relationship) flat.relationships

unfoldable pub diff_workspaces : Workspace → Workspace → WorkspaceDiff
unfolding diff_maps flatten_workspace build_node_map relationship_map node_changes
    relationship_changes
diff_workspaces before after =
    let flat_before = flatten_workspace before in
    let flat_after = flatten_workspace after in
    record {
      nodes = diff_maps node_changes (build_node_map flat_before) (build_node_map flat_after);
      relationships =
          diff_maps relationship_changes (relationship_map flat_before)
            (relationship_map flat_after);
    }
