-- ===== src/Cfour/Merge/Apply.antt =====
-- `applyMerge` and `_applyNodeAddition` of `BaseCfour`. The elements of a plan are values here; in
-- the program a plan of `planMerge` shares them, and their children, with the branch.
use noware.Prelude.{
  ℕ, String, Bool, true, false, some, List, [], ◌∷◌, ◌++◌, if◌then◌else◌, leb, get_or, is_some,
  find, ◌==◌,
}
use noware.Exec.{◌>>=◌, ◌>>◌, pure, throw, modify, for_each}
use noware.Model.{
  ElementKind, person, software_system, component, container, code, Node, a_person, a_system,
  a_container, a_component, a_code, Relationship, element_of, kind_of, id_of, external_of,
  technology_of,
}
use noware.Model.Collab.{Key, Modified, WorkspaceDiff, MergePlan}
use noware.Model.Compare.{
  system_id_of, container_id_of, component_id_of, behavior_of, stereotype_of, namespace_of,
}
use noware.Model.Patch.{Assign, RelationshipAssign}
use noware.Model.Tree.{find_node_with_ancestry}
use noware.Cfour.{M, Op, Payload, bare, merge_conflicts, register_editor}
use noware.Cfour.Events.{notify}
use noware.Cfour.Batch.{batch}
use noware.Cfour.Workspaces.{get_workspace}
use noware.Cfour.Mutators.{
  add_person, add_software_system, add_container, add_component, add_code_element, add_relationship,
  update_element, update_relationship,
}
use noware.Cfour.Removal.{remove_element, remove_relationship}
use noware.Cfour.Merge.{with_resolutions}

-- KIND_DEPTH
unfoldable pub kind_depth : ElementKind → ℕ
kind_depth person = 0
kind_depth software_system = 0
kind_depth (container k) = 1
kind_depth component = 2
kind_depth (code k) = 3

-- `sort((a, b) => KIND_DEPTH[a.kind] - KIND_DEPTH[b.kind])`, which is stable.
unfoldable pub insert_by_depth : Node → List Node → List Node
unfolding kind_depth kind_of
insert_by_depth n [] = n ∷ []
insert_by_depth n (m ∷ rest) =
    if leb (kind_depth (kind_of n)) (kind_depth (kind_of m))
    then n ∷ m ∷ rest
    else m ∷ insert_by_depth n rest

unfoldable pub sort_by_depth : List Node → List Node
unfolding insert_by_depth
sort_by_depth [] = []
sort_by_depth (n ∷ rest) = insert_by_depth n (sort_by_depth rest)

-- `_applyNodeAddition`
unfoldable pub apply_node_addition : Node → String → M Unit
apply_node_addition (a_person p) name = add_person p name
apply_node_addition (a_system s) name = add_software_system s name
apply_node_addition (a_container c) name = add_container c (some c.kind) name register_editor
apply_node_addition (a_component c) name = add_component c name register_editor
apply_node_addition (a_code e) name = add_code_element e (some e.kind) name register_editor

-- `patch[key] = mod.after[key]`, where the model's elements and relationships have the key.
unfoldable pub assign_key : Node → Key → List Assign
unfolding element_of kind_of external_of technology_of
assign_key n Key.key_id = Assign.id (id_of n) ∷ []
assign_key n Key.key_name = Assign.name (element_of n).name ∷ []
assign_key n Key.key_kind = Assign.kind (kind_of n) ∷ []
assign_key n Key.key_description = Assign.description (element_of n).description ∷ []
assign_key n Key.key_owner = Assign.owner (element_of n).owner ∷ []
assign_key n Key.key_icon = Assign.icon (element_of n).icon ∷ []
assign_key n Key.key_tags = Assign.tags (element_of n).tags ∷ []
assign_key n Key.key_metadata = Assign.metadata (element_of n).metadata ∷ []
assign_key n Key.key_external = Assign.external (external_of n) ∷ []
assign_key n Key.key_system_id = Assign.system_id (system_id_of n) ∷ []
assign_key n Key.key_container_id = Assign.container_id (container_id_of n) ∷ []
assign_key n Key.key_component_id = Assign.component_id (component_id_of n) ∷ []
assign_key n Key.key_technology = Assign.technology (technology_of n) ∷ []
assign_key n Key.key_behavior = Assign.behavior (behavior_of n) ∷ []
assign_key n Key.key_stereotype = Assign.stereotype (stereotype_of n) ∷ []
assign_key n Key.key_namespace = Assign.namespace (namespace_of n) ∷ []
assign_key n _ = []

unfoldable pub assign_relationship_key : Relationship → Key → List RelationshipAssign
assign_relationship_key r Key.key_id = RelationshipAssign.id r.id ∷ []
assign_relationship_key r Key.key_source_id = RelationshipAssign.source_id r.source_id ∷ []
assign_relationship_key r Key.key_destination_id =
    RelationshipAssign.destination_id r.destination_id ∷ []
assign_relationship_key r Key.key_description = RelationshipAssign.description r.description ∷ []
assign_relationship_key r Key.key_technology = RelationshipAssign.technology r.technology ∷ []
assign_relationship_key r Key.key_interaction_style =
    RelationshipAssign.interaction_style r.interaction_style ∷ []
assign_relationship_key r Key.key_code_relationship_kind =
    RelationshipAssign.code_relationship_kind r.code_relationship_kind ∷ []
assign_relationship_key r Key.key_tags = RelationshipAssign.tags r.tags ∷ []
assign_relationship_key r _ = []

unfoldable pub patch_of : {T A : Type 0} → (T → Key → List A) → T → List Key → List A
patch_of assigned x [] = []
patch_of assigned x (k ∷ ks) = assigned x k ++ patch_of assigned x ks

abbrev pub modify_node : String → Modified Node → M Unit
modify_node into m =
    update_element m.id (patch_of assign_key m.after m.changes) into register_editor

abbrev pub modify_relationship : String → Modified Relationship → M Unit
modify_relationship into m =
    update_relationship m.id (patch_of assign_relationship_key m.after m.changes) into
      register_editor

abbrev pub if_so : Bool → M Unit → M Unit
if_so true m = m
if_so false m = pure tt

unfoldable pub remove_found : String → Node → M Unit
remove_found into n = do
  ws ← get_workspace into
  if_so (is_some (find_node_with_ancestry ws (id_of n)))
      (remove_element (id_of n) into register_editor)

unfoldable pub remove_present : String → Relationship → M Unit
remove_present into r = do
  ws ← get_workspace into
  if_so (is_some (find (λ (x : Relationship). x.id == r.id) ws.relationships))
      (remove_relationship r.id into register_editor)

-- The body of the batch.
unfoldable pub apply_changes : MergePlan → WorkspaceDiff → String → M Unit
unfolding sort_by_depth apply_node_addition patch_of assign_key assign_relationship_key remove_found
    remove_present
apply_changes plan d into = do
  for_each (sort_by_depth d.nodes.added) (λ n. apply_node_addition n into)
  for_each d.relationships.added (λ r. add_relationship r into register_editor)
  for_each d.nodes.modified (modify_node into)
  for_each d.relationships.modified (modify_relationship into)
  for_each d.nodes.removed (remove_found into)
  for_each d.relationships.removed (remove_present into)
  modify (notify (record (bare Op.merge into) { payload = some (Payload.a_plan plan) }))

abbrev pub apply_checked : MergePlan → String → List String → M Unit
apply_checked plan into [] =
    batch
      (apply_changes plan (with_resolutions plan.branch_changes (get_or plan.resolutions [])) into)
apply_checked plan into (c ∷ cs) = throw (merge_conflicts into (c ∷ cs))

unfoldable pub apply_merge : MergePlan → String → M Unit
unfolding apply_changes
apply_merge plan into = apply_checked plan into plan.conflicts
