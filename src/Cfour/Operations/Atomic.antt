-- ===== src/Cfour/Operations/Atomic.antt =====
-- `applyOperations` is atomic on its workspace, and so are its operations inside a batch.
use noware.Prelude.{String, Option, none, some, List, ◌≡◌}
use noware.Exec.{throws, modify, for_each, ◌>>=◌}
use noware.Exec.Keeps.{
  Keeps, Keeps-enter, Keeps-bind, Keeps-pure, Keeps-modify, Keeps-throw, Keeps-throw_if,
  Keeps-for_each, keeps_rules,
}
use noware.Model.{
  ContainerKind, CodeKind, Person, SoftwareSystem, Container, Component, CodeElement, Relationship,
  Workspace, Node,
}
use noware.Model.Tree.{Found}
use noware.Model.Patch.{Assign, RelationshipAssign}
use noware.Cfour.{State, Event, Error, M}
use noware.Cfour.Events.{notify}
use noware.Cfour.Workspaces.{get_workspace}
use noware.Cfour.Batch.Rollback.{
  Tracks, Inside, Tracks-same, Inside-same, notify-Tracks, notify-Inside, put_workspace-Inside,
  get_workspace-Inside, IsSettled, RolledBack, batch-RolledBack,
}
use noware.Cfour.Claims.{Guarded, assert_claim_allows, absorb_created_element, get_claim_for}
use noware.Cfour.Claims.{purge_removed_from_claims}
use noware.Cfour.Claims.Stable.{
  Stable, get_claim_for-Keeps, assert_claim_allows-Keeps, notify-Keeps,
  absorb_created_element-Keeps, purge_removed_from_claims-Keeps,
}
use noware.Cfour.Mutators.{
  store, place, add_person, add_software_system, add_container, place_component, add_component,
  place_code_in, place_code, add_code_element, add_relationship, add_relationship_raw, throw_some,
  update_found, update_element, update_found_relationship, update_relationship,
}
use noware.Cfour.Removal.{remove_element, remove_relationship}
use noware.Cfour.Operations.{
  Operation, adds_person, adds_software_system, adds_container, adds_component, adds_code_element,
  adds_relationship, updates_element, updates_relationship, removes_element, removes_relationship,
  apply_operation, apply_operations,
}

module _ (s0 : State) where
  Tracks-Stable : Stable (Tracks s0)
  Tracks-Stable = record {
    same = λ s t e h. Tracks-same e h;
    notified = λ e s h. notify-Tracks e h;
  }

  pub notified-Keeps : (e : Event) → Keeps {E = Error} (Tracks s0) (modify (notify e))
  notified-Keeps = notify-Keeps Tracks-Stable

  module _ (name : String) where
    Inside-Stable : Stable (Inside s0 name)
    Inside-Stable = record {
      same = λ s t e h. Inside-same e h;
      notified = λ e s h. notify-Inside e h;
    }

    store-Keeps : (ws : Workspace) → Keeps (Inside s0 name) (store name ws)
    store-Keeps ws = Keeps-modify _ (λ s h. put_workspace-Inside name ws h)

    -- `getWorkspace` first, and then whatever keeps the snapshot.
    enter :
        (f : Workspace → M Unit)
        → ((ws : Workspace) → Keeps (Inside s0 name) (f ws))
        → Keeps (Tracks s0) (get_workspace name >>= f)
    enter f h =
        Keeps-enter (get_workspace name) f (λ s t. get_workspace-Inside name t) h (λ s i. i.tracks)

    says : (e : Event) → Keeps {E = Error} (Inside s0 name) (modify (notify e))
    says = notify-Keeps Inside-Stable

    assert_allows :
        (id editor : String) (kind : Guarded)
        → Keeps (Inside s0 name) (assert_claim_allows id editor name kind)
    assert_allows id editor kind = assert_claim_allows-Keeps Inside-Stable id editor name kind

    absorbs :
        (parent created editor : String)
        → Keeps (Inside s0 name) (absorb_created_element parent created editor name)
    absorbs parent created editor =
        absorb_created_element-Keeps Inside-Stable parent created editor name

    purges :
        (ids rel_ids : List String)
        → Keeps (Inside s0 name) (purge_removed_from_claims ids rel_ids name)
    purges ids rel_ids = purge_removed_from_claims-Keeps Inside-Stable ids rel_ids name

    holder_of : (id : String) → Keeps (Tracks s0) (get_claim_for id name)
    holder_of id = get_claim_for-Keeps Tracks-Stable id name

    ruleset inside = (keeps_rules, store-Keeps, says, assert_allows, absorbs, purges)

    place-Keeps :
        (parent editor : String) (path : List String) (n : Node) (ws : Workspace)
        → Keeps (Inside s0 name) (place parent editor name path n ws)
    place-Keeps parent editor path n ws = search inside

    pub add_person-Keeps : (p : Person) → Keeps (Tracks s0) (add_person p name)
    unfolding add_person
    add_person-Keeps p = enter _ λ ws. search inside

    pub add_software_system-Keeps :
        (s : SoftwareSystem) → Keeps (Tracks s0) (add_software_system s name)
    unfolding add_software_system
    add_software_system-Keeps s = enter _ λ ws. search inside

    pub add_container-Keeps :
        (c : Container) (kind : Option ContainerKind) (editor : String)
        → Keeps (Tracks s0) (add_container c kind name editor)
    unfolding add_container
    add_container-Keeps c kind editor =
        enter _ λ ws. Keeps-bind _ _ (Keeps-throw_if _ _) (λ _. place-Keeps _ _ _ _ _)

    place_component-Keeps :
        (c : Component) (editor : String) (ws : Workspace) (s : Option SoftwareSystem)
        → Keeps (Inside s0 name) (place_component c name editor ws s)
    unfolding place_component
    place_component-Keeps c editor ws none = Keeps-throw _
    place_component-Keeps c editor ws (some s) = place-Keeps _ _ _ _ _

    pub add_component-Keeps :
        (c : Component) (editor : String) → Keeps (Tracks s0) (add_component c name editor)
    unfolding add_component
    add_component-Keeps c editor = enter _ λ ws. place_component-Keeps c editor ws _

    place_code_in-Keeps :
        (e : CodeElement) (editor : String) (ws : Workspace) (s : SoftwareSystem)
        (c : Option Container)
        → Keeps (Inside s0 name) (place_code_in e name editor ws s c)
    unfolding place_code_in
    place_code_in-Keeps e editor ws s none = Keeps-throw _
    place_code_in-Keeps e editor ws s (some c) = place-Keeps _ _ _ _ _

    place_code-Keeps :
        (e : CodeElement) (editor : String) (ws : Workspace) (s : Option SoftwareSystem)
        → Keeps (Inside s0 name) (place_code e name editor ws s)
    unfolding place_code
    place_code-Keeps e editor ws none = Keeps-throw _
    place_code-Keeps e editor ws (some s) = place_code_in-Keeps e editor ws s _

    pub add_code_element-Keeps :
        (e : CodeElement) (kind : Option CodeKind) (editor : String)
        → Keeps (Tracks s0) (add_code_element e kind name editor)
    unfolding add_code_element
    add_code_element-Keeps e kind editor = enter _ λ ws. place_code-Keeps _ editor ws _

    add_relationship_raw-Keeps :
        (rel : Relationship) → Keeps (Tracks s0) (add_relationship_raw rel name)
    unfolding add_relationship_raw
    add_relationship_raw-Keeps rel = enter _ λ ws. search inside

    throw_some-Keeps : (e : Option Error) → Keeps (Tracks s0) (throw_some e)
    throw_some-Keeps none = Keeps-pure tt
    throw_some-Keeps (some e) = Keeps-throw e

    pub add_relationship-Keeps :
        (rel : Relationship) (editor : String)
        → Keeps (Tracks s0) (add_relationship rel name editor)
    unfolding add_relationship
    add_relationship-Keeps rel editor =
        search (keeps_rules, holder_of, throw_some-Keeps, add_relationship_raw-Keeps)

    update_found-Keeps :
        (id : String) (patch : List Assign) (ws : Workspace) (found : Option Found)
        → Keeps (Inside s0 name) (update_found id patch name ws found)
    unfolding update_found
    update_found-Keeps id patch ws none = Keeps-pure tt
    update_found-Keeps id patch ws (some found) = search inside

    pub update_element-Keeps :
        (id : String) (patch : List Assign) (editor : String)
        → Keeps (Tracks s0) (update_element id patch name editor)
    unfolding update_element
    update_element-Keeps id patch editor =
        enter _ λ ws. Keeps-bind _ _ (assert_allows _ _ _) (λ _. update_found-Keeps id patch ws _)

    update_found_relationship-Keeps :
        (id : String) (patch : List RelationshipAssign) (ws : Workspace)
        (found : Option Relationship)
        → Keeps (Inside s0 name) (update_found_relationship id patch name ws found)
    unfolding update_found_relationship
    update_found_relationship-Keeps id patch ws none = Keeps-pure tt
    update_found_relationship-Keeps id patch ws (some found) = search inside

    pub update_relationship-Keeps :
        (id : String) (patch : List RelationshipAssign) (editor : String)
        → Keeps (Tracks s0) (update_relationship id patch name editor)
    unfolding update_relationship
    update_relationship-Keeps id patch editor = enter _ λ ws.
        Keeps-bind _ _ (assert_allows _ _ _) (λ _. update_found_relationship-Keeps id patch ws _)

    pub remove_element-Keeps :
        (id editor : String) → Keeps (Tracks s0) (remove_element id name editor)
    unfolding remove_element
    remove_element-Keeps id editor = enter _ λ ws. search inside

    pub remove_relationship-Keeps :
        (id editor : String) → Keeps (Tracks s0) (remove_relationship id name editor)
    unfolding remove_relationship
    remove_relationship-Keeps id editor = enter _ λ ws. search inside

    pub apply_operation-Keeps :
        (editor : String) (op : Operation) → Keeps (Tracks s0) (apply_operation name editor op)
    unfolding apply_operation
    apply_operation-Keeps editor (adds_person p) = add_person-Keeps p
    apply_operation-Keeps editor (adds_software_system s) = add_software_system-Keeps s
    apply_operation-Keeps editor (adds_container c kind) = add_container-Keeps c kind editor
    apply_operation-Keeps editor (adds_component c) = add_component-Keeps c editor
    apply_operation-Keeps editor (adds_code_element e kind) = add_code_element-Keeps e kind editor
    apply_operation-Keeps editor (adds_relationship r) = add_relationship-Keeps r editor
    apply_operation-Keeps editor (updates_element id patch) = update_element-Keeps id patch editor
    apply_operation-Keeps editor (updates_relationship id patch) =
        update_relationship-Keeps id patch editor
    apply_operation-Keeps editor (removes_element id) = remove_element-Keeps id editor
    apply_operation-Keeps editor (removes_relationship id) = remove_relationship-Keeps id editor

-- When `applyOperations` on a workspace throws, at any of its operations and also inside another
-- batch, the workspace is as before the call, and the events that are queued, those that are logged
-- and those that the listeners were told are the same as before: each with its operation, workspace,
-- id, kind, path, changed fields and time, if nothing was queued outside batches. (The elements in
-- events are live objects, of which this says nothing.)
pub apply_operations-RolledBack :
    (ops : List Operation) (name editor : String) (s t : State) (e : Error)
    → IsSettled s
    → apply_operations ops name editor s ≡ (throws e, t)
    → RolledBack name s t
unfolding apply_operations
apply_operations-RolledBack ops name editor s t e settled h =
    batch-RolledBack name (for_each ops (apply_operation name editor)) s t e settled
      (Keeps-for_each ops _ (apply_operation-Keeps s name editor)) h
