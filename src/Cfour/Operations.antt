-- ===== src/Cfour/Operations.antt =====
-- `CfourOperation` and `applyOperations` of `BaseCfour`: a list of typed mutations, run in one batch
-- through the public mutators.
pub mod Atomic
pub mod Enforced
pub mod Delivery
mod Tests
use noware.Prelude.{String, Option, List}
use noware.Exec.{for_each}
use noware.Model.{
  ContainerKind, CodeKind, Person, SoftwareSystem, Container, Component, CodeElement,
}
use noware.Model.{Relationship}
use noware.Model.Patch.{Assign, RelationshipAssign}
use noware.Cfour.{M}
use noware.Cfour.Batch.{batch}
use noware.Cfour.Mutators.{
  add_person, add_software_system, add_container, add_component, add_code_element, add_relationship,
  update_element, update_relationship,
}
use noware.Cfour.Removal.{remove_element, remove_relationship}

pub data Operation : Type 0 where
  adds_person : Person → Operation
  adds_software_system : SoftwareSystem → Operation
  adds_container : Container → Option ContainerKind → Operation
  adds_component : Component → Operation
  adds_code_element : CodeElement → Option CodeKind → Operation
  adds_relationship : Relationship → Operation
  updates_element : String → List Assign → Operation
  updates_relationship : String → List RelationshipAssign → Operation
  removes_element removes_relationship : String → Operation

unfoldable pub apply_operation : String → String → Operation → M Unit
apply_operation name editor (adds_person p) = add_person p name
apply_operation name editor (adds_software_system s) = add_software_system s name
apply_operation name editor (adds_container c kind) = add_container c kind name editor
apply_operation name editor (adds_component c) = add_component c name editor
apply_operation name editor (adds_code_element e kind) = add_code_element e kind name editor
apply_operation name editor (adds_relationship r) = add_relationship r name editor
apply_operation name editor (updates_element id patch) = update_element id patch name editor
apply_operation name editor (updates_relationship id patch) =
    update_relationship id patch name editor
apply_operation name editor (removes_element id) = remove_element id name editor
apply_operation name editor (removes_relationship id) = remove_relationship id name editor

unfoldable pub apply_operations : List Operation → String → String → M Unit
apply_operations ops name editor = batch (for_each ops (apply_operation name editor))
