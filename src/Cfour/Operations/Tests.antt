-- ===== src/Cfour/Operations/Tests.antt =====
-- Lists of operations at a small model: one that fails, one that is refused, and one that succeeds.
use noware.Prelude.{refl, none, some, List, [], ◌∷◌, mem}
use noware.Exec.{for_each, ◌>>=◌}
use noware.Model.{plain}
use noware.Model.Sample.{named, shop, api}
use noware.Model.Tree.{find_node_with_ancestry}
use noware.Cfour.Sample.{of_ann, start}
use noware.Cfour.{State, initial, container_not_found}
use noware.Cfour.Events.{notify}
use noware.Cfour.Batch.{capture, batch}
use noware.Cfour.Batch.Flush.{Delivered, ran}
use noware.Cfour.Batch.Rollback.{RolledBack}
use noware.Cfour.Workspaces.{get_workspace, put_workspace}
use noware.Cfour.Claims.{claims_of, claims_for, blocker, guards, assert_claim_allows}
use noware.Cfour.Claims.Enforcement.{Refused}
use noware.Cfour.Mutators.{add_software_system, add_container, add_component, place_component}
use noware.Cfour.Operations.{
  Operation, adds_software_system, adds_component, adds_container, apply_operation,
  apply_operations,
}
use noware.Cfour.Operations.Delivery.{apply_operations-Delivered}
use noware.Cfour.Operations.Atomic.{apply_operations-RolledBack}
use noware.Cfour.Operations.Enforced.{apply_operation-Refused}

mutators : Unit {0}
unfolding apply_operations apply_operation add_software_system add_component add_container batch
    for_each ◌>>=◌ get_workspace put_workspace capture notify claims_for claims_of blocker
    find_node_with_ancestry assert_claim_allows initial place_component guards mem
mutators = tt

-- The second operation names a container that is not there.
abbrev ops : List Operation
ops =
    adds_software_system (record shop { element = named "crm" })
    ∷ adds_component (record {
      element = named "login";
      container_id = "web";
      technology = none;
      behavior = none;
      code_elements = none;
    })
    ∷ []

abbrev after_ops : State
after_ops = (apply_operations ops "model" "ann" start).1

apply_operations-RolledBack_example : RolledBack "model" start after_ops
unfolding mutators
apply_operations-RolledBack_example =
    apply_operations-RolledBack ops "model" "ann" start after_ops
      (container_not_found "web" "model") (λ h. refl) refl

apply_operation-Refused_example :
    Refused start (apply_operation "model" "bob" (adds_container api (some plain)) start)
unfolding mutators
apply_operation-Refused_example =
    apply_operation-Refused "model" "bob" of_ann (adds_container api (some plain)) start refl refl

abbrev one : List Operation
one = adds_software_system (record shop { element = named "crm" }) ∷ []

apply_operations-Delivered_example :
    Delivered start
      (ran (for_each one (apply_operation "model" "ann")) start)
      (apply_operations one "model" "ann" start).1
unfolding mutators
apply_operations-Delivered_example =
    apply_operations-Delivered one "model" "ann" start (apply_operations one "model" "ann" start).1
      refl refl
