-- ===== src/Cfour/Operations/Delivery.antt =====
-- When the listeners hear of a list of operations that succeeds.
use noware.Prelude.{String, ◌≡◌, List}
use noware.Exec.{ok, for_each}
use noware.Exec.Keeps.{Keeps-for_each}
use noware.Cfour.{State}
use noware.Cfour.Batch.Flush.{Delivered, ran, batch-Delivered}
use noware.Cfour.Operations.{Operation, apply_operation, apply_operations}
use noware.Cfour.Operations.Atomic.{apply_operation-Keeps}

-- `applyOperations`, called outside other batches and returning: while the operations ran the
-- listeners heard nothing; then they heard every event that the operations queued, once and in
-- order; the workspaces are as the operations left them.
pub apply_operations-Delivered :
    (ops : List Operation) (name editor : String) (s t : State)
    → s.batch_depth ≡ 0
    → apply_operations ops name editor s ≡ (ok tt, t)
    → Delivered s (ran (for_each ops (apply_operation name editor)) s) t
unfolding apply_operations
apply_operations-Delivered ops name editor s t outside h =
    batch-Delivered (for_each ops (apply_operation name editor)) s t outside
      (Keeps-for_each ops (apply_operation name editor) (apply_operation-Keeps s name editor)) h
