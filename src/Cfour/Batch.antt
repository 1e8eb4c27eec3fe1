-- ===== src/Cfour/Batch.antt =====
-- Batches of `BaseCfour`: `batch`, the lazy snapshots of `_captureLazySnapshot` and
-- `_restoreLevel`.
pub mod Rollback
pub mod Flush
use noware.Prelude.{
  ℕ, zero, suc, ◌-◌, String, Bool, Option, none, some, List, [], ◌∷◌, ◌++◌, ltb, if◌then◌else◌,
  length, take, Map, get, set, delete, has, no_entries,
}
use noware.Exec.{Result, ok, throws, Exec}
use noware.Model.{Workspace}
use noware.Cfour.{State, Event, Error, M}
use noware.Cfour.Events.{deliver_all}

abbrev pub Level : Type 0
Level = Map (Option Workspace)

abbrev pub top : List Level → Level
top [] = []
top (level ∷ rest) = level

abbrev pub pop : List Level → List Level
pop [] = []
pop (level ∷ rest) = rest

-- `_captureLazySnapshot`: the first access at this level records the workspace.
abbrev capture_in : String → Option Workspace → List Level → List Level
capture_in name current [] = []
capture_in name current (level ∷ rest) =
    (if has name level then level else set name current level) ∷ rest

unfoldable pub capture : String → Option Workspace → State → State
unfolding has set
capture name current s =
    if ltb 0 s.batch_depth
    then record s { batch_snapshots = capture_in name current s.batch_snapshots }
    else s

-- `_restoreLevel`
unfoldable pub restore_level : Level → Map Workspace → Map Workspace
unfolding set delete
restore_level [] m = m
restore_level ((name, none) ∷ level) m = restore_level level (delete name m)
restore_level ((name, some ws) ∷ level) m = restore_level level (set name ws m)

-- The `catch` block: workspaces go back and the events queued since the batch began are dropped.
unfoldable pub roll_back : ℕ → State → State
unfolding restore_level
roll_back queue_start s = record s {
  workspaces = restore_level (top s.batch_snapshots) s.workspaces;
  batch_queue = take queue_start s.batch_queue;
}

-- A level's baselines go into the parent level, unless that has its own.
unfoldable pub promote : Level → Level → Level
unfolding has set
promote [] parent = parent
promote ((name, snap) ∷ level) parent =
    promote level (if has name parent then parent else set name snap parent)

abbrev pub promote_top : Level → List Level → List Level
promote_top level [] = []
promote_top level (parent ∷ rest) = promote level parent ∷ rest

-- The `finally` block.
unfoldable pub close_batch : State → State
unfolding deliver_all promote
close_batch s =
    let left = record s {
      batch_depth = s.batch_depth - 1;
      batch_snapshots = pop s.batch_snapshots;
    } in
    if ltb 0 left.batch_depth
    then record left { batch_snapshots = promote_top (top s.batch_snapshots) left.batch_snapshots }
    else deliver_all left.batch_queue (record left { batch_queue = [] })

unfoldable pub open_batch : State → State
open_batch s = record s {
  batch_depth = suc s.batch_depth;
  batch_snapshots = [] ∷ s.batch_snapshots;
}

-- The level of a batch is the top of the stack when its callback ends, since nested batches pop
-- what they push.
abbrev pub settle : {A : Type 0} → ℕ → Result Error A × State → Result Error A × State
settle queue_start (ok a, s) = (ok a, close_batch s)
settle queue_start (throws e, s) = (throws e, close_batch (roll_back queue_start s))

unfoldable pub batch : {A : Type 0} → M A → M A
unfolding open_batch roll_back close_batch
batch body s = settle (length s.batch_queue) (body (open_batch s))
