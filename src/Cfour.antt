-- ===== src/Cfour.antt =====
-- The state of `BaseCfour` (packages/cfour/src/index.ts), its change events and errors. The static
-- facade of the class forwards each call to one such object and is not modelled apart.
pub mod Events
pub mod Batch
pub mod Workspaces
pub mod Claims
pub mod Mutators
pub mod Removal
pub mod Proposals
pub mod Operations
pub mod Queries
pub mod Find
pub mod Merge
pub mod Sample
mod Tests
use noware.Prelude.{ℕ, suc, String, Option, none, some, List, [], ◌∷◌, Map}
use noware.Exec.{Exec, ok}
use noware.Model.{ElementKind, Node, Relationship, View, Workspace}
use noware.Model.Collab.{Claim, Proposal, MergePlan, BranchBase, Key}

pub data Op : Type 0 where
  add update remove reset import claim release branch merge : Op
  propose_relationship accept_relationship reject_relationship : Op

pub data EventKind : Type 0 where
  of_element : ElementKind → EventKind
  of_relationship of_view : EventKind

pub data Subject : Type 0 where
  node : Node → Subject
  relationship : Relationship → Subject
  view : View → Subject

pub data Payload : Type 0 where
  a_claim : Claim → Payload
  a_proposal : Proposal → Payload
  a_plan : MergePlan → Payload
  a_branch : String → String → Payload

pub record Removed : Type 0 where
  pub nodes : List Node
  pub relationships : List Relationship

-- CfourChangeEvent. `before` and `after` are values here; in the program the `after` of an add is the
-- live object, which later edits change in place.
pub record Event : Type 0 where
  pub op : Op
  pub workspace_name : String
  pub element_id : Option String
  pub element_kind : Option EventKind
  pub path : Option (List String)
  pub before : Option Subject
  pub after : Option Subject
  pub changes : Option (List Key)
  pub payload : Option Payload
  pub removed_descendants : Option Removed
  pub timestamp : Option ℕ

-- An event that has only its operation and workspace.
abbrev pub bare : Op → String → Event
bare op name = record {
  op = op;
  workspace_name = name;
  element_id = none;
  element_kind = none;
  path = none;
  before = none;
  after = none;
  changes = none;
  payload = none;
  removed_descendants = none;
  timestamp = none;
}

-- The readings of `Date.now()` and the draws of `crypto.randomUUID()`, in order.
pub record World : Type 0 where
  pub clock : ℕ → ℕ
  pub reads : ℕ
  pub uuids : ℕ → String
  pub draws : ℕ

-- The private fields of `BaseCfour`. `delivered` lists the events with which the listeners were
-- called. The top of `batch_snapshots` is its head; a snapshot is `none` where the workspace did
-- not exist.
pub record State : Type 0 where
  pub workspaces : Map Workspace
  pub batch_depth : ℕ
  pub batch_queue : List Event
  pub batch_snapshots : List (Map (Option Workspace))
  pub event_log : List Event
  pub event_log_max : ℕ
  pub claims : Map (Map Claim)
  pub proposals : Map (Map Proposal)
  pub branch_base : Map BranchBase
  pub claim_ttl_ms : ℕ
  pub claim_ttl_by_workspace : Map ℕ
  pub proposal_ttl_ms : ℕ
  pub proposal_ttl_by_workspace : Map ℕ
  pub delivered : List Event
  pub world : World

-- `new Error(…)`, with what the messages name.
pub data Error : Type 0 where
  system_not_found container_not_found component_not_found element_not_found :
      String → String → Error
  element_claimed relationship_claimed : String → String → String → Error
  spans_claims : String → String → String → String → Error
  reserved_editor : Error
  selection_overlaps : String → List (String × String) → Error
  claim_not_found proposal_not_found : String → String → Error
  no_claim_boundary : String → String → Error
  approval_not_required no_standing : String → String → String → Error
  workspace_exists no_branch_base : String → Error
  merge_conflicts : String → List String → Error
  conflict_unresolved not_a_conflict : String → String → Error

abbrev pub M : Type 0 → Type 0
M A = Exec State Error A

-- REGISTER_EDITOR
abbrev pub register_editor : String
register_editor = "__system__"

abbrev pub default_workspace : Workspace
default_workspace = record {
  name = "Default Workspace";
  description = none;
  people = [];
  software_systems = [];
  relationships = [];
  views = some [];
}

-- The fields' initial values.
unfoldable pub initial : World → State
initial world = record {
  workspaces = ("default", default_workspace) ∷ [];
  batch_depth = 0;
  batch_queue = [];
  batch_snapshots = [];
  event_log = [];
  event_log_max = 1000;
  claims = [];
  proposals = [];
  branch_base = [];
  claim_ttl_ms = 300_000;
  claim_ttl_by_workspace = [];
  proposal_ttl_ms = 300_000;
  proposal_ttl_by_workspace = [];
  delivered = [];
  world = world;
}

-- `reset()`: listeners, storage adapters and the event-log cap are left alone.
unfoldable pub reset_all : State → State
reset_all s = record s {
  workspaces = ("default", default_workspace) ∷ [];
  batch_depth = 0;
  batch_queue = [];
  batch_snapshots = [];
  event_log = [];
  claims = [];
  proposals = [];
  branch_base = [];
  claim_ttl_ms = 300_000;
  claim_ttl_by_workspace = [];
  proposal_ttl_ms = 300_000;
  proposal_ttl_by_workspace = [];
}

-- `Date.now()`
unfoldable pub date_now : M ℕ
date_now s = (
  ok (s.world.clock s.world.reads),
  record s { world = record s.world { reads = suc s.world.reads } },
)

-- `crypto.randomUUID()`
unfoldable pub random_uuid : M String
random_uuid s = (
  ok (s.world.uuids s.world.draws),
  record s { world = record s.world { draws = suc s.world.draws } },
)
