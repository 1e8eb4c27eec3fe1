-- ===== src/WorkspaceDo.antt =====
-- packages/workspace-do/src/index.ts: the SQLite tables of a `WorkspaceDO` beside its `BaseCfour`. A
-- table is the list of its rows; the order in which a SELECT gives the elements and relationships is a
-- parameter, and for the other tables it is that of the list; a JSON text in a row is the value that it encodes.
pub mod Sql
pub mod Rows
pub mod Log
pub mod Persist
pub mod Hydrate
mod Tests
use noware.Prelude.{ℕ, suc, String, Option, List}
use noware.Exec.{Exec, ok}
use noware.Model.{Relationship, View, ViewKind, Workspace}
use noware.Model.Rows.{NodeRow, RelationshipRow}
use noware.Cfour
use noware.Cfour.{Event}

pub record MetaRow : Type 0 where
  pub workspace_name : String
  pub title : String
  pub description : Option String
  pub created_at : ℕ
  pub updated_at : ℕ

pub record BaseRow : Type 0 where
  pub branch_name : String
  pub parent_name : String
  pub base_snapshot : Workspace
  pub created_at : ℕ

pub record ClaimRow : Type 0 where
  pub id : String
  pub workspace_name : String
  pub editor_id : String
  pub created_at : ℕ
  pub last_seen_at : ℕ

-- A row of `claim_elements`, `claim_relationships` or `proposal_pending_approvals`.
pub record Junction : Type 0 where
  pub owner : String
  pub member : String

pub record ProposalRow : Type 0 where
  pub id : String
  pub workspace_name : String
  pub relationship : Relationship
  pub proposer_id : String
  pub created_at : ℕ

pub record ViewRow : Type 0 where
  pub workspace_name : String
  pub view_id : String
  pub kind : ViewKind
  pub title : Option String
  pub description : Option String
  pub scope_id : Option String
  pub view : View
  pub updated_at : ℕ

pub record EventRow : Type 0 where
  pub payload : Event
  pub timestamp : ℕ

-- The object's fields and tables; `clock` has the readings of `Date.now()`, and `max_parameters` is the
-- number of values that the platform lets a statement bind.
pub record Store : Type 0 where
  pub cfour : Cfour.State
  pub hydrated : List String
  pub event_log_max : Option ℕ
  pub workspaces : List MetaRow
  pub branch_base : List BaseRow
  pub nodes : List NodeRow
  pub relationships : List RelationshipRow
  pub claims : List ClaimRow
  pub claim_elements : List Junction
  pub claim_relationships : List Junction
  pub relationship_proposals : List ProposalRow
  pub proposal_pending_approvals : List Junction
  pub views : List ViewRow
  pub events : List EventRow
  pub clock : ℕ → ℕ
  pub reads : ℕ
  pub max_parameters : ℕ

-- A constraint that an INSERT violates, a statement that binds too many values, an event without the payload of its kind, and what the
-- methods throw. `not_in_memory`: the program would make the workspace anew.
pub data Fault : Type 0 where
  unique_constraint : Fault
  too_many_parameters : Fault
  no_payload : Fault
  not_in_memory : String → Fault
  is_parent : String → Fault
  not_a_branch : String → Fault

abbrev pub M : Type 0 → Type 0
M A = Exec Store Fault A

unfoldable pub date_now : M ℕ
date_now s = (ok (s.clock s.reads), record s { reads = suc s.reads })
