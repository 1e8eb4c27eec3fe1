-- ===== src/Model/Collab.antt =====
-- Claims, proposals, diffs and merge plans of packages/cfour/src/index.ts. A `Set` of ids is a list
-- in insertion order; a JSON snapshot is the workspace that it encodes.
use noware.Prelude.{ℕ, String, Option, List}
use noware.Model.{Node, Relationship, Workspace}

pub record Selection : Type 0 where
  pub element_ids : List String
  pub relationship_ids : List String

pub record Claim : Type 0 where
  pub id : String
  pub editor_id : String
  pub workspace_name : String
  pub element_ids : List String
  pub relationship_ids : List String
  pub created_at : ℕ
  pub last_seen_at : ℕ

pub record Proposal : Type 0 where
  pub id : String
  pub relationship : Relationship
  pub workspace_name : String
  pub proposer_id : String
  pub pending_approvals : List String
  pub created_at : ℕ

-- The property names that `getObjectChanges` reports.
pub data Key : Type 0 where
  key_id key_name key_kind key_description key_owner key_icon key_tags key_metadata key_external :
      Key
  key_system_id key_container_id key_component_id key_technology key_behavior key_stereotype
        key_namespace :
      Key
  key_source_id key_destination_id key_interaction_style key_code_relationship_kind : Key

pub record Modified (T : Type 0) : Type 0 where
  pub id : String
  pub before : T
  pub after : T
  pub changes : List Key

pub record DiffResult (T : Type 0) : Type 0 where
  pub added : List T
  pub removed : List T
  pub modified : List (Modified T)

pub record WorkspaceDiff : Type 0 where
  pub nodes : DiffResult Node
  pub relationships : DiffResult Relationship

pub data Side : Type 0 where
  branch_side target_side : Side

pub record MergeResolution : Type 0 where
  pub id : String
  pub take : Side

pub record ClaimBlocker : Type 0 where
  pub element_id : String
  pub holder_editor_id : String

pub record MergePlan : Type 0 where
  pub branch : String
  pub into : String
  pub branch_changes : WorkspaceDiff
  pub target_changes : WorkspaceDiff
  pub conflicts : List String
  pub claim_blockers : List ClaimBlocker
  pub resolutions : Option (List MergeResolution)

pub record BranchBase : Type 0 where
  pub parent : String
  pub base_snapshot : Workspace
