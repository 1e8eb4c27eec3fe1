-- ===== src/WorkspaceDo/Persist.antt =====
-- `persist` of packages/workspace-do/src/index.ts, the listener that writes every change event of the
-- model to the tables, and `deleteWorkspaceRows`. The broadcast to sockets is left out.
use noware.Prelude.{
  ℕ, suc, length, leb, String, Bool, true, false, ◌&&◌, ◌||◌, Option, none, some, List, [], ◌∷◌,
  ◌++◌, map, mem, get, if◌then◌else◌, ◌==◌,
}
use noware.Exec.{ok, throws, pure, throw, modify, for_each, ◌>>=◌, ◌>>◌}
use noware.Model.{Workspace, id_of}
use noware.Model.Collab.{Claim, Proposal}
use noware.Model.Rows.{WorkspaceRows, node_to_row, relationship_to_row, export_rows}
use noware.Cfour.{
  Event, EventKind, of_relationship, Op, Subject, Payload, Removed, a_claim, a_proposal, a_branch,
}
use noware.Cfour.Events.Query.{set_text}
use noware.WorkspaceDo.{
  too_many_parameters, Store, M, ClaimRow, Junction, ProposalRow, no_payload, date_now,
}
use noware.WorkspaceDo.Sql.{delete_where, insert, same_junction, drop_orphans}
use noware.WorkspaceDo.Rows.{
  written, same_meta, in_memory, ensure_workspace, upsert_workspace_meta, insert_node_row,
  insert_relationship_row, insert_view_row,
}
use noware.WorkspaceDo.Log.{append_event}

unfoldable pub persist_after : String → Option Subject → M Unit
unfolding ensure_workspace insert_node_row insert_relationship_row insert_view_row node_to_row
    relationship_to_row ◌>>=◌
persist_after name none = pure tt
persist_after name (some (Subject.relationship r)) = do
  ensure_workspace name
  insert_relationship_row (relationship_to_row name r) true
persist_after name (some (Subject.view v)) = do ensure_workspace name; insert_view_row v name
persist_after name (some (Subject.node n)) = do
  ensure_workspace name
  insert_node_row (node_to_row name n) true

abbrev listed : Option String → List String
listed none = []
listed (some id) = id ∷ []

abbrev is_relationship : Option EventKind → Bool
is_relationship (some of_relationship) = true
is_relationship _ = false

abbrev removed_nodes : Option Removed → List String
removed_nodes none = []
removed_nodes (some r) = map id_of r.nodes

abbrev removed_relationships : Option Removed → List String
removed_relationships none = []
removed_relationships (some r) = map (λ x. x.id) r.relationships

unfoldable pub removed_node_ids : Event → List String
removed_node_ids e =
    (if is_relationship e.element_kind then [] else listed (set_text e.element_id))
    ++ removed_nodes e.removed_descendants

unfoldable pub removed_rel_ids : Event → List String
removed_rel_ids e =
    (if is_relationship e.element_kind then listed (set_text e.element_id) else [])
    ++ removed_relationships e.removed_descendants

-- A DELETE that binds so many values. The other statements bind a few, which the platform always
-- allows.
abbrev pub bound : ℕ → (Store → Store) → M Unit
bound n delete s =
    if leb n s.max_parameters then (ok tt, delete s) else (throws too_many_parameters, s)

-- `if (ids.length)`
abbrev pub unless_empty : List String → M Unit → M Unit
unless_empty [] m = pure tt
unless_empty (id ∷ ids) m = m

-- The rows of the removed ids go from the workspace; the junction rows go whoever owns them.
unfoldable pub remove_ids : String → List String → List String → M Unit
unfolding delete_where mem ◌>>=◌
remove_ids name node_ids rel_ids = do
  unless_empty node_ids (do
    bound (suc (length node_ids)) λ s. record s {
      nodes = delete_where (λ r. r.workspace_name == name && mem r.id node_ids) s.nodes;
    }
    bound (length node_ids) λ s. record s {
      claim_elements = delete_where (λ j. mem j.member node_ids) s.claim_elements;
    })
  unless_empty rel_ids (do
    bound (suc (length rel_ids)) λ s. record s {
      relationships =
          delete_where (λ r. r.workspace_name == name && mem r.id rel_ids) s.relationships;
    }
    bound (length rel_ids) λ s. record s {
      claim_relationships = delete_where (λ j. mem j.member rel_ids) s.claim_relationships;
    })

unfoldable pub persist_remove : Event → M Unit
unfolding removed_node_ids removed_rel_ids remove_ids
persist_remove e = remove_ids e.workspace_name (removed_node_ids e) (removed_rel_ids e)

-- The deletions of "reset", which `deleteWorkspaceRows` makes too.
unfoldable pub wipe : String → Store → Store
unfolding delete_where drop_orphans
wipe name s =
    let claims = delete_where (λ (c : ClaimRow). c.workspace_name == name) s.claims in
    let proposals =
      delete_where (λ (p : ProposalRow). p.workspace_name == name) s.relationship_proposals in
    record s {
      nodes = delete_where (λ r. r.workspace_name == name) s.nodes;
      relationships = delete_where (λ r. r.workspace_name == name) s.relationships;
      claims = claims;
      claim_elements = drop_orphans (map (λ c. c.id) claims) s.claim_elements;
      claim_relationships = drop_orphans (map (λ c. c.id) claims) s.claim_relationships;
      relationship_proposals = proposals;
      proposal_pending_approvals =
          drop_orphans (map (λ p. p.id) proposals) s.proposal_pending_approvals;
      views = delete_where (λ v. v.workspace_name == name) s.views;
      branch_base =
          delete_where (λ b. b.branch_name == name || b.parent_name == name) s.branch_base;
    }

unfoldable pub insert_rows : WorkspaceRows → M Unit
unfolding insert_node_row insert_relationship_row for_each
insert_rows rows = do
  for_each rows.nodes (λ n. insert_node_row n false)
  for_each rows.relationships (λ r. insert_relationship_row r false)

unfoldable pub persist_reset : String → M Unit
unfolding wipe upsert_workspace_meta ◌>>=◌
persist_reset name = do modify (wipe name); upsert_workspace_meta name

unfoldable pub persist_import : String → M Unit
unfolding delete_where in_memory insert_rows upsert_workspace_meta export_rows ◌>>=◌
persist_import name = do
  modify λ s. record s {
    nodes = delete_where (λ r. r.workspace_name == name) s.nodes;
    relationships = delete_where (λ r. r.workspace_name == name) s.relationships;
  }
  ws ← in_memory name
  insert_rows (export_rows name ws)
  upsert_workspace_meta name

abbrev pub insert_claim : ClaimRow → M Unit
insert_claim row s =
    written (λ t s. record s { claims = t }) (insert (λ a b. a.id == b.id) row s.claims) s

-- A row of the junction table that is read and written by the two functions.
unfoldable pub insert_junction :
    (Store → List Junction) → (List Junction → Store → Store) → String → String → M Unit
unfolding insert
insert_junction table put owner id s =
    written put (insert same_junction (record { owner = owner; member = id }) (table s)) s

abbrev pub put_elements : List Junction → Store → Store
put_elements t s = record s { claim_elements = t }

abbrev pub put_relationships : List Junction → Store → Store
put_relationships t s = record s { claim_relationships = t }

abbrev pub claim_row : String → Claim → ClaimRow
claim_row name c = record {
  id = c.id;
  workspace_name = name;
  editor_id = c.editor_id;
  created_at = c.created_at;
  last_seen_at = c.last_seen_at;
}

unfoldable pub persist_claim : String → Claim → M Unit
unfolding insert insert_junction for_each
persist_claim name c = do
  insert_claim (claim_row name c)
  for_each c.element_ids (insert_junction (λ s. s.claim_elements) put_elements c.id)
  for_each c.relationship_ids (insert_junction (λ s. s.claim_relationships) put_relationships c.id)

unfoldable pub persist_release : Claim → Store → Store
unfolding delete_where
persist_release c s = record s {
  claim_elements = delete_where (λ j. j.owner == c.id) s.claim_elements;
  claim_relationships = delete_where (λ j. j.owner == c.id) s.claim_relationships;
  claims = delete_where (λ r. r.id == c.id) s.claims;
}

abbrev base_of : String → Store → Option Workspace
base_of branch s = elim (get branch s.cfour.branch_base) [
  | none ↦ none
  | some b ↦ some b.base_snapshot
]

insert_base : String → String → Option Workspace → M Unit
unfolding insert date_now ◌>>=◌
insert_base branch from none = throw no_payload
insert_base branch from (some snapshot) = do
  now ← date_now
  λ s.
      written (λ t s. record s { branch_base = t })
        (insert (λ a b. a.branch_name == b.branch_name)
          (record {
            branch_name = branch;
            parent_name = from;
            base_snapshot = snapshot;
            created_at = now;
          })
          s.branch_base)
        s

unfoldable pub persist_branch : String → String → M Unit
unfolding insert date_now insert_base in_memory insert_rows export_rows get ◌>>=◌
persist_branch branch from = do
  created ← date_now
  updated ← date_now
  λ s.
      written (λ t s. record s { workspaces = t })
        (insert same_meta
          (record {
            workspace_name = branch;
            title = branch;
            description = none;
            created_at = created;
            updated_at = updated;
          })
          s.workspaces)
        s
  λ s. insert_base branch from (base_of branch s) s
  ws ← in_memory branch
  insert_rows (export_rows branch ws)
  modify λ s. record s {
    hydrated = if mem branch s.hydrated then s.hydrated else s.hydrated ++ branch ∷ [];
  }

unfoldable pub persist_proposal : String → Proposal → M Unit
unfolding insert insert_junction for_each
persist_proposal name p = do
  λ s.
      written (λ t s. record s { relationship_proposals = t })
        (insert (λ a b. a.id == b.id)
          (record {
            id = p.id;
            workspace_name = name;
            relationship = p.relationship;
            proposer_id = p.proposer_id;
            created_at = p.created_at;
          })
          s.relationship_proposals)
        s
  for_each p.pending_approvals (
      insert_junction (λ s. s.proposal_pending_approvals)
        (λ t s. record s { proposal_pending_approvals = t }) p.id)

unfoldable pub drop_proposal : Proposal → Store → Store
unfolding delete_where
drop_proposal p s = record s {
  proposal_pending_approvals = delete_where (λ j. j.owner == p.id) s.proposal_pending_approvals;
  relationship_proposals = delete_where (λ r. r.id == p.id) s.relationship_proposals;
}

-- What a claim's, a branch's and a proposal's event carry.
unfoldable pub with_claim : (Claim → M Unit) → Option Payload → M Unit
with_claim f (some (a_claim c)) = f c
with_claim f _ = throw no_payload

unfoldable pub with_proposal : (Proposal → M Unit) → Option Payload → M Unit
with_proposal f (some (a_proposal p)) = f p
with_proposal f _ = throw no_payload

unfoldable pub with_branch : (String → String → M Unit) → Option Payload → M Unit
with_branch f (some (a_branch branch from)) = f branch from
with_branch f _ = throw no_payload

unfoldable pub persist_op : Op → Event → M Unit
unfolding persist_after persist_remove persist_reset persist_import with_claim persist_claim
    persist_release with_branch persist_branch with_proposal persist_proposal drop_proposal
persist_op Op.add e = persist_after e.workspace_name e.after
persist_op Op.update e = persist_after e.workspace_name e.after
persist_op Op.remove e = persist_remove e
persist_op Op.reset e = persist_reset e.workspace_name
persist_op Op.import e = persist_import e.workspace_name
persist_op Op.claim e = with_claim (persist_claim e.workspace_name) e.payload
persist_op Op.release e = with_claim (λ c. modify (persist_release c)) e.payload
persist_op Op.branch e = with_branch persist_branch e.payload
persist_op Op.propose_relationship e = with_proposal (persist_proposal e.workspace_name) e.payload
persist_op Op.accept_relationship e = with_proposal (λ p. modify (drop_proposal p)) e.payload
persist_op Op.reject_relationship e = with_proposal (λ p. modify (drop_proposal p)) e.payload
persist_op Op.merge e = pure tt

unfoldable pub persist : Event → M Unit
unfolding append_event persist_op
persist e = do append_event e; persist_op e.op e

-- `deleteWorkspaceRows`
unfoldable pub delete_workspace_rows : String → Store → Store
unfolding wipe delete_where
delete_workspace_rows name s =
    let wiped = wipe name s in
    record wiped {
      workspaces = delete_where (λ r. r.workspace_name == name) wiped.workspaces;
      events = delete_where (λ r. r.payload.workspace_name == name) wiped.events;
    }
