-- ===== src/WorkspaceDo/Hydrate.antt =====
-- Cold starts and deletions of packages/workspace-do/src/index.ts: `hydrate` with its four restores,
-- `deleteWorkspace` and `deleteBranch`.
pub mod Claims
pub mod Granted
pub mod Removed
pub mod Imported
use noware.Prelude.{
  String, Bool, true, false, not, ◌&&◌, Option, none, some, List, [], ◌∷◌, ◌++◌, map, any, mem,
  include, from_list, filter, find, update_first, if◌then◌else◌, ◌==◌, get_or,
}
use noware.Exec.{Result, ok, throws, pure, throw, modify, ◌>>=◌, ◌>>◌}
use noware.Model.Collab.{Claim, Proposal}
use noware.Model.Rows.{NodeRow, RelationshipRow, WorkspaceRows}
use noware.Cfour
use noware.Cfour.{bare, Op}
use noware.Cfour.Claims.{restore_claims, touch_claim}
use noware.Cfour.Proposals.{restore_proposals}
use noware.Cfour.Mutators.{restore_views}
use noware.Cfour.Workspaces
use noware.Cfour.Workspaces.{import_rows, restore_branch_base}
use noware.WorkspaceDo.{
  Store, M, MetaRow, BaseRow, ClaimRow, Junction, ProposalRow, ViewRow, is_parent, not_a_branch,
  date_now,
}
use noware.WorkspaceDo.Sql.{delete_where}
use noware.WorkspaceDo.Persist.{persist, delete_workspace_rows}

-- The rows of `claims`, without their ids.
abbrev pub bare_claim : String → ClaimRow → Claim
bare_claim name r = record {
  id = r.id;
  editor_id = r.editor_id;
  workspace_name = name;
  element_ids = [];
  relationship_ids = [];
  created_at = r.created_at;
  last_seen_at = r.last_seen_at;
}

abbrev pub in_workspace : String → List ClaimRow → List ClaimRow
in_workspace name = filter λ (c : ClaimRow). c.workspace_name == name

-- `claim_elements ce JOIN claims c ON c.id = ce.claim_id WHERE c.workspace_name = ?`
unfoldable pub joined : String → List ClaimRow → List Junction → List Junction
joined name claims = filter λ j. any (λ c. c.id == j.owner && c.workspace_name == name) claims

abbrev pub add_element : String → Claim → Claim
add_element id c = record c { element_ids = include id c.element_ids }

abbrev pub add_relationship_id : String → Claim → Claim
add_relationship_id id c = record c { relationship_ids = include id c.relationship_ids }

-- `claims.find((c) => c.id === r.claim_id)?.elementIds.add(r.element_id)` for each row.
unfoldable pub add_members : (String → Claim → Claim) → List Junction → List Claim → List Claim
unfolding include
add_members add [] claims = claims
add_members add (j ∷ js) claims =
    add_members add js (update_first (λ c. c.id == j.owner) (add j.member) claims)

-- The claims that `restoreClaims` hands to the model.
unfoldable pub stored_claims : String → Store → List Claim
unfolding joined add_members
stored_claims name s =
    add_members add_relationship_id (joined name s.claims s.claim_relationships) (
      add_members add_element (joined name s.claims s.claim_elements)
        (map (bare_claim name) (in_workspace name s.claims)))

unfoldable pub stored_proposals : String → Store → List Proposal
unfolding from_list
stored_proposals name s =
    map
      (λ (r : ProposalRow). record {
        id = r.id;
        relationship = r.relationship;
        workspace_name = name;
        proposer_id = r.proposer_id;
        pending_approvals = from_list [] (
            map (λ (j : Junction). j.member)
              (filter (λ (j : Junction). j.owner == r.id) s.proposal_pending_approvals));
        created_at = r.created_at;
      })
      (filter (λ (r : ProposalRow). r.workspace_name == name) s.relationship_proposals)

-- The order in which the database gives the rows of a SELECT without ORDER BY.
pub record RowOrder : Type 0 where
  pub of_nodes : List NodeRow → List NodeRow
  pub of_relationships : List RelationshipRow → List RelationshipRow

unfoldable pub stored_rows : RowOrder → String → Store → WorkspaceRows
stored_rows order name s = record {
  nodes = order.of_nodes (filter (λ r. r.workspace_name == name) s.nodes);
  relationships = order.of_relationships (filter (λ r. r.workspace_name == name) s.relationships);
}

-- A change of the model that tells no listener.
abbrev quietly : (Cfour.State → Cfour.State) → M Unit
quietly f = modify λ s. record s { cfour = f s.cfour }

restore_some : {R : Type 0} → List R → M Unit → M Unit
restore_some [] m = pure tt
restore_some (r ∷ rs) m = m

restore_bases : List BaseRow → Cfour.State → Cfour.State
restore_bases [] s = s
restore_bases (b ∷ bs) s = restore_bases bs (
    restore_branch_base b.branch_name
      (record { parent = b.parent_name; base_snapshot = b.base_snapshot }) s)

-- The model as the tables have it; `importRows` tells the listener of the import.
unfoldable pub restore_all : RowOrder → String → MetaRow → M Unit
unfolding import_rows stored_rows stored_claims stored_proposals restore_claims restore_proposals
    restore_views restore_some restore_bases persist ◌>>=◌
restore_all order name meta = do
  λ s. quietly (import_rows (stored_rows order name s) name (some meta.title) meta.description) s
  persist (bare Op.import name)
  λ s.
      restore_some (in_workspace name s.claims)
        (quietly (restore_claims (stored_claims name s) name)) s
  λ s.
      restore_some (stored_proposals name s)
        (quietly (restore_proposals (stored_proposals name s) name)) s
  λ s.
      (let rows = filter (λ (v : ViewRow). v.workspace_name == name) s.views in
        restore_some rows (quietly (λ c. (restore_views (map (λ v. v.view) rows) name c).1)) s)
  λ s. quietly (restore_bases (filter (λ b. b.branch_name == name) s.branch_base)) s

restore_found : RowOrder → String → Option MetaRow → M Unit
unfolding restore_all
restore_found order name none = pure tt
restore_found order name (some meta) = restore_all order name meta

unfoldable pub hydrate : RowOrder → String → M Unit
unfolding restore_found mem
hydrate order name s =
    if mem name s.hydrated
    then (ok tt, s)
    else restore_found order name (find (λ (r : MetaRow). r.workspace_name == name) s.workspaces)
        (record s { hydrated = s.hydrated ++ name ∷ [] })

abbrev has_children : String → Store → Bool
has_children name s = any (λ (b : BaseRow). b.parent_name == name) s.branch_base

abbrev forgotten : String → Store → Store
forgotten name s = record s {
  cfour = Workspaces.delete_workspace name s.cfour;
  hydrated = filter (λ n. not (n == name)) s.hydrated;
}

unfoldable pub delete_workspace : String → M Unit
unfolding delete_workspace_rows Workspaces.delete_workspace
delete_workspace name s =
    if has_children name s
    then (throws (is_parent name), s)
    else (ok tt, forgotten name (delete_workspace_rows name s))

unfoldable pub delete_branch : String → M Unit
unfolding delete_workspace_rows Workspaces.delete_workspace
delete_branch name s =
    if has_children name s
    then (throws (is_parent name), s)
    else (if any (λ (b : BaseRow). b.branch_name == name) s.branch_base
        then (ok tt, forgotten name (delete_workspace_rows name s))
        else (throws (not_a_branch name), s))
