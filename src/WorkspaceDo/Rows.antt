-- ===== src/WorkspaceDo/Rows.antt =====
-- The rows that the methods of packages/workspace-do/src/index.ts write for a workspace, an element, a
-- relationship and a view.
use noware.Prelude.{String, Bool, true, false, ◌&&◌, Option, none, some, get, ◌==◌}
use noware.Exec.{ok, throws, modify, ◌>>=◌}
use noware.Model.{View, Workspace}
use noware.Model.Rows.{NodeRow, RelationshipRow}
use noware.WorkspaceDo.{Store, M, MetaRow, ViewRow, unique_constraint, not_in_memory, date_now}
use noware.WorkspaceDo.Sql.{insert, upsert, insert_new}

-- Writes a table, or throws where an INSERT found its key taken.
abbrev pub written : {T : Type 0} → (T → Store → Store) → Option T → M Unit
written put none s = (throws unique_constraint, s)
written put (some table) s = (ok tt, put table s)

abbrev pub same_meta : MetaRow → MetaRow → Bool
same_meta a b = a.workspace_name == b.workspace_name

abbrev pub same_node : NodeRow → NodeRow → Bool
same_node a b = a.workspace_name == b.workspace_name && a.id == b.id

abbrev pub same_relationship : RelationshipRow → RelationshipRow → Bool
same_relationship a b = a.workspace_name == b.workspace_name && a.id == b.id

abbrev pub same_view : ViewRow → ViewRow → Bool
same_view a b = a.workspace_name == b.workspace_name && a.view_id == b.view_id

-- `this.cfour.getWorkspace(name)` where the name is in memory.
unfoldable pub in_memory : String → M Workspace
unfolding get
in_memory name s = elim (get name s.cfour.workspaces) [
  | none ↦ (throws (not_in_memory name), s)
  | some ws ↦ (ok ws, s)
]

abbrev title_of : String → Option Workspace → String
title_of name none = name
title_of name (some ws) = ws.name

unfoldable pub ensure_workspace : String → M Unit
unfolding date_now insert_new get ◌>>=◌
ensure_workspace name = do
  created ← date_now
  updated ← date_now
  modify λ s. record s {
    workspaces =
        insert_new same_meta
          (record {
            workspace_name = name;
            title = title_of name (get name s.cfour.workspaces);
            description = none;
            created_at = created;
            updated_at = updated;
          })
          s.workspaces;
  }

unfoldable pub upsert_workspace_meta : String → M Unit
unfolding date_now upsert in_memory ◌>>=◌
upsert_workspace_meta name = do
  ws ← in_memory name
  created ← date_now
  updated ← date_now
  modify λ s. record s {
    workspaces =
        upsert same_meta
          (λ old. record old {
            title = ws.name;
            description = ws.description;
            updated_at = updated;
          })
          (record {
            workspace_name = name;
            title = ws.name;
            description = ws.description;
            created_at = created;
            updated_at = updated;
          })
          s.workspaces;
  }

-- `insertNodeRow`: the update leaves the key and the column `kind` as they are.
unfoldable pub insert_node_row : NodeRow → Bool → M Unit
unfolding insert upsert
insert_node_row row false s =
    written (λ t s. record s { nodes = t }) (insert same_node row s.nodes) s
insert_node_row row true s = (
  ok tt,
  record s { nodes = upsert same_node (λ old. record row { kind = old.kind }) row s.nodes },
)

unfoldable pub insert_relationship_row : RelationshipRow → Bool → M Unit
unfolding insert upsert
insert_relationship_row row false s =
    written (λ t s. record s { relationships = t }) (insert same_relationship row s.relationships) s
insert_relationship_row row true s =
    (ok tt, record s { relationships = upsert same_relationship (λ old. row) row s.relationships })

unfoldable pub insert_view_row : View → String → M Unit
unfolding date_now upsert ◌>>=◌
insert_view_row v name = do
  now ← date_now
  let row : ViewRow = record {
    workspace_name = name;
    view_id = v.id;
    kind = v.kind;
    title = v.title;
    description = v.description;
    scope_id = v.scope_id;
    view = v;
    updated_at = now;
  }
  modify λ s. record s { views = upsert same_view (λ old. row) row s.views }
