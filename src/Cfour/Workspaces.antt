-- ===== src/Cfour/Workspaces.antt =====
-- Workspaces by name: `resetWorkspace`, `getWorkspace`, `deleteWorkspace`, `getWorkspaceNames`,
-- `import`, `exportRows`, `importRows`, `branchWorkspace` and the lineage that it records.
use noware.Prelude.{
  String, Option, none, some, List, [], if◌then◌else◌, ◌==◌, get, set, delete, has, keys, get_or,
}
use noware.Exec.{ok, throws, ◌>>=◌, ◌>>◌, modify, pure}
use noware.Model.{Workspace}
use noware.Model.Rows.{WorkspaceRows, export_rows, rows_to_workspace}
use noware.Model.Collab.{BranchBase}
use noware.Cfour.{State, M, bare, reset, import, branch, a_branch, workspace_exists}
use noware.Cfour.Events.{notify}
use noware.Cfour.Batch.{capture}

-- `title || (…)`: an empty title counts as none.
abbrev default_title : String → String
default_title name = if name == "default" then "Framework Workspace" else name

abbrev title_or_default : Option String → String → String
title_or_default none name = default_title name
title_or_default (some title) name = if title == "" then default_title name else title

unfoldable pub fresh_workspace : String → Option String → Option String → Workspace
fresh_workspace name title description = record {
  name = title_or_default title name;
  description = description;
  people = [];
  software_systems = [];
  relationships = [];
  views = some [];
}

unfoldable pub put_workspace : String → Workspace → State → State
put_workspace name ws s = record s { workspaces = set name ws s.workspaces }

abbrev forget : String → State → State
forget name s = record s {
  claims = delete name s.claims;
  proposals = delete name s.proposals;
  branch_base = delete name s.branch_base;
}

unfoldable pub reset_workspace : String → Option String → Option String → State → State
reset_workspace name title description s =
    let captured = capture name (get name s.workspaces) s in
    let written = put_workspace name (fresh_workspace name title description) captured in
    notify (bare reset name) (forget name written)

-- A missing workspace is created on the way.
unfoldable pub get_workspace : String → M Workspace
get_workspace name s = elim (get name s.workspaces) [
  | none ↦ (ok (fresh_workspace name none none), reset_workspace name none none s)
  | some ws ↦ (ok ws, capture name (some ws) s)
]

unfoldable pub get_workspace_names : State → List String
get_workspace_names s = keys s.workspaces

unfoldable pub delete_workspace : String → State → State
delete_workspace name s = forget name (record s { workspaces = delete name s.workspaces })

-- `import` of a text that parses to `ws`.
unfoldable pub import_workspace : Workspace → String → State → State
import_workspace ws name s =
    notify (bare import name) (put_workspace name ws (capture name (get name s.workspaces) s))

-- `exportRows`
unfoldable pub export_workspace_rows : String → M WorkspaceRows
export_workspace_rows name = do ws ← get_workspace name; pure (export_rows name ws)

-- `importRows`; the title's default is the workspace's name.
unfoldable pub import_rows : WorkspaceRows → String → Option String → Option String → State → State
import_rows rows name title description s =
    let captured = capture name (get name s.workspaces) s in
    notify (bare import name)
      (put_workspace name (rows_to_workspace rows (get_or title name) description) captured)

abbrev record_base : String → BranchBase → State → State
record_base name base s = record s { branch_base = set name base s.branch_base }

branch_from : String → String → M Unit
branch_from from new_branch = do
  snapshot ← get_workspace from
  modify (record_base new_branch (record { parent = from; base_snapshot = snapshot }))
  modify (capture new_branch none)
  modify (put_workspace new_branch snapshot)
  modify (notify (record (bare branch new_branch) { payload = some (a_branch new_branch from) }))

-- The new branch starts as a copy of `from`, which is also recorded as its base revision.
unfoldable pub branch_workspace : String → String → M Unit
unfolding branch_from
branch_workspace from new_branch s =
    if has new_branch s.workspaces
    then (throws (workspace_exists new_branch), s)
    else branch_from from new_branch s

unfoldable pub get_branch_base : String → State → Option BranchBase
get_branch_base name s = get name s.branch_base

-- `restoreBranchBase`
unfoldable pub restore_branch_base : String → BranchBase → State → State
restore_branch_base = record_base
