-- ===== src/WorkspaceDo/Hydrate/Imported.antt =====
-- A workspace that was imported comes back from the tables.
use noware.Prelude.{
  String, Bool, true, false, ◌&&◌, ◌≡◌, refl, ap, ◌∙◌, Option, some, List, [], ◌∷◌, ◌++◌, arith,
  map, any, mem, mem-cons, filter, All, ◌==◌, eq_iff, eq_refl, eq_comm, get,
}
use mathlib.Core.List.{append_assoc, append-nil}
use noware.Exec.{ok, ◌>>=◌, for_each}
use noware.Model.{Node, Relationship, Workspace}
use noware.Model.Rows.{node_to_row, relationship_to_row, export_rows, rows_to_workspace}
use noware.Model.Rows.RoundTrip.{IsExportable, rows_to_workspace-export_rows}
use noware.Cfour.{Event, Op}
use noware.WorkspaceDo.{Store, date_now}
use noware.WorkspaceDo.Sql.{insert, delete_where}
use noware.WorkspaceDo.Rows.{
  written, insert_node_row, insert_relationship_row, in_memory, upsert_workspace_meta,
}
use noware.WorkspaceDo.Persist.{insert_rows, persist_import, persist, persist_op}
use noware.WorkspaceDo.Hydrate.{RowOrder, stored_rows}
use mathlib.Core.Path.{subst}
use mathlib.Core.List.{Perm, Permᴰ}
use mathlib.Core.List.Perm
use mathlib.Core.List.Permᴰ
use noware.Model.Rows.{
  NodeRow, RelationshipRow, WorkspaceRows, select, person_from, relationship_from, a_person_kind,
}
use mathlib.Core.Logic.{∥∥₁_map}
use noware.Prelude.{Option-cases, inl, inr}
use noware.Model.{ElementKind}
use noware.WorkspaceDo.Hydrate.Claims.{IsUnique, filter-append, any-append}
use noware.WorkspaceDo.Hydrate.Granted.{append_event-SameClaims}

-- A table whose key is the workspace's name and an id.
module _ {R : Type 0} (name_of id_of : R → String) where
  abbrev same : R → R → Bool
  same a b = name_of a == name_of b && id_of a == id_of b

  abbrev Absent : List R → List R → Type 0
  Absent table = All λ r. any (same r) table ≡ false

  abbrev Named : String → List R → Type 0
  Named name = All λ r. (name_of r == name) ≡ true

  Absent-snoc :
      (x : R) (table rows : List R)
      → mem (id_of x) (map id_of rows) ≡ false
      → Absent table rows
      → Absent (table ++ x ∷ []) rows
  Absent-snoc x table [] fresh h = tt
  Absent-snoc x table (r ∷ rows) fresh (p, h) = (
    any-append (same r) table (x ∷ [])
        ∙ ground (
          arith,
          p,
          fresh,
          mem-cons (id_of x) (id_of r) (map id_of rows),
          eq_comm (id_of r) (id_of x),
        ),
    Absent-snoc x table rows (ground (arith, fresh, mem-cons (id_of x) (id_of r) (map id_of rows)))
        h,
  )

  absent_deleted :
      (name : String) (r : R) (table : List R)
      → (name_of r == name) ≡ true
      → any (same r) (delete_where (λ x. name_of x == name) table) ≡ false
  unfolding delete_where
  absent_deleted name r [] h = refl
  absent_deleted name r (x ∷ table) h = ground (
    arith,
    absent_deleted name r table h,
    h,
    eq_iff (name_of r) name,
    eq_iff (name_of r) (name_of x),
    eq_iff (name_of x) name,
  )

  Absent-deleted :
      (name : String) (table rows : List R)
      → Named name rows
      → Absent (delete_where (λ x. name_of x == name) table) rows
  Absent-deleted name table [] h = tt
  Absent-deleted name table (r ∷ rows) (p, h) =
      (absent_deleted name r table p, Absent-deleted name table rows h)

  gone :
      (name : String) (table : List R)
      → filter (λ r. name_of r == name) (delete_where (λ r. name_of r == name) table) ≡ []
  unfolding delete_where
  gone name [] = refl
  gone name (r ∷ table) = ground (arith, gone name table)

  selected :
      (name : String) (table rows : List R)
      → Named name rows
      → filter (λ r. name_of r == name) (delete_where (λ r. name_of r == name) table ++ rows) ≡ rows
  selected name table rows h =
      filter-append (λ r. name_of r == name) (delete_where (λ r. name_of r == name) table) rows
      ∙ rw (gone name table, all_named rows h) refl
    where
      all_named : (l : List R) → Named name l → filter (λ r. name_of r == name) l ≡ l
      all_named [] h = refl
      all_named (r ∷ l) (p, h) = rw (p, all_named l h) refl

  module _ (table : Store → List R) (put : List R → Store → Store)
      (read : (t : List R) (s : Store) → table (put t s) ≡ t)
      (overwrite : (t u : List R) (s : Store) → put t (put u s) ≡ put t s)
      (unchanged : (s : Store) → put (table s) s ≡ s) where
    fill :
        (rows : List R) (s : Store)
        → Absent (table s) rows
        → IsUnique (map id_of rows)
        → for_each rows (λ r s. written put (insert same r (table s)) s) s
          ≡ (ok tt, put (table s ++ rows) s)
    unfolding for_each insert ◌>>=◌
    fill [] s h u = rw (append-nil (table s), unchanged s) refl
    fill (r ∷ rows) s (p, h) (fresh, u) =
        let next = put (table s ++ r ∷ []) s in
        let reads = read (table s ++ r ∷ []) s in
        let absent : Absent (table next) rows = rw reads (Absent-snoc r (table s) rows fresh h) in
        rw p (
          fill rows next absent u
          ∙ ap (λ x. (ok tt, x))
              (rw (reads, overwrite (table s ++ r ∷ [] ++ rows) (table s ++ r ∷ []) s)
                (ap (λ t. put t s) (append_assoc (table s) (r ∷ []) rows))))

node_rows-Named :
    (name : String) (l : List Node)
    → Named (λ r. r.workspace_name) (λ r. r.id) name (map (node_to_row name) l)
unfolding node_to_row
node_rows-Named name [] = tt
node_rows-Named name (n ∷ l) = (eq_refl name, node_rows-Named name l)

relationship_rows-Named :
    (name : String) (l : List Relationship)
    → Named (λ r. r.workspace_name) (λ r. r.id) name (map (relationship_to_row name) l)
unfolding relationship_to_row
relationship_rows-Named name [] = tt
relationship_rows-Named name (r ∷ l) = (eq_refl name, relationship_rows-Named name l)

-- The rows of a workspace have different keys.
pub record IsKeyed (name : String) (ws : Workspace) : Type 0 where
  pub nodes : IsUnique (map (λ r. r.id) (export_rows name ws).nodes)
  pub relationships : IsUnique (map (λ r. r.id) (export_rows name ws).relationships)

module _ (name : String) (ws : Workspace) where
  abbrev cleared : Store → Store
  cleared s = record s {
    nodes = delete_where (λ r. r.workspace_name == name) s.nodes;
    relationships = delete_where (λ r. r.workspace_name == name) s.relationships;
  }

  abbrev swapped : Store → Store
  swapped s = record s {
    nodes = delete_where (λ r. r.workspace_name == name) s.nodes ++ (export_rows name ws).nodes;
    relationships =
        delete_where (λ r. r.workspace_name == name) s.relationships
        ++ (export_rows name ws).relationships;
  }

  insert_rows-swapped :
      (s : Store)
      → IsKeyed name ws
      → insert_rows (export_rows name ws) (cleared s) ≡ (ok tt, swapped s)
  unfolding insert_rows insert_node_row insert_relationship_row export_rows ◌>>=◌
  insert_rows-swapped s h =
      let rows = export_rows name ws in
      let first =
        fill (λ r. r.workspace_name) (λ r. r.id) (λ s. s.nodes) (λ t s. record s { nodes = t })
          (λ t s. refl) (λ t u s. refl) (λ s. refl) rows.nodes (cleared s)
          (Absent-deleted (λ r. r.workspace_name) (λ r. r.id) name s.nodes rows.nodes
            (node_rows-Named name _))
          h.nodes in
      let filled : Store = record (cleared s) { nodes = (swapped s).nodes } in
      let second =
        fill (λ r. r.workspace_name) (λ r. r.id) (λ s. s.relationships)
          (λ t s. record s { relationships = t }) (λ t s. refl) (λ t u s. refl) (λ s. refl)
          rows.relationships filled
          (Absent-deleted (λ r. r.workspace_name) (λ r. r.id) name s.relationships
            rows.relationships (relationship_rows-Named name _))
          h.relationships in
      rw (first, second) refl

  -- The rows of the workspace in the tables.
  abbrev rows_in : Store → WorkspaceRows
  rows_in s = record {
    nodes = filter (λ r. r.workspace_name == name) s.nodes;
    relationships = filter (λ r. r.workspace_name == name) s.relationships;
  }

  in-swapped :
      (t s : Store)
      → t.nodes ≡ (swapped s).nodes
      → t.relationships ≡ (swapped s).relationships
      → rows_in t ≡ export_rows name ws
  unfolding export_rows
  in-swapped t s nodes relationships =
      rw
        (
          nodes,
          relationships,
          selected (λ r. r.workspace_name) (λ r. r.id) name s.nodes (export_rows name ws).nodes
              (node_rows-Named name _),
          selected (λ r. r.workspace_name) (λ r. r.id) name s.relationships
              (export_rows name ws).relationships (relationship_rows-Named name _),
        )
        refl

  persist_import-rows :
      (s : Store)
      → get name s.cfour.workspaces ≡ some ws
      → IsKeyed name ws
      → (t : Store) × (persist_import name s ≡ (ok tt, t)) × (rows_in t ≡ export_rows name ws)
  unfolding persist_import upsert_workspace_meta date_now ◌>>=◌
  persist_import-rows s found h =
      let (r, u) = upsert_workspace_meta name (swapped s) in
      (
        u,
        rw (in_memory, found, insert_rows-swapped s h, in_memory, found) refl,
        in-swapped u s (rw (in_memory, found) refl) (rw (in_memory, found) refl),
      )

-- A SELECT gives every row once.
pub record IsOrder (order : RowOrder) : Type 0 where
  pub nodes : (l : List NodeRow) → Perm (order.of_nodes l) l
  pub relationships : (l : List RelationshipRow) → Perm (order.of_relationships l) l

-- The rows of a kind are the same in any order.
module _ {K : Type 0} (pick : ElementKind → Option K) where
  select-cons :
      (r : NodeRow) (l m : List NodeRow)
      → Permᴰ (select pick l) (select pick m)
      → Permᴰ (select pick (r ∷ l)) (select pick (r ∷ m))
  unfolding select
  select-cons r l m p = elim (Option-cases (pick r.kind)) [
    | inl e ↦ rw (e, select) p
    | inr (k, e) ↦ rw (e, select) (Permᴰ.cons refl p)
  ]

  select-swap :
      (a b : NodeRow) (l : List NodeRow) → Permᴰ (select pick (a ∷ b ∷ l)) (select pick (b ∷ a ∷ l))
  unfolding select
  select-swap a b l = elim (Option-cases (pick a.kind)) [
    | inl e ↦ elim (Option-cases (pick b.kind)) [
      | inl f ↦ rw (e, f, e, select) (Permᴰ.refl _)
      | inr (k, f) ↦ rw (e, f, e, select) (Permᴰ.refl _)
    ]
    | inr (k, e) ↦ elim (Option-cases (pick b.kind)) [
      | inl f ↦ rw (e, f, e, select) (Permᴰ.refl _)
      | inr (j, f) ↦ rw (e, f, e, select) (Permᴰ.swap refl refl)
    ]
  ]

  select-Permᴰ : {l m : List NodeRow} → Permᴰ l m → Permᴰ (select pick l) (select pick m)
  select-Permᴰ Permᴰ.nil = Permᴰ.refl _
  select-Permᴰ (Permᴰ.cons {a = a} {l₁ = l} {l₂ = m} e p) =
      subst (λ x. Permᴰ (select pick (a ∷ l)) (select pick (x ∷ m))) e
        (select-cons a l m (select-Permᴰ p))
  select-Permᴰ (Permᴰ.swap {a = a} {b = b} {a' = c} {l = l} e f) =
      subst (λ x. Permᴰ (select pick (a ∷ b ∷ l)) (select pick (c ∷ x ∷ l))) e
        (subst (λ x. Permᴰ (select pick (a ∷ b ∷ l)) (select pick (x ∷ a ∷ l))) f
          (select-swap a b l))
  select-Permᴰ (Permᴰ.trans p q) = Permᴰ.trans (select-Permᴰ p) (select-Permᴰ q)

-- What a cold start rebuilds of a workspace, whatever the order in which the rows are given: each
-- element and relationship has its row once, which names its parent; the people and relationships
-- are those of the workspace.
pub record Restores (name : String) (description : Option String) (ws : Workspace)
    (rows : WorkspaceRows) : Type 0 where
  pub nodes : Perm rows.nodes (export_rows name ws).nodes
  pub relationship_rows : Perm rows.relationships (export_rows name ws).relationships
  pub people : Perm (rows_to_workspace rows ws.name description).people ws.people
  pub relationships :
      Perm (rows_to_workspace rows ws.name description).relationships ws.relationships

module _ (order : RowOrder) (name : String) (description : Option String) (ws : Workspace)
    (t : Store) (law : IsOrder order) (h : rows_in name ws t ≡ export_rows name ws) where
  node_rows : Perm (stored_rows order name t).nodes (export_rows name ws).nodes
  unfolding stored_rows
  node_rows =
      subst (λ r. Perm (order.of_nodes (filter (λ r. r.workspace_name == name) t.nodes)) r.nodes) h
        (law.nodes _)

  relationship_rows :
      Perm (stored_rows order name t).relationships (export_rows name ws).relationships
  unfolding stored_rows
  relationship_rows =
      subst
        (λ r.
          Perm (order.of_relationships (filter (λ r. r.workspace_name == name) t.relationships))
            r.relationships)
        h (law.relationships _)

  stored_rows-Restores : IsExportable ws → Restores name description ws (stored_rows order name t)
  unfolding rows_to_workspace
  stored_rows-Restores exportable =
      let rebuilt = rows_to_workspace-export_rows name ws exportable description in
      record {
        nodes = node_rows;
        relationship_rows = relationship_rows;
        people =
            subst (Perm _) (ap (λ w. w.people) rebuilt)
              (Perm.map person_from (∥∥₁_map node_rows (select-Permᴰ a_person_kind)));
        relationships =
            subst (Perm _) (ap (λ w. w.relationships) rebuilt)
              (Perm.map relationship_from relationship_rows);
      }

-- The event of an import, of a workspace that is in memory and whose elements have different ids, as
-- have its relationships, none of the ids empty and every element with its parent named, is persisted
-- without an error, and a cold start, in whatever order the database gives the rows, reads exactly the
-- rows of the workspace, each with its parent and none from before the import, and rebuilds the same
-- people and relationships, up to their order.
pub persist-rows_to_workspace :
    (order : RowOrder) (e : Event) (ws : Workspace) (description : Option String) (d : Store)
    → IsOrder order
    → get e.workspace_name d.cfour.workspaces ≡ some ws
    → IsKeyed e.workspace_name ws
    → IsExportable ws
    → (t : Store) × (persist (record e { op = Op.import }) d ≡ (ok tt, t))
      × Restores e.workspace_name description ws (stored_rows order e.workspace_name t)
unfolding persist persist_op ◌>>=◌
persist-rows_to_workspace order e ws description d law found keyed exportable =
    let event : Event = record e { op = Op.import } in
    let name = e.workspace_name in
    let (logged, appended, same) = append_event-SameClaims event d in
    let there : get name logged.cfour.workspaces ≡ some ws =
      ap (λ c. get name c.workspaces) same.memory ∙ found in
    let (t, written, stored) = persist_import-rows name ws logged there keyed in
    (t, rw appended written, stored_rows-Restores order name description ws t law stored exportable)
