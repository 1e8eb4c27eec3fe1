-- ===== src/WorkspaceDo/Sql.antt =====
-- The statements that `WorkspaceDO` executes, on one table.
use noware.Prelude.{
  String, Bool, not, ◌&&◌, Option, none, some, List, [], ◌∷◌, ◌++◌, any, filter, mem, update_first,
  if◌then◌else◌, ◌==◌,
}
use noware.WorkspaceDo.{Junction}

module _ {R : Type 0} where
  -- DELETE FROM table WHERE test
  unfoldable pub delete_where : (R → Bool) → List R → List R
  delete_where test = filter (λ r. not (test r))

  -- INSERT INTO table, where `same` compares primary keys; `none` when the key is taken.
  unfoldable pub insert : (R → R → Bool) → R → List R → Option (List R)
  insert same row table = if any (same row) table then none else some (table ++ row ∷ [])

  -- INSERT INTO table … ON CONFLICT DO UPDATE, where `updated` writes the new row's columns.
  unfoldable pub upsert : (R → R → Bool) → (R → R) → R → List R → List R
  upsert same updated row table =
      if any (same row) table then update_first (same row) updated table else table ++ row ∷ []

  -- ON CONFLICT DO NOTHING
  unfoldable pub insert_new : (R → R → Bool) → R → List R → List R
  insert_new same row table = if any (same row) table then table else table ++ row ∷ []

abbrev pub same_junction : Junction → Junction → Bool
same_junction a b = a.owner == b.owner && a.member == b.member

-- WHERE owner NOT IN (ids)
unfoldable pub drop_orphans : List String → List Junction → List Junction
unfolding delete_where
drop_orphans ids = delete_where λ j. not (mem j.owner ids)
