-- ===== src/Stigmergy/Branch/Tests.antt =====
-- A branch that was updated once.
use noware.Prelude.{◌≡◌, refl, some}
use noware.Exec.{ok, throws}
use noware.Stigmergy.Branch.{Branch, Merged, Error, new_branch, update, merge}
use noware.Stigmergy.Branch.Laws.{start, updates, last_content, merge-last_content}

abbrev updated : Branch
updated = (update "two" "ann" 2 (new_branch "b" "a" "ann" "one" "v0" 1)).1

merge-last_content_example :
    (m : Merged) × ((merge updated).0 ≡ ok m)
    × (last_content m.versions ≡ some m.content)
    × ((merge (merge updated).1).0 ≡ throws Error.not_active)
unfolding update new_branch
merge-last_content_example =
    merge-last_content "b" "a" "ann" "one" "v0" 1 updated (updates "two" "ann" 2 start) refl
