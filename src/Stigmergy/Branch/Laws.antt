-- ===== src/Stigmergy/Branch/Laws.antt =====
-- What a merge of a branch gives, and that nothing follows the end of a branch.
use noware.Prelude.{
  ℕ, String, ◌≡◌, refl, Option, none, some, List, [], ◌∷◌, ◌++◌, arith, Bool-cases, inl, inr,
}
use noware.Exec.{ok, throws}
use noware.Stigmergy.Branch.{
  active, Version, Branch, Error, Merged, version, new_branch, is_active, update, merge, abandon,
}

-- The operations, in any order.
pub data Reaches (b : Branch) : Branch → Type 0 where
  start : Reaches b b
  updates :
      {c : Branch} (content agent : String) (now : ℕ)
      → Reaches b c
      → Reaches b (update content agent now c).1
  merges : {c : Branch} → Reaches b c → Reaches b (merge c).1
  abandons : {c : Branch} → Reaches b c → Reaches b (abandon c)

abbrev pub last_content : List Version → Option String
last_content [] = none
last_content (v ∷ []) = some v.content
last_content (v ∷ w ∷ l) = last_content (w ∷ l)

last_content-append : (l : List Version) (v : Version) → last_content (l ++ v ∷ []) ≡ some v.content
last_content-append [] v = refl
last_content-append (a ∷ []) v = refl
last_content-append (a ∷ b ∷ l) v = last_content-append (b ∷ l) v

abbrev IsRecorded : Branch → Type 0
IsRecorded b = last_content b.versions ≡ some b.content

update-IsRecorded :
    (content agent : String) (now : ℕ) (b : Branch)
    → IsRecorded b
    → IsRecorded (update content agent now b).1
unfolding update
update-IsRecorded content agent now b h = elim (Bool-cases (is_active b.status)) [
  | inl e ↦ rw e (last_content-append b.versions (version content agent now))
  | inr e ↦ rw e h
]

merge-IsRecorded : (b : Branch) → IsRecorded b → IsRecorded (merge b).1
unfolding merge
merge-IsRecorded b h = ground (arith, h)

Reaches-IsRecorded : {b c : Branch} → IsRecorded b → Reaches b c → IsRecorded c
unfolding abandon
Reaches-IsRecorded h start = h
Reaches-IsRecorded h (updates content agent now r) =
    update-IsRecorded content agent now _ (Reaches-IsRecorded h r)
Reaches-IsRecorded h (merges r) = merge-IsRecorded _ (Reaches-IsRecorded h r)
Reaches-IsRecorded h (abandons r) = Reaches-IsRecorded h r

-- Whatever was done with a new branch, while it is active a merge succeeds, gives the content of its
-- last version, and ends the branch: a second merge throws.
pub merge-last_content :
    (id atom agent content base : String) (now : ℕ) (b : Branch)
    → Reaches (new_branch id atom agent content base now) b
    → b.status ≡ active
    → (m : Merged) × ((merge b).0 ≡ ok m)
      × (last_content m.versions ≡ some m.content)
      × ((merge (merge b).1).0 ≡ throws Error.not_active)
unfolding merge new_branch
merge-last_content id atom agent content base now b r h =
    rw h (_, refl, Reaches-IsRecorded refl r, refl)
