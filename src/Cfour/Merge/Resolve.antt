-- ===== src/Cfour/Merge/Resolve.antt =====
-- What resolutions do to a merge plan.
use noware.Prelude.{
  String, Bool, true, false, not, ◌&&◌, ◌||◌, ◌≡◌, ◌↔◌, refl, sym, Option, none, some, List, [],
  ◌∷◌, ◌++◌, map, arith, eq_iff, filter, All, mem, mem-append, mem-cons, mem-nil, from_list,
  mem-from_list, Bool-cases, inl, inr,
}
use noware.Exec.{ok}
use noware.Model.{Relationship, id_of}
use noware.Model.Collab.{Modified, DiffResult, WorkspaceDiff, MergeResolution, MergePlan}
use noware.Cfour.Claims.{is_empty}
use noware.Cfour.Merge.{
  entry_ids, touched_ids, resolved_ids, first_outside, resolve_checked, resolve_merge, dropped,
  filter_diff, with_resolutions,
}

first_outside-none_iff :
    (ids l : List String) → (first_outside ids l ≡ none) ↔ All (λ id. mem id ids ≡ true) l
unfolding first_outside
first_outside-none_iff ids [] = (λ _. tt, λ _. refl)
first_outside-none_iff ids (id ∷ l) = ground (arith, first_outside-none_iff ids l)

checked-ok_iff :
    (plan : MergePlan) (rs : List MergeResolution) (a b : Option String)
    → ((q : MergePlan) × (resolve_checked plan rs a b ≡ ok q)) ↔ ((a ≡ none) × (b ≡ none))
checked-ok_iff plan rs none none = (λ _. (refl, refl), λ _. (_, refl))
checked-ok_iff plan rs none (some b) = (λ (q, e). cc, λ (e, f). cc)
checked-ok_iff plan rs (some a) b = (λ (q, e). cc, λ (e, f). cc)

-- `resolveMerge` returns a plan exactly when every conflict has a resolution and every resolution
-- names a conflict.
pub resolve_merge_lem :
    (plan : MergePlan) (rs : List MergeResolution)
    → ((q : MergePlan) × (resolve_merge plan rs ≡ ok q)) ↔ (
        All (λ id. mem id (resolved_ids rs) ≡ true) plan.conflicts
        × All (λ id. mem id plan.conflicts ≡ true) (resolved_ids rs))
unfolding resolve_merge
resolve_merge_lem plan rs =
    let all_resolved = first_outside-none_iff (resolved_ids rs) plan.conflicts in
    let all_known = first_outside-none_iff plan.conflicts (resolved_ids rs) in
    let checked = checked-ok_iff plan rs _ _ in
    (
      λ h. let (a, b) = checked.0 h in (all_resolved.0 a, all_known.0 b),
      λ (a, b). checked.1 (all_resolved.1 a, all_known.1 b),
    )

kept_ids :
    {T : Type 0} (f : T → String) (drop : List String) (k : String) (l : List T)
    → mem k (map f (filter (λ x. not (mem (f x) drop)) l)) ≡ (mem k (map f l) && not (mem k drop))
kept_ids f drop k [] = rw (mem-nil k)
kept_ids f drop k (x ∷ l) = ground (
  arith,
  kept_ids f drop k l,
  mem-cons k (f x) (map f l),
  mem-cons k (f x) (map f (filter (λ x. not (mem (f x) drop)) l)),
  eq_iff (f x) k,
)

mem-three :
    (k : String) (xs ys zs : List String)
    → mem k (xs ++ ys ++ zs) ≡ (mem k xs || mem k ys || mem k zs)
mem-three k xs ys zs = rw (mem-append k (xs ++ ys) zs, mem-append k xs ys)

three_and : (a b c d : Bool) → (a && d || b && d || c && d) ≡ ((a || b || c) && d)
three_and a b c d = ground arith

filter_diff_ids :
    {T : Type 0} (f : T → String) (drop : List String) (k : String) (d : DiffResult T)
    → mem k (entry_ids f (filter_diff f drop d)) ≡ (mem k (entry_ids f d) && not (mem k drop))
filter_diff_ids f drop k d =
    rw
      (
        mem-three k (map f d.added) (map (λ m. m.id) d.modified) (map f d.removed),
        mem-three k (map f (filter_diff f drop d).added)
            (map (λ m. m.id) (filter_diff f drop d).modified)
            (map f (filter_diff f drop d).removed),
        kept_ids f drop k d.added,
        kept_ids (λ (m : Modified _). m.id) drop k d.modified,
        kept_ids f drop k d.removed,
      )
      (three_and (mem k (map f d.added)) _ _ _)

abbrev rel_id : Relationship → String
rel_id r = r.id

touched_lem :
    (k : String) (xs ys : List String) → mem k (from_list [] (xs ++ ys)) ≡ (mem k xs || mem k ys)
touched_lem k xs ys = rw (mem-from_list k [] (xs ++ ys), mem-nil k, mem-append k xs ys)

empty_lem : (l : List String) → is_empty l ≡ true → l ≡ []
empty_lem [] h = refl
empty_lem (x ∷ l) h = cc

and_true : (b : Bool) → (b && not false) ≡ b
and_true b = ground arith

or_and : (a b c : Bool) → (a && c || b && c) ≡ ((a || b) && c)
or_and a b c = ground arith

-- Exactly the changes of ids that are resolved to the target side are dropped.
pub touched_ids-with_resolutions :
    (d : WorkspaceDiff) (rs : List MergeResolution) (k : String)
    → mem k (touched_ids (with_resolutions d rs))
      ≡ (mem k (touched_ids d) && not (mem k (dropped rs)))
unfolding with_resolutions touched_ids
touched_ids-with_resolutions d rs k = elim (Bool-cases (is_empty (dropped rs))) [
  | inl e ↦ rw (e, empty_lem (dropped rs) e, mem-nil k) (sym (and_true (mem k (touched_ids d))))
  | inr e ↦
      rw
        (
          e,
          touched_lem k (entry_ids id_of d.nodes) (entry_ids rel_id d.relationships),
          touched_lem k (entry_ids id_of (filter_diff id_of (dropped rs) d.nodes))
              (entry_ids rel_id (filter_diff rel_id (dropped rs) d.relationships)),
          filter_diff_ids id_of (dropped rs) k d.nodes,
          filter_diff_ids rel_id (dropped rs) k d.relationships,
        )
        (or_and (mem k (entry_ids id_of d.nodes)) (mem k (entry_ids rel_id d.relationships))
          (not (mem k (dropped rs))))
]
