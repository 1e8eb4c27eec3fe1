-- ===== src/MergeReview/Resolver/Laws.antt =====
-- What the status of an atom's merge says, whatever the calls.
use noware.Prelude.{
  ℕ, String, Bool, true, false, ◌≡◌, refl, Option, some, [], ◌∷◌, ◌==◌, Bool-cases, inl, inr,
}
use noware.MergeReview.Resolver.{
  conflict, merged, MergeConflict, MergeResolution, Resolver, new_resolver, auto_merge,
  manual_merge, gate_merge, reject,
}

pub data Reaches (r : Resolver) : Resolver → Type 0 where
  start : Reaches r r
  auto_merges :
      {q : Resolver} (source target : String)
      → Reaches r q
      → Reaches r (auto_merge source target q).1
  manual_merges : {q : Resolver} (m : MergeResolution) → Reaches r q → Reaches r (manual_merge m q)
  gate_merges : {q : Resolver} (passed : Bool) → Reaches r q → Reaches r (gate_merge passed q).1
  rejects : {q : Resolver} (reason : String) → Reaches r q → Reaches r (reject reason q)

-- A merge that is done has a time; one in conflict has a single conflict, of two different texts.
pub record Says (r : Resolver) : Type 0 where
  pub timed : r.state.status ≡ merged → (t : ℕ) × (r.state.merged_at ≡ some t)
  pub differs :
      r.state.status ≡ conflict
      → (c : MergeConflict) × (r.state.conflicts ≡ some (c ∷ []))
        × ((c.source_value == c.target_value) ≡ false)

auto_merge-Says : (source target : String) (r : Resolver) → Says (auto_merge source target r).1
unfolding auto_merge
auto_merge-Says source target r = elim (Bool-cases (source == target)) [
  | inl e ↦ rw (auto_merge, e) (record { timed = λ _. (_, refl); differs = λ q. cc })
  | inr e ↦ rw (auto_merge, e) (record { timed = λ q. cc; differs = λ _. (_, refl, e) })
]

gate_merge-Says : (passed : Bool) (r : Resolver) → Says (gate_merge passed r).1
unfolding gate_merge
gate_merge-Says true r = record { timed = λ _. (_, refl); differs = λ q. cc }
gate_merge-Says false r = record { timed = λ q. cc; differs = λ q. cc }

-- Whatever is called on a new resolver: while its status is "merged" it has a time of merging, and
-- while it is "conflict" it lists one conflict, of two texts that differ.
pub new_resolver-Says :
    (id atom source : String) (target : Option String) (clock : ℕ → ℕ) (r : Resolver)
    → Reaches (new_resolver id atom source target clock) r
    → Says r
unfolding new_resolver manual_merge reject
new_resolver-Says id atom source target clock _ start = record {
  timed = λ q. cc;
  differs = λ q. cc;
}
new_resolver-Says id atom source target clock _ (auto_merges {q} a b h) = auto_merge-Says a b q
new_resolver-Says id atom source target clock _ (manual_merges m h) = record {
  timed = λ _. (_, refl);
  differs = λ q. cc;
}
new_resolver-Says id atom source target clock _ (gate_merges {q} passed h) =
    gate_merge-Says passed q
new_resolver-Says id atom source target clock _ (rejects reason h) = record {
  timed = λ q. cc;
  differs = λ q. cc;
}
