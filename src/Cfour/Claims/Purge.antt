-- ===== src/Cfour/Claims/Purge.antt =====
-- What `_purgeRemovedFromClaims` leaves of the claims.
use noware.Prelude.{
  String, false, not, ◌&&◌, ◌≡◌, refl, ap, ◌∙◌, Option, none, some, List, [], ◌∷◌, arith, inl, inr,
  Bool-cases, ◌==◌, eq_iff, get-set, get-delete, has-cons, if◌then◌else◌, mem, exclude, mem-exclude,
  mem-nil, mem-cons, get, has, Distinct, set,
}
use noware.Exec.{ok, for_each, ◌>>=◌}
use noware.Model.Collab.{Claim}
use noware.Cfour.{State}
use noware.Cfour.Claims.{
  Claims, claims_of, release_one, exclude_all, purged, is_bare, purge_entry,
  purge_removed_from_claims,
}
use noware.Cfour.Claims.Exclusive.{claims_of-put_claims}
use noware.Cfour.Claims.Expiry.{release_one_lem}

mem-exclude_all :
    (x : String) (ids l : List String) → mem x (exclude_all ids l) ≡ (mem x l && not (mem x ids))
unfolding exclude_all
mem-exclude_all x [] l = rw (mem-nil x) (ground arith)
mem-exclude_all x (id ∷ ids) l =
    ground (arith, mem-exclude_all x ids (exclude id l), mem-exclude x id l, mem-cons x id ids)

module _ (ids rel_ids : List String) (name : String) where
  -- What becomes of an entry.
  abbrev pub left_of : Option Claim → Option Claim
  left_of none = none
  left_of (some c) = if is_bare (purged ids rel_ids c) then none else some (purged ids rel_ids c)

  entry_lem :
      (j : String) (c : Claim) (s : State)
      → ((purge_entry ids rel_ids name (j, c) s).0 ≡ ok tt)
        × ((k : String)
            → get k (claims_of name (purge_entry ids rel_ids name (j, c) s).1)
              ≡ (if j == k then left_of (some c) else get k (claims_of name s)))
  unfolding release_one ◌>>=◌
  entry_lem j c s =
      let left = purged ids rel_ids c in
      let claims = claims_of name s in
      elim (Bool-cases (is_bare left)) [
        | inl e ↦
            rw e (refl, λ k. ap (get k) (release_one_lem name j left s) ∙ get-delete j k claims)
        | inr e ↦ rw e (
          refl,
          λ k.
              ap (get k) (claims_of-put_claims name (set j left claims) s)
              ∙ get-set j k left claims,
        )
      ]

  -- The loop over a list of entries.
  after_loop : Claims → String → Option Claim → Option Claim
  after_loop l k current = if has k l then left_of (get k l) else current

  loop_step :
      (j k : String) (c : Claim) (l : Claims) (current : Option Claim)
      → has j l ≡ false
      → after_loop l k (if j == k then left_of (some c) else current)
        ≡ after_loop ((j, c) ∷ l) k current
  unfolding after_loop get
  loop_step j k c l current fresh = ground (arith, has-cons k j c l, eq_iff j k)

  loop_lem :
      (l : Claims) (s : State)
      → Distinct l
      → ((for_each l (purge_entry ids rel_ids name) s).0 ≡ ok tt)
        × ((k : String)
            → get k (claims_of name (for_each l (purge_entry ids rel_ids name) s).1)
              ≡ after_loop l k (get k (claims_of name s)))
  unfolding for_each ◌>>=◌ after_loop has get
  loop_lem [] s h = (refl, λ k. refl)
  loop_lem ((j, c) ∷ l) s h =
      let (done, at) = entry_lem j c s in
      let (rest_done, rest_at) = loop_lem l (purge_entry ids rel_ids name (j, c) s).1 h.1 in
      rw done (
        rest_done,
        λ k.
            rest_at k
            ∙ ap (after_loop l k) (at k)
            ∙ loop_step j k c l (get k (claims_of name s)) h.0,
      )

  after_own :
      (claims : Claims) (k : String) → after_loop claims k (get k claims) ≡ left_of (get k claims)
  unfolding after_loop has
  after_own claims k = ground arith

  -- After a purge a claim covers what it covered before, less the removed elements and relationships,
  -- and a claim that covers nothing any more is gone, where no two claims have one id.
  pub purge_removed_from_claims_lem :
      (s : State) (k : String)
      → Distinct (claims_of name s)
      → ((purge_removed_from_claims ids rel_ids name s).0 ≡ ok tt)
        × (get k (claims_of name (purge_removed_from_claims ids rel_ids name s).1)
            ≡ left_of (get k (claims_of name s)))
        × ((c : Claim) (x : String)
            → (mem x (purged ids rel_ids c).element_ids ≡ (mem x c.element_ids && not (mem x ids)))
              × (mem x (purged ids rel_ids c).relationship_ids
                  ≡ (mem x c.relationship_ids && not (mem x rel_ids))))
  unfolding purge_removed_from_claims purged
  purge_removed_from_claims_lem s k h =
      let (done, at) = loop_lem (claims_of name s) s h in
      (
        done,
        at k ∙ after_own (claims_of name s) k,
        λ c x. (mem-exclude_all x ids c.element_ids, mem-exclude_all x rel_ids c.relationship_ids),
      )
