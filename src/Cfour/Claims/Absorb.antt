-- ===== src/Cfour/Claims/Absorb.antt =====
-- What `_absorbCreatedElement` does to the exclusion of claims.
use noware.Prelude.{
  String, false, ◌||◌, ◌≡◌, [], ◌∷◌, arith, inl, inr, Bool-cases, ◌==◌, eq_iff, include,
  mem-include,
}
use noware.Model.Collab.{Claim}
use noware.Cfour.Claims.{Claims, covers, absorb_in}
use noware.Cfour.Claims.Exclusive.{IsFree, IsExclusive, IsFree-uncons}

-- The claim with the new element.
abbrev taking : String → Claim → Claim
taking created c = record c { element_ids = include created c.element_ids }

covers-taking :
    (created x : String) (c : Claim) → covers x (taking created c) ≡ (created == x || covers x c)
unfolding covers
covers-taking created x c = ground (arith, mem-include x created c.element_ids)

module _ (parent created editor : String) where
  absorb_in-IsFree :
      (x : String) (claims : Claims)
      → IsFree claims x
      → (created == x) ≡ false
      → IsFree (absorb_in parent created editor claims) x
  unfolding absorb_in
  absorb_in-IsFree x [] h other = h
  absorb_in-IsFree x ((k, c) ∷ claims) h other =
      ground
        (arith, IsFree-uncons x k c claims h, covers-taking created x c, absorb_in-IsFree x claims)

  -- A new element that no claim covers may be absorbed: if no id was covered twice before, none is
  -- afterwards.
  pub absorb_in-IsExclusive :
      (claims : Claims)
      → IsFree claims created
      → IsExclusive claims
      → IsExclusive (absorb_in parent created editor claims)
  unfolding absorb_in
  absorb_in-IsExclusive [] free h = tt
  absorb_in-IsExclusive ((k, c) ∷ claims) free h =
      let (uncovered, free_rest) = IsFree-uncons created k c claims free in
      let rest = absorb_in-IsExclusive claims free_rest h.1 in
      elim (Bool-cases (covers parent c)) [
        | inl e ↦ elim (Bool-cases (c.editor_id == editor)) [
          | inl own ↦
              rw (e, own)
                (
                  λ x held.
                      ground (arith, covers-taking created x c, eq_iff created x, free_rest, h.0 x),
                  h.1,
                )
          | inr other ↦ rw (e, other) h
        ]
        | inr e ↦ rw e (
          λ x held.
              absorb_in-IsFree x claims (h.0 x held)
                (ground (arith, eq_iff created x, uncovered, held)),
          rest,
        )
      ]
