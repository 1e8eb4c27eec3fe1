-- ===== src/Cfour/Claims/Expiry.antt =====
-- Which claims `expireStaleClaims` and `releaseAllClaimsFor` take away, and which stay.
use noware.Prelude.{
  ℕ, suc, String, Bool, false, ◌≡◌, refl, ap, ◌∙◌, Option, none, some, List, [], ◌∷◌, map, arith,
  inl, inr, Bool-cases, ◌==◌, eq_iff, eq_refl, get-set, if◌then◌else◌, filter, mem, mem-nil,
  mem-cons, get, has, delete, get-delete, has-cons, Distinct,
}
use noware.Exec.{ok, ◌>>=◌, pure, for_each}
use noware.Model.Collab.{Claim}
use noware.Cfour.{State, M, date_now}
use noware.Cfour.Claims.{
  Claims, claims_of, claims_for, put_claims, release_one, release_if, is_stale, claim_threshold,
  sweep, expire_stale_claims, release_all_claims_for,
}
use noware.Cfour.Claims.Enforcement.{with_claims, claims_for_lem}
use noware.Cfour.Claims.Exclusive.{claims_of-notify, claims_of-put_claims}

-- The ids of the claims that pass the test.
abbrev pub chosen : (Claim → Bool) → Claims → List String
chosen test claims = map (λ e. e.0) (filter (λ e. test e.1) claims)

abbrev delete_all : List String → Claims → Claims
delete_all [] claims = claims
delete_all (k ∷ ks) claims = delete_all ks (delete k claims)

get-delete_all :
    (k : String) (ks : List String) (claims : Claims)
    → get k (delete_all ks claims) ≡ (if mem k ks then none else get k claims)
get-delete_all k [] claims = rw (mem-nil k)
get-delete_all k (j ∷ ks) claims =
    ground (arith, get-delete_all k ks (delete j claims), get-delete j k claims, mem-cons k j ks)

-- What is left of an entry.
abbrev pub spared : (Claim → Bool) → Option Claim → Option Claim
spared test none = none
spared test (some c) = if test c then none else some c

mem-chosen_absent :
    (test : Claim → Bool) (k : String) (claims : Claims)
    → has k claims ≡ false
    → mem k (chosen test claims) ≡ false
mem-chosen_absent test k [] h = mem-nil k
mem-chosen_absent test k ((j, c) ∷ claims) h = ground (
  arith,
  has-cons k j c claims,
  mem-chosen_absent test k claims,
  mem-cons k j (chosen test claims),
)

spared-get :
    (test : Claim → Bool) (k : String) (claims : Claims)
    → Distinct claims
    → (if mem k (chosen test claims) then none else get k claims) ≡ spared test (get k claims)
unfolding get
spared-get test k [] h = rw (mem-nil k)
spared-get test k ((j, c) ∷ claims) h = ground (
  arith,
  eq_iff j k,
  mem-cons k j (chosen test claims),
  spared-get test k claims h.1,
  mem-chosen_absent test k claims,
  h.0,
)

pub release_one_lem :
    (name id : String) (c : Claim) (s : State)
    → claims_of name (release_one name id c s).1 ≡ delete id (claims_of name s)
unfolding release_one ◌>>=◌
release_one_lem name id c s =
    claims_of-notify name _ (put_claims name (delete id (claims_of name s)) s)
    ∙ claims_of-put_claims name _ s

-- The loop deletes the chosen entries of the list that it goes over.
loop_lem :
    (test : Claim → Bool) (name : String) (l : Claims) (s : State)
    → ((for_each l (release_if name test) s).0 ≡ ok tt)
      × (claims_of name (for_each l (release_if name test) s).1
          ≡ delete_all (chosen test l) (claims_of name s))
unfolding for_each release_one ◌>>=◌
loop_lem test name [] s = (refl, refl)
loop_lem test name ((id, c) ∷ l) s = elim (Bool-cases (test c)) [
  | inl taken ↦
      let (done, left) = loop_lem test name l (release_one name id c s).1 in
      rw taken (done, left ∙ ap (delete_all (chosen test l)) (release_one_lem name id c s))
  | inr kept ↦ rw kept (loop_lem test name l s)
]

pub with_claims-claims_of :
    (name : String) (s : State) → claims_of name (with_claims name s) ≡ claims_of name s
unfolding claims_of claims_for put_claims
with_claims-claims_of name s = ground (arith, get-set name name [] s.claims, eq_refl name)

-- The loop over the claims of the workspace.
swept :
    (test : Claim → Bool) (name k : String) (s : State)
    → Distinct (claims_of name s)
    → get k
        (claims_of name (for_each (claims_of name s) (release_if name test) (with_claims name s)).1)
      ≡ spared test (get k (claims_of name s))
swept test name k s h =
    let claims = claims_of name s in
    ap (get k) (
      (loop_lem test name claims (with_claims name s)).1
      ∙ ap (delete_all (chosen test claims)) (with_claims-claims_of name s))
    ∙ get-delete_all k (chosen test claims) claims
    ∙ spared-get test k claims h

-- The time that `expireStaleClaims` reads.
abbrev pub reading : State → ℕ
reading s = s.world.clock s.world.reads

abbrev ticked : State → State
ticked s = record s { world = record s.world { reads = suc s.world.reads } }

claims_of-ticked : (name : String) (s : State) → claims_of name (ticked s) ≡ claims_of name s
unfolding claims_of
claims_of-ticked name s = refl

-- An action that returns, and then a value.
then_pure :
    {A : Type 0} (m : M Unit) (a : A) (s : State)
    → (m s).0 ≡ ok tt
    → (m >>= λ _. pure a) s ≡ (ok a, (m s).1)
unfolding ◌>>=◌
then_pure m a s h = rw h

abbrev pub expires : String → Option ℕ → State → Claim → Bool
expires name max_age s = is_stale (reading s) (claim_threshold name max_age s)

-- `expireStaleClaims` returns the ids of exactly the claims that were last seen longer ago than the
-- threshold, and leaves exactly the others, unchanged, where no two claims have one id.
pub expire_stale_claims_lem :
    (name : String) (max_age : Option ℕ) (s : State)
    → Distinct (claims_of name s)
    → ((expire_stale_claims name max_age s).0
        ≡ ok (chosen (expires name max_age s) (claims_of name s)))
      × ((k : String)
          → get k (claims_of name (expire_stale_claims name max_age s).1)
            ≡ spared (expires name max_age s) (get k (claims_of name s)))
unfolding expire_stale_claims sweep ◌>>=◌ date_now
expire_stale_claims_lem name max_age s h =
    let test = expires name max_age s in
    let u = ticked s in
    let claims = claims_of name u in
    let (done, _) = loop_lem test name claims (with_claims name u) in
    rw
      (
        claims_for_lem name u,
        then_pure (for_each claims (release_if name test)) (chosen test claims) _ done,
        claims_of-ticked name s,
      )
      (
        refl,
        λ k. rw (claims_of-ticked name s) at (swept test name k u (rw (claims_of-ticked name s) h)),
      )

-- `releaseAllClaimsFor` takes away exactly the editor's claims, where no two claims have one id.
pub release_all_claims_for_lem :
    (editor name k : String) (s : State)
    → Distinct (claims_of name s)
    → get k (claims_of name (release_all_claims_for editor name s).1)
      ≡ spared (λ c. c.editor_id == editor) (get k (claims_of name s))
unfolding release_all_claims_for ◌>>=◌
release_all_claims_for_lem editor name k s h =
    rw (claims_for_lem name s) (swept (λ c. c.editor_id == editor) name k s h)
