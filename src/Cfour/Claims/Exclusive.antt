-- ===== src/Cfour/Claims/Exclusive.antt =====
-- Claims exclude one another: `claim` is granted for ids that no claim covers.
use noware.Prelude.{
  suc, String, true, false, ◌≡◌, ◌≢◌, refl, sym, ap, ◌∙◌, ◌↔◌, Option, none, some, List, [], ◌∷◌,
  ◌++◌, arith, inl, inr, Option-cases, Bool-cases, ◌==◌, eq_iff, eq_refl, All, set, has, has-cons,
  get-set, mem, mem-from_list, mem-append, mem-nil, ne_of_test, test_of_ne,
}
use mathlib.Core.Path.{subst}
use noware.Exec.{ok, ◌>>=◌}
use noware.Model.Collab.{Selection, Claim}
use noware.Cfour.{State, Event, Op, register_editor, date_now, random_uuid}
use noware.Cfour.Events.{notify, deliver, log_event}
use noware.Cfour.Claims.{
  Claims, claims_of, put_claims, claims_for, covers, holder_in, note_holder, overlapping, ids_of,
  is_empty, new_claim, set_claim, notify_claim, claim,
}
use noware.Cfour.Claims.Enforcement.{with_claims, claims_for_lem}

-- No claim covers the id.
abbrev pub IsFree : Claims → String → Type 0
IsFree claims id = holder_in id claims ≡ none

-- No id is covered by two claims.
abbrev pub IsExclusive : Claims → Type 0
IsExclusive [] = Unit
IsExclusive ((k, c) ∷ claims) =
    ((id : String) → covers id c ≡ true → IsFree claims id) × IsExclusive claims

overlapping-keeps :
    (ids : List String) (claims : Claims) (found : List (String × String))
    → is_empty found ≡ false
    → is_empty (overlapping ids claims found) ≡ false
unfolding overlapping note_holder
overlapping-keeps [] claims found h = h
overlapping-keeps (id ∷ ids) claims found h =
    overlapping-keeps ids claims _ (noted found (holder_in id claims) h)
  where
    grows :
        (found : List (String × String)) (x : String × String) → is_empty (found ++ x ∷ []) ≡ false
    grows [] x = refl
    grows (y ∷ l) x = refl

    noted :
        (found : List (String × String)) (o : Option Claim)
        → is_empty found ≡ false
        → is_empty (note_holder found o) ≡ false
    noted found none h = h
    noted found (some c) h = ground (arith, h, grows found (c.id, c.editor_id))

overlapping-empty_iff :
    (ids : List String) (claims : Claims)
    → (is_empty (overlapping ids claims []) ≡ true) ↔ All (IsFree claims) ids
unfolding overlapping note_holder
overlapping-empty_iff [] claims = (λ _. tt, λ _. refl)
overlapping-empty_iff (id ∷ ids) claims = elim (Option-cases (holder_in id claims)) [
  | inl free ↦
      let rest = overlapping-empty_iff ids claims in
      rw (free, overlapping, note_holder) (λ e. (refl, rest.0 e), λ h. rest.1 h.1)
  | inr (c, held) ↦
      let kept = overlapping-keeps ids claims ((c.id, c.editor_id) ∷ []) refl in
      rw (held, overlapping, note_holder) (λ e. cc, λ h. cc)
]

-- The state after the two draws of a granted claim.
abbrev drawn : String → State → State
drawn name s =
    let t = with_claims name s in
    record t { world = record t.world { reads = suc t.world.reads; draws = suc t.world.draws } }

abbrev pub granted : Selection → String → String → State → Claim
granted sel editor name s =
    let w = (with_claims name s).world in
    new_claim (w.uuids w.draws) (w.clock w.reads) sel editor name

claim-granted :
    (sel : Selection) (editor name : String) (s : State)
    → (editor == register_editor) ≡ false
    → is_empty (overlapping (ids_of sel) (claims_of name s) []) ≡ true
    → claim sel editor name s ≡ (
      ok (granted sel editor name s),
      notify_claim Op.claim name
          (granted sel editor name s)
          (set_claim name (granted sel editor name s) (drawn name s)),
    )
unfolding claim ◌>>=◌ date_now random_uuid
claim-granted sel editor name s h k = rw (h, claims_for_lem name s, k)

claim_reserved :
    (sel : Selection) (editor name : String) (s : State)
    → (editor == register_editor) ≡ true
    → (c : Claim) → (claim sel editor name s).0 ≢ ok c
unfolding claim ◌>>=◌
claim_reserved sel editor name s h c = rw h (λ e. cc)

claim_overlaps :
    (sel : Selection) (editor name : String) (s : State)
    → is_empty (overlapping (ids_of sel) (claims_of name s) []) ≡ false
    → (c : Claim) → (claim sel editor name s).0 ≢ ok c
unfolding claim ◌>>=◌
claim_overlaps sel editor name s k c = elim (Bool-cases (editor == register_editor)) [
  | inl h ↦ claim_reserved sel editor name s h c
  | inr h ↦ rw (h, claims_for_lem name s, k) (λ e. cc)
]

-- A claim is granted exactly when the editor is not the reserved system identity and no claim of the
-- workspace, the editor's own included, covers an id of the selection.
pub claim_lem :
    (sel : Selection) (editor name : String) (s : State)
    → ((c : Claim) × ((claim sel editor name s).0 ≡ ok c))
      ↔ ((editor ≢ register_editor) × All (IsFree (claims_of name s)) (ids_of sel))
claim_lem sel editor name s =
    let free = overlapping-empty_iff (ids_of sel) (claims_of name s) in
    (
      λ (c, e). (
        elim (Bool-cases (editor == register_editor)) [
          | inl h ↦ absurd (claim_reserved sel editor name s h c e)
          | inr h ↦ ne_of_test editor register_editor h
        ],
        elim (Bool-cases (is_empty (overlapping (ids_of sel) (claims_of name s) []))) [
          | inl k ↦ free.0 k
          | inr k ↦ absurd (claim_overlaps sel editor name s k c e)
        ],
      ),
      λ (h, k). (
        granted sel editor name s,
        rw (claim-granted sel editor name s (test_of_ne editor register_editor h) (free.1 k)),
      ),
    )

pub claims_of-notify :
    (name : String) (e : Event) (s : State) → claims_of name (notify e s) ≡ claims_of name s
unfolding claims_of notify deliver log_event
claims_of-notify name e s = ground arith

pub claims_of-put_claims :
    (name : String) (claims : Claims) (s : State)
    → claims_of name (put_claims name claims s) ≡ claims
unfolding claims_of put_claims
claims_of-put_claims name claims s = rw (get-set name name claims s.claims, eq_refl name)

claims_of-drawn : (name : String) (s : State) → claims_of name (drawn name s) ≡ claims_of name s
unfolding claims_of claims_for put_claims
claims_of-drawn name s = ground (arith, get-set name name [] s.claims, eq_refl name)

set-fresh :
    (k : String) (c : Claim) (claims : Claims)
    → has k claims ≡ false
    → set k c claims ≡ claims ++ (k, c) ∷ []
unfolding set
set-fresh k c [] h = refl
set-fresh k c ((j, d) ∷ claims) h = ground (arith, has-cons k j d claims, set-fresh k c claims)

IsFree-append :
    (id : String) (claims more : Claims)
    → IsFree claims id
    → IsFree more id
    → IsFree (claims ++ more) id
IsFree-append id [] more h k = k
IsFree-append id ((j, d) ∷ claims) more h k = ground (arith, IsFree-append id claims more)

pub IsFree-uncons :
    (id j : String) (d : Claim) (claims : Claims)
    → IsFree ((j, d) ∷ claims) id
    → (covers id d ≡ false) × IsFree claims id
IsFree-uncons id j d claims h = ground arith

IsExclusive-append :
    (claims : Claims) (k : String) (c : Claim)
    → IsExclusive claims
    → ((id : String) → covers id c ≡ true → IsFree claims id)
    → IsExclusive (claims ++ (k, c) ∷ [])
IsExclusive-append [] k c h free = (λ id _. refl, tt)
IsExclusive-append ((j, d) ∷ claims) k c h free = (
  λ id held. IsFree-append id claims ((k, c) ∷ []) (h.0 id held) (alone id held),
  IsExclusive-append claims k c h.1 (λ id held. (IsFree-uncons id j d claims (free id held)).1),
)
  where
    alone : (id : String) → covers id d ≡ true → IsFree ((k, c) ∷ []) id
    alone id held = elim (Bool-cases (covers id c)) [
      | inl both ↦ cc (held, (IsFree-uncons id j d claims (free id both)).0)
      | inr other ↦ rw other
    ]

mem-All :
    (claims : Claims) (id : String) (ids : List String)
    → All (IsFree claims) ids
    → mem id ids ≡ true
    → IsFree claims id
unfolding mem
mem-All claims id [] h m = cc
mem-All claims id (x ∷ ids) h m = elim (Bool-cases (x == id)) [
  | inl same ↦ subst (IsFree claims) ((eq_iff x id).0 same) h.0
  | inr other ↦ mem-All claims id ids h.1 (rw other at m)
]

covers-granted :
    (sel : Selection) (editor name : String) (s : State) (id : String)
    → covers id (granted sel editor name s) ≡ mem id (ids_of sel)
unfolding covers
covers-granted sel editor name s id = ground (
  arith,
  mem-from_list id [] sel.element_ids,
  mem-from_list id [] sel.relationship_ids,
  mem-append id sel.element_ids sel.relationship_ids,
  mem-nil id,
)

claims_of-granted :
    (sel : Selection) (editor name : String) (s : State) (c : Claim)
    → (claim sel editor name s).0 ≡ ok c
    → (c ≡ granted sel editor name s)
      × (claims_of name (claim sel editor name s).1 ≡ set c.id c (claims_of name s))
claims_of-granted sel editor name s c e =
    let (h, k) = (claim_lem sel editor name s).0 (c, e) in
    let run =
      claim-granted sel editor name s (test_of_ne editor register_editor h)
        ((overlapping-empty_iff (ids_of sel) (claims_of name s)).1 k) in
    let g = granted sel editor name s in
    let same : c ≡ g = cc (ap (λ r. r.0) run) in
    (
      same,
      rw (same, run)
          (claims_of-notify name _ (set_claim name g (drawn name s))
            ∙ claims_of-put_claims name _ (drawn name s)
            ∙ ap (set g.id g) (claims_of-drawn name s)),
    )

-- A granted claim covers exactly the ids of its selection, and if no id was covered by two claims of
-- the workspace before, none is after, where the drawn id names no other claim.
pub claim-IsExclusive :
    (sel : Selection) (editor name : String) (s : State) (c : Claim)
    → (claim sel editor name s).0 ≡ ok c
    → has c.id (claims_of name s) ≡ false
    → IsExclusive (claims_of name s)
    → ((id : String) → covers id c ≡ mem id (ids_of sel))
      × IsExclusive (claims_of name (claim sel editor name s).1)
claim-IsExclusive sel editor name s c e fresh h =
    let (same, stored) = claims_of-granted sel editor name s c e in
    let covered : (id : String) → covers id c ≡ mem id (ids_of sel) =
      λ id. ap (covers id) same ∙ covers-granted sel editor name s id in
    let (_, free) = (claim_lem sel editor name s).0 (c, e) in
    (
      covered,
      rw (stored, set-fresh c.id c (claims_of name s) fresh)
          (IsExclusive-append (claims_of name s) c.id c h
            (λ id held. mem-All (claims_of name s) id (ids_of sel) free (sym (covered id) ∙ held))),
    )
