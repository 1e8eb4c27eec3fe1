-- ===== src/WorkspaceDo/Hydrate/Claims.antt =====
-- What a cold start gives back of the claims that were persisted.
use noware.Prelude.{
  String, Bool, true, false, ◌&&◌, ◌||◌, ◌≡◌, refl, sym, ap, ◌∙◌, List, [], ◌∷◌, ◌++◌, arith, map,
  any, mem, mem-append, mem-cons, mem-nil, include, from_list, filter, update_first, All,
  All-filter, ◌==◌, eq_iff, eq_refl, eq_comm, Bool-cases, inl, inr,
}
use mathlib.Core.List.{append_assoc, append-nil}
use noware.Model.Collab.{Claim}
use noware.WorkspaceDo.{ClaimRow, Junction}
use noware.WorkspaceDo.Hydrate.{add_members, add_element, add_relationship_id, joined}

-- No id of the list is repeated.
abbrev pub IsUnique : List String → Type 0
IsUnique [] = Unit
IsUnique (x ∷ xs) = (mem x xs ≡ false) × IsUnique xs

abbrev pub Apart : List String → List String → Type 0
Apart s xs = All (λ x. mem x s ≡ false) xs

Apart-snoc :
    (s : List String) (x : String) (xs : List String)
    → mem x xs ≡ false
    → Apart s xs
    → Apart (s ++ x ∷ []) xs
Apart-snoc s x [] h k = tt
Apart-snoc s x (y ∷ xs) h (p, k) = (
  ground (
    arith,
    h,
    p,
    mem-append y s (x ∷ []),
    mem-cons y x [],
    mem-nil y,
    mem-cons x y xs,
    eq_comm x y,
  ),
  Apart-snoc s x xs (ground (arith, h, mem-cons x y xs)) k,
)

pub from_list_unique : (s xs : List String) → IsUnique xs → Apart s xs → from_list s xs ≡ s ++ xs
unfolding from_list include
from_list_unique s [] h k = sym (append-nil s)
from_list_unique s (x ∷ xs) (fresh, h) (p, k) =
    rw p
      (from_list_unique (s ++ x ∷ []) xs h (Apart-snoc s x xs fresh k) ∙ append_assoc s (x ∷ []) xs)

module _ {A : Type 0} (p : A → Bool) where
  pub filter-append : (xs ys : List A) → filter p (xs ++ ys) ≡ filter p xs ++ filter p ys
  filter-append [] ys = refl
  filter-append (x ∷ xs) ys = ground (arith, filter-append xs ys)

  pub any-append : (xs ys : List A) → any p (xs ++ ys) ≡ (any p xs || any p ys)
  any-append [] ys = refl
  any-append (x ∷ xs) ys = ground (arith, any-append xs ys)

  update_first-miss :
      (f : A → A) (xs : List A) (c : A)
      → p c ≡ false
      → update_first p f (xs ++ c ∷ []) ≡ update_first p f xs ++ c ∷ []
  update_first-miss f [] c h = rw h refl
  update_first-miss f (x ∷ xs) c h = ground (arith, update_first-miss f xs c h)

  update_first-last :
      (f : A → A) (xs : List A) (c : A)
      → All (λ x. p x ≡ false) xs
      → p c ≡ true
      → update_first p f (xs ++ c ∷ []) ≡ xs ++ f c ∷ []
  update_first-last f [] c h k = rw k refl
  update_first-last f (x ∷ xs) c (q, h) k = rw (q, update_first-last f xs c h k) refl

abbrev pub owned_by : String → List String → List Junction
owned_by k = map λ m. record { owner = k; member = m }

-- The junction rows are of other claims.
abbrev pub Foreign : String → List Junction → Type 0
Foreign k = All λ j. (j.owner == k) ≡ false

-- The claims have other ids.
abbrev pub Others : String → List Claim → Type 0
Others k = All λ c. (c.id == k) ≡ false

module _ (add : String → Claim → Claim)
    (same_id : (m : String) (c : Claim) → (add m c).id ≡ c.id) where
  pub add_members-append :
      (js ks : List Junction) (cs : List Claim)
      → add_members add (js ++ ks) cs ≡ add_members add ks (add_members add js cs)
  unfolding add_members
  add_members-append [] ks cs = refl
  add_members-append (j ∷ js) ks cs = add_members-append js ks _

  pub add_members-miss :
      (js : List Junction) (cs : List Claim) (c : Claim)
      → Foreign c.id js
      → add_members add js (cs ++ c ∷ []) ≡ add_members add js cs ++ c ∷ []
  unfolding add_members
  add_members-miss [] cs c h = refl
  add_members-miss (j ∷ js) cs c (p, h) =
      let other : (c.id == j.owner) ≡ false = eq_comm c.id j.owner ∙ p in
      rw (update_first-miss (λ d. d.id == j.owner) (add j.member) cs c other)
        (add_members-miss js _ c h)

  update-Others :
      (k owner m : String) (cs : List Claim)
      → Others k cs
      → Others k (update_first (λ c. c.id == owner) (add m) cs)
  update-Others k owner m [] h = tt
  update-Others k owner m (c ∷ cs) (p, h) = elim (Bool-cases (c.id == owner)) [
    | inl e ↦ rw e (rw (same_id m c) p, h)
    | inr e ↦ rw e (p, update-Others k owner m cs h)
  ]

  pub add_members-Others :
      (k : String) (js : List Junction) (cs : List Claim)
      → Others k cs
      → Others k (add_members add js cs)
  unfolding add_members
  add_members-Others k [] cs h = h
  add_members-Others k (j ∷ js) cs h =
      add_members-Others k js _ (update-Others k j.owner j.member cs h)

  abbrev pub gather : List String → Claim → Claim
  gather [] c = c
  gather (m ∷ ms) c = gather ms (add m c)

  pub add_members-last :
      (k : String) (ms : List String) (cs : List Claim) (c : Claim)
      → c.id ≡ k
      → Others k cs
      → add_members add (owned_by k ms) (cs ++ c ∷ []) ≡ cs ++ gather ms c ∷ []
  unfolding add_members
  add_members-last k [] cs c e h = refl
  add_members-last k (m ∷ ms) cs c e h =
      let hit : (c.id == k) ≡ true = ap (λ i. i == k) e ∙ eq_refl k in
      ap (add_members add (owned_by k ms)) (update_first-last (λ d. d.id == k) (add m) cs c h hit)
      ∙ (add_members-last k ms cs (add m c) (same_id m c ∙ e) h)

-- What is gathered into a set.
pub gather-elements :
    (ms : List String) (c : Claim)
    → gather add_element (λ m d. refl) ms c ≡ record c { element_ids = from_list c.element_ids ms }
unfolding from_list
gather-elements [] c = refl
gather-elements (m ∷ ms) c = gather-elements ms (add_element m c)

pub gather-relationships :
    (ms : List String) (c : Claim)
    → gather add_relationship_id (λ m d. refl) ms c
      ≡ record c { relationship_ids = from_list c.relationship_ids ms }
unfolding from_list
gather-relationships [] c = refl
gather-relationships (m ∷ ms) c = gather-relationships ms (add_relationship_id m c)

-- The rows of the claim's workspace after its row was inserted.
module _ (name k : String) (row : ClaimRow) (named : row.workspace_name ≡ name)
    (keyed : row.id ≡ k) where
  pub joined-old :
      (claims : List ClaimRow) (js : List Junction)
      → Foreign k js
      → joined name (claims ++ row ∷ []) js ≡ joined name claims js
  unfolding joined
  joined-old claims [] h = refl
  joined-old claims (j ∷ js) (p, h) =
      let grown =
        any-append (λ (c : ClaimRow). c.id == j.owner && c.workspace_name == name) claims
          (row ∷ []) in
      let apart : (row.id == j.owner) ≡ false =
        ap (λ i. i == j.owner) keyed ∙ eq_comm k j.owner ∙ p in
      ground (arith, joined-old claims js h, grown, apart)

  pub joined-own :
      (claims : List ClaimRow) (ms : List String)
      → joined name (claims ++ row ∷ []) (owned_by k ms) ≡ owned_by k ms
  unfolding joined
  joined-own claims [] = refl
  joined-own claims (m ∷ ms) =
      let grown =
        any-append (λ (c : ClaimRow). c.id == k && c.workspace_name == name) claims (row ∷ []) in
      ground (
        arith,
        joined-own claims ms,
        grown,
        eq_iff row.id k,
        keyed,
        eq_iff row.workspace_name name,
        named,
      )

pub joined-append :
    (name : String) (claims : List ClaimRow) (js ks : List Junction)
    → joined name claims (js ++ ks) ≡ joined name claims js ++ joined name claims ks
unfolding joined
joined-append name claims js ks =
    filter-append (λ j. any (λ c. c.id == j.owner && c.workspace_name == name) claims) js ks

pub joined-Foreign :
    (name k : String) (claims : List ClaimRow) (js : List Junction)
    → Foreign k js
    → Foreign k (joined name claims js)
unfolding joined
joined-Foreign name k claims js h = All-filter _ _ js h
