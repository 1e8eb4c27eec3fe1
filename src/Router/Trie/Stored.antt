-- ===== src/Router/Trie/Stored.antt =====
-- Where the entries of a trie stand, and that `matchTrie` returns one that stands where it walked.
use noware.Prelude.{
  String, ◌≡◌, refl, ◌⊎◌, inl, inr, Option, none, some, List, [], ◌∷◌, get_or, map, eq_refl,
  String-cases,
}
use mathlib.Core.Path.{subst}
use noware.Router.Paths.{Segment, literal, param, wildcard}
use noware.Router.Trie.{
  Node, node, Children, no_children, child, find, put, new_child, key_of, insert_trie,
  wildcard_entry, param_child, Match, or_match, with_param, match_trie,
}

-- The keys from the root that a walk along a path may have taken.
abbrev pub Walks : List String → List String → Type 0
Walks [] [] = Unit
Walks [] (s ∷ r) = ⊥
Walks (k ∷ ks) [] = ⊥
Walks (k ∷ ks) (s ∷ r) = ((k ≡ "*") × (ks ≡ [])) ⊎ ((k ≡ s) ⊎ (k ≡ ":")) × Walks ks r

module _ {E : Type 0} where
  abbrev mutual
    -- Every entry below a node stands, by the keys from it, where `R` says.
    pub Stored : (List String → E → Type 0) → Node E → Type 0
    Stored R (node c _ _ none) = StoredIn R c
    Stored R (node c _ _ (some e)) = R [] e × StoredIn R c

    pub StoredIn : (List String → E → Type 0) → Children E → Type 0
    StoredIn R no_children = Unit
    StoredIn R (child k n rest) = Stored (λ ks. R (k ∷ ks)) n × StoredIn R rest

  Stored-children :
      (R : List String → E → Type 0) (c : Children E) (p w : Option String) (x : Option E)
      → Stored R (node c p w x)
      → StoredIn R c
  Stored-children R c p w none h = h
  Stored-children R c p w (some e) h = h.1

  with_children :
      (R : List String → E → Type 0) (c d : Children E) (p w : Option String) (x : Option E)
      → Stored R (node c p w x)
      → StoredIn R d
      → Stored R (node d p w x)
  with_children R c d p w none h k = k
  with_children R c d p w (some e) h k = (h.0, k)

  abbrev StoredAt : (List String → E → Type 0) → String → Option (Node E) → Type 0
  StoredAt R k none = Unit
  StoredAt R k (some n) = Stored (λ ks. R (k ∷ ks)) n

  find-StoredAt :
      (R : List String → E → Type 0) (k : String) (c : Children E)
      → StoredIn R c
      → StoredAt R k (find k c)
  unfolding find
  find-StoredAt R k no_children h = tt
  find-StoredAt R k (child j n c) h = elim (String-cases j k) [
    | inl same ↦ subst (λ i. StoredAt R i (find i (child j n c))) same (rw (eq_refl j) h.0)
    | inr other ↦ rw other (find-StoredAt R k c h.1)
  ]

  put-StoredIn :
      (R : List String → E → Type 0) (k : String) (n : Node E) (c : Children E)
      → Stored (λ ks. R (k ∷ ks)) n
      → StoredIn R c
      → StoredIn R (put k n c)
  unfolding put
  put-StoredIn R k n no_children h hc = (h, tt)
  put-StoredIn R k n (child j m c) h hc = elim (String-cases j k) [
    | inl same ↦ rw (same, eq_refl k) (h, hc.1)
    | inr other ↦ rw other (hc.0, put-StoredIn R k n c h hc.1)
  ]

  next-Stored :
      (R : List String → E → Type 0) (s : Segment) (o : Option (Node E))
      → StoredAt R (key_of s) o
      → Stored (λ ks. R (key_of s ∷ ks)) (get_or o (new_child s))
  unfolding key_of new_child
  next-Stored R (literal s) none h = tt
  next-Stored R (param s) none h = tt
  next-Stored R (wildcard s) none h = tt
  next-Stored R s (some n) h = h

  pub insert_trie-Stored :
      (R : List String → E → Type 0) (ps : List Segment) (e : E) (n : Node E)
      → R (map key_of ps) e
      → Stored R n
      → Stored R (insert_trie ps e n)
  unfolding insert_trie
  insert_trie-Stored R [] e (node c p w x) here h = (here, Stored-children R c p w x h)
  insert_trie-Stored R (s ∷ ps) e (node c p w x) here h =
      let stored = Stored-children R c p w x h in
      with_children R c _ p w x h (
        put-StoredIn R (key_of s) _ c
          (insert_trie-Stored (λ ks. R (key_of s ∷ ks)) ps e _ here
            (next-Stored R s (find (key_of s) c) (find-StoredAt R (key_of s) c stored)))
          stored)

  -- An entry that stands somewhere along the path, if there is a match.
  abbrev pub FoundAt : (List String → E → Type 0) → List String → Match E → Type 0
  FoundAt R path none = Unit
  FoundAt R path (some (e, _)) = (ks : List String) × Walks ks path × R ks e

  or-FoundAt :
      (R : List String → E → Type 0) (path : List String) (a b : Match E)
      → FoundAt R path a
      → FoundAt R path b
      → FoundAt R path (or_match a b)
  or-FoundAt R path none b h k = k
  or-FoundAt R path (some x) b h k = h

  -- One more key in front.
  deeper :
      (R : List String → E → Type 0) (k s : String) (r : List String) (m : Match E)
      → (k ≡ s) ⊎ (k ≡ ":")
      → FoundAt (λ ks. R (k ∷ ks)) r m
      → FoundAt R (s ∷ r) m
  deeper R k s r none key h = tt
  deeper R k s r (some m) key (ks, walks, h) = (k ∷ ks, inr (key, walks), h)

  with_param-FoundAt :
      (R : List String → E → Type 0) (path : List String) (name s : String) (m : Match E)
      → FoundAt R path m
      → FoundAt R path (with_param name s m)
  with_param-FoundAt R path name s none h = tt
  with_param-FoundAt R path name s (some m) h = h

  module _ (r : List String)
      (ih : (R : List String → E → Type 0) (n : Node E) → Stored R n → FoundAt R r (match_trie r n))
      (R : List String → E → Type 0) where
    own_found :
        (s : String) (o : Option (Node E))
        → StoredAt R s o
        → FoundAt R (s ∷ r) (elim o [ none ↦ none | some n ↦ match_trie r n ])
    own_found s none h = tt
    own_found s (some n) h = deeper R s s r _ (inl refl) (ih (λ ks. R (s ∷ ks)) n h)

    param_found :
        (s : String) (o : Option (Node E))
        → StoredAt R ":" o
        → FoundAt R (s ∷ r) (elim (param_child o) [
          | none ↦ none
          | some (n, name) ↦ with_param name s (match_trie r n)
        ])
    param_found s none h = tt
    param_found s (some (node c none w x)) h = tt
    param_found s (some (node c (some p) w x)) h = elim (String-cases p "") [
      | inl same ↦ rw same tt
      | inr other ↦ rw other (
          with_param-FoundAt R (s ∷ r) p s _
            (deeper R ":" s r _ (inr refl) (ih (λ ks. R (":" ∷ ks)) (node c (some p) w x) h)))
    ]

    star_found :
        (s t : String) (o : Option (Node E)) (m : Match E)
        → StoredAt R "*" o
        → FoundAt R (s ∷ r) m
        → FoundAt R
            (s ∷ r)
            (elim (wildcard_entry o) [ some (e, name) ↦ some (e, (name, t) ∷ []) | none ↦ m ])
    star_found s t none m h k = k
    star_found s t (some (node c p w none)) m h k = k
    star_found s t (some (node c p w (some e))) m h k = ("*" ∷ [], inl (refl, refl), h.0)

  pub match_trie-FoundAt :
      (path : List String) (R : List String → E → Type 0) (n : Node E)
      → Stored R n
      → FoundAt R path (match_trie path n)
  unfolding match_trie
  match_trie-FoundAt [] R (node c p w none) h = tt
  match_trie-FoundAt [] R (node c p w (some e)) h = ([], tt, h.0)
  match_trie-FoundAt (s ∷ r) R (node c p w x) h =
      let stored = Stored-children R c p w x h in
      let ih = match_trie-FoundAt r in
      star_found r ih R s _ (find "*" c) _ (find-StoredAt R "*" c stored) (
        or-FoundAt R (s ∷ r) _ _ (own_found r ih R s (find s c) (find-StoredAt R s c stored))
          (param_found r ih R s (find ":" c) (find-StoredAt R ":" c stored)))
