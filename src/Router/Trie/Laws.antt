-- ===== src/Router/Trie/Laws.antt =====
-- A trie as the table of its patterns: what `insertTrie` adds to what `matchTrie` finds.
use noware.Prelude.{
  String, Bool, true, false, not, ◌&&◌, ◌||◌, ◌≡◌, refl, sym, ◌∙◌, inl, inr, Option, none, some,
  List, [], ◌∷◌, if◌then◌else◌, ◌==◌, get_or, arith, eq_iff, eq_refl, String-cases,
}
use mathlib.Core.Path.{subst}
use noware.Router.Paths.{Segment, literal, param, wildcard}
use noware.Router.Trie.{
  Node, node, Children, no_children, child, find, put, new_child, key_of, insert_trie,
}

-- A pattern against the segments of a path, as the trie reads them: a wildcard at the end takes one
-- segment or more, and one before the end only a segment `*`.
unfoldable pub fits : List Segment → List String → Bool
fits [] [] = true
fits [] (s ∷ rest) = false
fits (p ∷ ps) [] = false
fits (literal t ∷ ps) (s ∷ rest) = let later = fits ps rest in t == s && later
fits (param _ ∷ ps) (s ∷ rest) = fits ps rest
fits (wildcard _ ∷ []) (s ∷ rest) = true
fits (wildcard _ ∷ p ∷ ps) (s ∷ rest) = let later = fits (p ∷ ps) rest in "*" == s && later

-- A parameter has a name, and a literal is no key of a parameter or a wildcard.
abbrev pub IsProper : Segment → Type 0
IsProper (literal s) = ((s == ":") ≡ false) × ((s == "*") ≡ false)
IsProper (param name) = (name == "") ≡ false
IsProper (wildcard _) = Unit

abbrev pub AllProper : List Segment → Type 0
AllProper [] = Unit
AllProper (s ∷ ss) = IsProper s × AllProper ss

abbrev pub under : {A : Type 0} → Bool → Option A → (A → Bool) → Bool
under d none f = d
under d (some a) f = f a

module _ {E : Type 0} where
  pub find-put :
      (k j : String) (n : Node E) (c : Children E)
      → find j (put k n c) ≡ (if k == j then some n else find j c)
  unfolding find put
  find-put k j n no_children = refl
  find-put k j n (child i m c) =
      ground (arith, eq_iff k j, eq_iff i k, eq_iff i j, find-put k j n c)

  abbrev pub entry_of : Node E → Option E
  entry_of (node _ _ _ e) = e

  abbrev pub children_of : Node E → Children E
  children_of (node c _ _ _) = c

  abbrev pub name_of : Node E → Bool
  name_of (node _ none _ _) = false
  name_of (node _ (some p) _ _) = not (p == "")

  -- Some entry that the walk may come to satisfies `P`.
  module _ (P : E → Bool) where
    unfoldable pub reaches : List String → Node E → Bool
    unfolding find
    reaches [] (node _ _ _ e) = under false e P
    reaches (s ∷ rest) (node c _ _ _) =
        under false (find "*" c) (λ n. under false (entry_of n) P)
        || under false (find s c) (reaches rest)
        || under false (find ":" c) (λ n. name_of n && reaches rest n)

  -- Every child for a parameter has a name.
  abbrev mutual
    pub IsNamed : Node E → Type 0
    IsNamed (node c _ _ _) = AllNamed c

    pub AllNamed : Children E → Type 0
    AllNamed no_children = Unit
    AllNamed (child k n rest) = ((k == ":") ≡ true → name_of n ≡ true) × IsNamed n × AllNamed rest

  abbrev pub NamedAt : String → Option (Node E) → Type 0
  NamedAt k none = Unit
  NamedAt k (some n) = ((k == ":") ≡ true → name_of n ≡ true) × IsNamed n

  pub find-IsNamed : (k : String) (c : Children E) → AllNamed c → NamedAt k (find k c)
  unfolding find
  find-IsNamed k no_children h = tt
  find-IsNamed k (child j m c) h = elim (String-cases j k) [
    | inl same ↦ subst (λ i. NamedAt i (find i (child j m c))) same (rw (eq_refl j) (h.0, h.1))
    | inr other ↦ rw other (find-IsNamed k c h.2)
  ]

  put-IsNamed :
      (k : String) (n : Node E) (c : Children E)
      → NamedAt k (some n)
      → AllNamed c
      → AllNamed (put k n c)
  unfolding put
  put-IsNamed k n no_children named h = (named.0, named.1, tt)
  put-IsNamed k n (child j m c) named h = elim (String-cases j k) [
    | inl same ↦
        subst (λ i. AllNamed (put i n (child j m c))) same
          (rw (eq_refl j) ((λ e. named.0 (rw (sym same) e)), named.1, h.2))
    | inr other ↦ rw other (h.0, h.1, put-IsNamed k n c named h.2)
  ]

  pub name_of-insert_trie :
      (ps : List Segment) (e : E) (n : Node E) → name_of (insert_trie ps e n) ≡ name_of n
  unfolding insert_trie
  name_of-insert_trie [] e (node c none w x) = refl
  name_of-insert_trie [] e (node c (some p) w x) = refl
  name_of-insert_trie (s ∷ ps) e (node c none w x) = refl
  name_of-insert_trie (s ∷ ps) e (node c (some p) w x) = refl

  pub next-NamedAt :
      (s : Segment) (o : Option (Node E))
      → IsProper s
      → NamedAt (key_of s) o
      → NamedAt (key_of s) (some (get_or o (new_child s)))
  unfolding key_of new_child
  next-NamedAt (literal s) none h k = ((λ e. ground (arith, e, h.0)), tt)
  next-NamedAt (param name) none h k = ((λ e. rw h refl), tt)
  next-NamedAt (wildcard name) none h k = ((λ e. ground (arith, e)), tt)
  next-NamedAt s (some n) h k = k

  pub insert_trie-IsNamed :
      (ps : List Segment) (e : E) (n : Node E)
      → AllProper ps
      → IsNamed n
      → IsNamed (insert_trie ps e n)
  unfolding insert_trie
  insert_trie-IsNamed [] e (node c p w x) h k = k
  insert_trie-IsNamed (s ∷ ps) e (node c p w x) h k =
      let next = next-NamedAt s (find (key_of s) c) h.0 (find-IsNamed (key_of s) c k) in
      put-IsNamed (key_of s) _ c
        (
          (λ colon. name_of-insert_trie ps e _ ∙ next.0 colon),
          insert_trie-IsNamed ps e _ h.1 next.1,
        )
        k
