-- ===== src/Router/Trie/Insert.antt =====
-- What a trie finds after `insertTrie`.
use noware.Prelude.{
  String, Bool, true, false, ◌&&◌, ◌||◌, ◌≡◌, refl, sym, ap, ◌∙◌, Option, none, some, List, [], ◌∷◌,
  if◌then◌else◌, ◌==◌, get_or, arith, eq_refl, inl, inr, String-cases,
}
use mathlib.Core.Path.{subst}
use noware.Router.Paths.{Segment, literal, param, wildcard}
use noware.Router.Trie.{Node, node, Children, find, put, new_child, key_of, insert_trie}
use noware.Router.Trie.Laws.{
  fits, IsProper, AllProper, under, find-put, entry_of, name_of, reaches, IsNamed, AllNamed,
  NamedAt, find-IsNamed, name_of-insert_trie, next-NamedAt,
}

module _ {E : Type 0} (P : E → Bool) where
  abbrev next : Segment → Option (Node E) → Node E
  next s o = get_or o (new_child s)

  reaches-next :
      (s : Segment) (o : Option (Node E)) (r : List String)
      → reaches P r (next s o) ≡ under false o (reaches P r)
  unfolding reaches find new_child
  reaches-next (literal _) none [] = refl
  reaches-next (literal _) none (t ∷ r) = refl
  reaches-next (param _) none [] = refl
  reaches-next (param _) none (t ∷ r) = refl
  reaches-next (wildcard _) none [] = refl
  reaches-next (wildcard _) none (t ∷ r) = refl
  reaches-next s (some n) r = refl

  -- What a walk comes to at the children for `*`, for the segment and for `:`.
  looks : Option (Node E) → Option (Node E) → Option (Node E) → List String → Bool
  looks star own colon r =
      under false star (λ m. under false (entry_of m) P)
      || under false own (reaches P r)
      || under false colon (λ m. name_of m && reaches P r m)

  reaches-node :
      (t : String) (r : List String) (c : Children E) (p w : Option String) (x : Option E)
      → reaches P (t ∷ r) (node c p w x) ≡ looks (find "*" c) (find t c) (find ":" c) r
  unfolding reaches looks
  reaches-node t r c p w x = refl

  abbrev replaced : String → String → Node E → Children E → Option (Node E)
  replaced k j n c = if k == j then some n else find j c

  reaches-put :
      (k t : String) (n : Node E) (c : Children E) (p w : Option String) (x : Option E)
      (r : List String)
      → reaches P (t ∷ r) (node (put k n c) p w x)
        ≡ looks (replaced k "*" n c) (replaced k t n c) (replaced k ":" n c) r
  reaches-put k t n c p w x r =
      reaches-node t r (put k n c) p w x
      ∙ rw (find-put k "*" n c, find-put k t n c, find-put k ":" n c) refl

  module _ (n : Node E) (r : List String) (f : Bool) where
    looks_own :
        (star own colon : Option (Node E))
        → reaches P r n ≡ (f || under false own (reaches P r))
        → looks star (some n) colon r ≡ (f || looks star own colon r)
    unfolding looks
    looks_own star own colon h = ground (arith, h)

    -- A parameter's child has a name, so its test falls away.
    named_under :
        (o : Option (Node E))
        → NamedAt ":" o
        → under false o (λ m. name_of m && reaches P r m) ≡ under false o (reaches P r)
    named_under none h = refl
    named_under (some m) h = rw (h.0 refl) refl

    looks_colon :
        (star own colon : Option (Node E))
        → name_of n ≡ true
        → NamedAt ":" colon
        → reaches P r n ≡ (f || under false colon (reaches P r))
        → looks star own (some n) r ≡ (f || looks star own colon r)
    unfolding looks
    looks_colon star own colon named old h = ground (arith, named, named_under colon old, h)

    looks_both :
        (star colon : Option (Node E))
        → name_of n ≡ true
        → NamedAt ":" colon
        → reaches P r n ≡ (f || under false colon (reaches P r))
        → looks star (some n) (some n) r ≡ (f || looks star colon colon r)
    unfolding looks
    looks_both star colon named old h = ground (arith, named, named_under colon old, h)

    looks_taken :
        (own colon : Option (Node E))
        → under false (entry_of n) P ≡ true
        → looks (some n) own colon r ≡ true
    unfolding looks
    looks_taken own colon h = rw h refl

    looks_kept :
        (star own colon : Option (Node E))
        → under false (entry_of n) P ≡ under false star (λ m. under false (entry_of m) P)
        → looks (some n) own colon r ≡ looks star own colon r
    unfolding looks
    looks_kept star own colon h = rw h refl

  module _ (e : E) (holds : P e ≡ true) where
    abbrev Added : List Segment → Node E → List String → Type 0
    Added ps n path = reaches P path (insert_trie ps e n) ≡ (fits ps path || reaches P path n)

    abbrev Adds : List Segment → Type 0
    Adds ps = (n : Node E) → IsNamed n → (path : List String) → Added ps n path

    -- The child that a segment leads to, after the rest was inserted there.
    abbrev grown : Segment → List Segment → Children E → Node E
    grown s ps c = insert_trie ps e (next s (find (key_of s) c))

    below :
        (s : Segment) (ps : List Segment) (c : Children E) (r : List String)
        → IsProper s
        → Adds ps
        → NamedAt (key_of s) (find (key_of s) c)
        → reaches P r (grown s ps c) ≡ (fits ps r || under false (find (key_of s) c) (reaches P r))
    below s ps c r proper ih named =
        ih (next s (find (key_of s) c)) (next-NamedAt s (find (key_of s) c) proper named).1 r
        ∙ ap (λ b. fits ps r || b) (reaches-next s (find (key_of s) c) r)

    -- What is left to show of a segment that leads to a child.
    abbrev Here : Segment → List Segment → Children E → String → List String → Type 0
    Here s ps c t r =
        looks (replaced (key_of s) "*" (grown s ps c) c) (replaced (key_of s) t (grown s ps c) c)
          (replaced (key_of s) ":" (grown s ps c) c) r
        ≡ (fits (s ∷ ps) (t ∷ r) || looks (find "*" c) (find t c) (find ":" c) r)

    Added-Here :
        (s : Segment) (ps : List Segment) (c : Children E) (p w : Option String) (x : Option E)
        (t : String) (r : List String)
        → Here s ps c t r
        → Added (s ∷ ps) (node c p w x) (t ∷ r)
    unfolding insert_trie
    Added-Here s ps c p w x t r h =
        reaches-put (key_of s) t (grown s ps c) c p w x r
        ∙ h
        ∙ ap (λ b. fits (s ∷ ps) (t ∷ r) || b) (sym (reaches-node t r c p w x))

    Here-literal :
        (s : String) (ps : List Segment) (c : Children E) (t : String) (r : List String)
        → IsProper (literal s)
        → reaches P r (grown (literal s) ps c) ≡ (fits ps r || under false (find s c) (reaches P r))
        → Here (literal s) ps c t r
    unfolding key_of fits
    Here-literal s ps c t r proper h =
        rw (proper.0, proper.1)
          (elim (String-cases s t) [
            | inl same ↦
                subst
                  (λ u.
                    looks (find "*" c) (replaced s u (grown (literal s) ps c) c) (find ":" c) r
                    ≡ ((s == u && fits ps r) || looks (find "*" c) (find u c) (find ":" c) r))
                  same (rw (eq_refl s) (looks_own (grown (literal s) ps c) r (fits ps r) _ _ _ h))
            | inr other ↦ rw other refl
          ])

    Here-param :
        (name : String) (ps : List Segment) (c : Children E) (t : String) (r : List String)
        → name_of (grown (param name) ps c) ≡ true
        → NamedAt ":" (find ":" c)
        → reaches P r (grown (param name) ps c)
          ≡ (fits ps r || under false (find ":" c) (reaches P r))
        → Here (param name) ps c t r
    unfolding key_of fits
    Here-param name ps c t r named old h = elim (String-cases ":" t) [
      | inl same ↦
          subst
            (λ u.
              looks (find "*" c) (replaced ":" u (grown (param name) ps c) c)
                (some (grown (param name) ps c)) r
              ≡ (fits ps r || looks (find "*" c) (find u c) (find ":" c) r))
            same (looks_both (grown (param name) ps c) r (fits ps r) _ _ named old h)
      | inr other ↦ rw other (looks_colon (grown (param name) ps c) r (fits ps r) _ _ _ named old h)
    ]

    entry_at_end : (n : Node E) → entry_of (insert_trie [] e n) ≡ some e
    unfolding insert_trie
    entry_at_end (node c p w x) = refl

    entry_below :
        (s : Segment) (ps : List Segment) (n : Node E)
        → entry_of (insert_trie (s ∷ ps) e n) ≡ entry_of n
    unfolding insert_trie
    entry_below s ps (node c p w x) = refl

    next_entry :
        (name : String) (o : Option (Node E))
        → under false (entry_of (next (wildcard name) o)) P
          ≡ under false o (λ m. under false (entry_of m) P)
    unfolding new_child
    next_entry name none = refl
    next_entry name (some n) = refl

    Here-wildcard_end :
        (name : String) (c : Children E) (t : String) (r : List String)
        → Here (wildcard name) [] c t r
    unfolding key_of fits
    Here-wildcard_end name c t r =
        looks_taken (grown (wildcard name) [] c) r true _ _
          (rw (entry_at_end (next (wildcard name) (find "*" c))) holds)

    Here-wildcard :
        (name : String) (q : Segment) (qs : List Segment) (c : Children E) (t : String)
        (r : List String)
        → reaches P r (grown (wildcard name) (q ∷ qs) c)
          ≡ (fits (q ∷ qs) r || under false (find "*" c) (reaches P r))
        → Here (wildcard name) (q ∷ qs) c t r
    unfolding key_of fits
    Here-wildcard name q qs c t r h =
        let n = grown (wildcard name) (q ∷ qs) c in
        looks_kept n r true (find "*" c) _ _
          (rw (entry_below q qs (next (wildcard name) (find "*" c))) (next_entry name (find "*" c)))
        ∙ elim (String-cases "*" t) [
          | inl same ↦
              subst
                (λ u.
                  looks (find "*" c) (replaced "*" u n c) (find ":" c) r
                  ≡ (("*" == u && fits (q ∷ qs) r) || looks (find "*" c) (find u c) (find ":" c) r))
                same (looks_own n r (fits (q ∷ qs) r) _ _ _ h)
          | inr other ↦ rw other refl
        ]

    here :
        (s : Segment) (ps : List Segment) (c : Children E) (t : String) (r : List String)
        → IsProper s
        → Adds ps
        → AllNamed c
        → Here s ps c t r
    unfolding key_of
    here (literal s) ps c t r proper ih named =
        Here-literal s ps c t r proper (below (literal s) ps c r proper ih (find-IsNamed s c named))
    here (param name) ps c t r proper ih named =
        let old = find-IsNamed ":" c named in
        Here-param name ps c t r
          (name_of-insert_trie ps e (next (param name) (find ":" c))
            ∙ (next-NamedAt (param name) (find ":" c) proper old).0 refl)
          old (below (param name) ps c r proper ih old)
    here (wildcard name) [] c t r proper ih named = Here-wildcard_end name c t r
    here (wildcard name) (q ∷ qs) c t r proper ih named =
        Here-wildcard name q qs c t r
          (below (wildcard name) (q ∷ qs) c r proper ih (find-IsNamed "*" c named))

    -- With an entry that satisfies `P` at a proper pattern, the trie comes to such an entry on the paths
    -- that fit the pattern and on those where it did before.
    pub insert_trie-reaches : (ps : List Segment) → AllProper ps → Adds ps
    unfolding insert_trie reaches fits
    insert_trie-reaches [] h (node c p w x) named [] = rw holds refl
    insert_trie-reaches [] h (node c p w x) named (t ∷ r) = refl
    insert_trie-reaches (literal s ∷ ps) h (node c p w x) named [] = refl
    insert_trie-reaches (param s ∷ ps) h (node c p w x) named [] = refl
    insert_trie-reaches (wildcard s ∷ ps) h (node c p w x) named [] = refl
    insert_trie-reaches (s ∷ ps) h (node c p w x) named (t ∷ r) =
        Added-Here s ps c p w x t r (here s ps c t r h.0 (insert_trie-reaches ps h.1) named)
