-- ===== src/Router/Trie/Found.antt =====
-- What `matchTrie` returns, against the entries of the trie.
use noware.Prelude.{
  String, Bool, true, false, ◌&&◌, ◌||◌, ◌≡◌, refl, ◌∙◌, Option, none, some, List, [], ◌∷◌, arith,
  inl, inr, String-cases, is_some,
}
use noware.Router.Trie.{
  Node, node, find, wildcard_entry, param_child, Match, or_match, with_param, match_trie,
}
use noware.Router.Trie.Laws.{under, entry_of, name_of, reaches}

module _ {E : Type 0} where
  abbrev pub any_entry : E → Bool
  any_entry e = true

  is_some-or_match : (a b : Match E) → is_some (or_match a b) ≡ (is_some a || is_some b)
  is_some-or_match none b = refl
  is_some-or_match (some x) b = refl

  with_param_lem : (name s : String) (m : Match E) → is_some (with_param name s m) ≡ is_some m
  with_param_lem name s none = refl
  with_param_lem name s (some m) = refl

  module _ (r : List String)
      (ih : (n : Node E) → is_some (match_trie r n) ≡ reaches any_entry r n) where
    own_lem :
        (o : Option (Node E))
        → is_some (elim o [ none ↦ none | some n ↦ match_trie r n ])
          ≡ under false o (reaches any_entry r)
    own_lem none = refl
    own_lem (some n) = ih n

    param_lem :
        (s : String) (o : Option (Node E))
        → is_some (elim (param_child o) [
          | none ↦ none
          | some (n, name) ↦ with_param name s (match_trie r n)
        ])
          ≡ under false o (λ m. name_of m && reaches any_entry r m)
    param_lem s none = refl
    param_lem s (some (node c none w x)) = refl
    param_lem s (some (node c (some p) w x)) = elim (String-cases p "") [
      | inl same ↦ rw same refl
      | inr other ↦
          rw other
            (with_param_lem p s (match_trie r (node c (some p) w x)) ∙ ih (node c (some p) w x))
    ]

    star_lem :
        (s : String) (o : Option (Node E)) (m : Match E)
        → is_some (elim (wildcard_entry o) [ some (e, name) ↦ some (e, (name, s) ∷ []) | none ↦ m ])
          ≡ (under false o (λ n. under false (entry_of n) any_entry) || is_some m)
    star_lem s none m = refl
    star_lem s (some (node c p w none)) m = refl
    star_lem s (some (node c p w (some e))) m = refl

    walk_lem :
        (s t : String) (star own colon : Option (Node E))
        → is_some (elim (wildcard_entry star) [
          | some (e, name) ↦ some (e, (name, t) ∷ [])
          | none ↦
              or_match
                (elim own [ none ↦ none | some n ↦ match_trie r n ])
                (elim (param_child colon) [
                  | none ↦ none
                  | some (n, name) ↦ with_param name s (match_trie r n)
                ])
        ])
          ≡ (under false star (λ n. under false (entry_of n) any_entry)
              || under false own (reaches any_entry r)
              || under false colon (λ m. name_of m && reaches any_entry r m))
    walk_lem s t star own colon =
        star_lem t star _ ∙ rw (is_some-or_match, own_lem own, param_lem s colon) (ground arith)

  pub match_trie-reaches :
      (path : List String) (n : Node E) → is_some (match_trie path n) ≡ reaches any_entry path n
  unfolding match_trie reaches
  match_trie-reaches [] (node c p w none) = refl
  match_trie-reaches [] (node c p w (some e)) = refl
  match_trie-reaches (s ∷ r) (node c p w x) =
      walk_lem r (match_trie-reaches r) s _ (find "*" c) (find s c) (find ":" c)
