-- ===== src/Router/Proper.antt =====
-- What the segments of a pattern are read as.
use Prim.Native.Char.{code}
use mathlib.Core.Path.{subst}
use noware.Prelude.{
  String, Bool, true, false, ◌≡◌, refl, sym, List, [], ◌∷◌, map, if◌then◌else◌, ◌==◌, inl, inr, All,
  nat_eq, String-cases,
}
use noware.Router.Paths.{
  Segment, literal, param, wildcard, normalize_path, path_segments, segment_of, pattern_of,
}
use noware.Router.Trie.Laws.{IsProper, AllProper}

abbrev pub HasName : Segment → Type 0
HasName (param name) = (name == "") ≡ false
HasName _ = Unit

by_test :
    (b d : Bool) (whole rest : String)
    → (whole == ":") ≡ false
    → (whole == "*") ≡ false
    → HasName (if b then param rest else if d then wildcard rest else literal whole)
    → IsProper (if b then param rest else if d then wildcard rest else literal whole)
by_test true d whole rest colon star h = h
by_test false true whole rest colon star h = tt
by_test false false whole rest colon star h = (colon, star)

segment_of-IsProper :
    (w : String)
    → (w == ":") ≡ false
    → (w == "*") ≡ false
    → HasName (segment_of w)
    → IsProper (segment_of w)
unfolding segment_of
segment_of-IsProper String.[] colon star h = (refl, refl)
segment_of-IsProper (String.◌∷◌ c w) colon star h =
    by_test (nat_eq (code c) 58) (nat_eq (code c) 42) (String.◌∷◌ c w) w colon star h

of_colon : HasName (segment_of ":") → IsProper (segment_of ":")
unfolding segment_of
of_colon h = h

of_star : HasName (segment_of "*") → IsProper (segment_of "*")
unfolding segment_of
of_star h = h

-- No part of a path is read as a literal `:` or `*`.
pub read-IsProper : (w : String) → HasName (segment_of w) → IsProper (segment_of w)
read-IsProper w h = elim (String-cases w ":") [
  | inl colon ↦ subst (λ v. HasName (segment_of v) → IsProper (segment_of v)) (sym colon) of_colon h
  | inr no_colon ↦ elim (String-cases w "*") [
    | inl star ↦ subst (λ v. HasName (segment_of v) → IsProper (segment_of v)) (sym star) of_star h
    | inr no_star ↦ segment_of-IsProper w no_colon no_star h
  ]
]

all_read-IsProper :
    (ws : List String) → All HasName (map segment_of ws) → AllProper (map segment_of ws)
all_read-IsProper [] h = tt
all_read-IsProper (w ∷ ws) h = (read-IsProper w h.0, all_read-IsProper ws h.1)

pub pattern-AllProper :
    (path : String)
    → All HasName (pattern_of (normalize_path path))
    → AllProper (pattern_of (normalize_path path))
unfolding pattern_of
pattern-AllProper path h = all_read-IsProper (path_segments (normalize_path path)) h
