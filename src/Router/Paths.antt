-- ===== src/Router/Paths.antt =====
-- Paths of packages/router/src/index.ts: `normalizePath`, `extractParamNames` and the segments of a
-- pattern, character by character.
use Prim.Native.Char.{Char, code}
use noware.Prelude.{
  String, Bool, not, List, [], ◌∷◌, ◌++◌, map, filter, nat_eq, if◌then◌else◌, ◌==◌,
}

-- The codes of `/`, `:` and `*`.
abbrev is_slash : Char → Bool
is_slash c = nat_eq (code c) 47

abbrev is_colon : Char → Bool
is_colon c = nat_eq (code c) 58

abbrev is_star : Char → Bool
is_star c = nat_eq (code c) 42

abbrev without_end : String → String
without_end String.[] = ""
without_end (String.◌∷◌ c String.[]) = if is_slash c then "" else String.◌∷◌ c ""
without_end (String.◌∷◌ c (String.◌∷◌ d s)) = String.◌∷◌ c (without_end (String.◌∷◌ d s))

-- A slash at the end goes, unless it is the whole path.
abbrev trimmed : String → String
trimmed String.[] = ""
trimmed (String.◌∷◌ c String.[]) = String.◌∷◌ c ""
trimmed (String.◌∷◌ c (String.◌∷◌ d s)) = String.◌∷◌ c (without_end (String.◌∷◌ d s))

abbrev rooted : String → String
rooted String.[] = "/"
rooted (String.◌∷◌ c s) = if is_slash c then String.◌∷◌ c s else String.◌∷◌ "/" (String.◌∷◌ c s)

unfoldable pub normalize_path : String → String
normalize_path path = rooted (trimmed path)

abbrev onto_first : Char → List String → List String
onto_first c [] = String.◌∷◌ c "" ∷ []
onto_first c (w ∷ ws) = String.◌∷◌ c w ∷ ws

-- `split("/")`
unfoldable pub split : String → List String
split String.[] = "" ∷ []
split (String.◌∷◌ c s) = let rest = split s in if is_slash c then "" ∷ rest else onto_first c rest

-- `split("/").filter(Boolean)`
unfoldable pub path_segments : String → List String
unfolding split
path_segments path = filter (λ s. not (s == "")) (split path)

pub data Segment : Type 0 where
  literal : String → Segment
  param : String → Segment
  wildcard : String → Segment

-- A segment starts with `:`, with `*`, or with neither.
unfoldable pub segment_of : String → Segment
segment_of String.[] = literal ""
segment_of (String.◌∷◌ c s) =
    if is_colon c then param s else if is_star c then wildcard s else literal (String.◌∷◌ c s)

unfoldable pub pattern_of : String → List Segment
unfolding segment_of path_segments
pattern_of path = map segment_of (path_segments path)

abbrev names_of : Segment → List String
names_of (literal _) = []
names_of (param n) = n ∷ []
names_of (wildcard n) = n ∷ []

abbrev all_names : List String → List String
all_names [] = []
all_names (s ∷ ss) = names_of (segment_of s) ++ all_names ss

unfoldable pub extract_param_names : String → List String
unfolding split segment_of
extract_param_names pattern = all_names (split pattern)
