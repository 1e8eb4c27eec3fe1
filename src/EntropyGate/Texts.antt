-- ===== src/EntropyGate/Texts.antt =====
-- The tests on texts of packages/entropy-gate: the three patterns, lengths in UTF-16 units, `includes`
-- and `trim().length === 0`.
use Prim.Native.Char.{Char, code}
use noware.Prelude.Strings.{between, is_one_of, white}
use noware.Prelude.{
  ℕ, ◌+◌, String, Bool, true, false, ◌&&◌, ◌||◌, List, [], ◌∷◌, leb, if◌then◌else◌,
}

abbrev digit : Char → Bool
digit = between 48 57

abbrev lower_letter : Char → Bool
lower_letter = between 97 122

abbrev upper_letter : Char → Bool
upper_letter = between 65 90

-- Above U+FFFF a character is two units.
unfoldable pub length : String → ℕ
length String.[] = 0
length (String.◌∷◌ c s) = (if leb (code c) 65535 then 1 else 2) + length s

unfoldable pub all_chars : (Char → Bool) → String → Bool
all_chars p String.[] = true
all_chars p (String.◌∷◌ c s) = let rest = all_chars p s in p c && rest

-- `/^[a-z0-9][a-z0-9\-/]*$/`
unfoldable pub is_branch : String → Bool
unfolding all_chars
is_branch String.[] = false
is_branch (String.◌∷◌ c s) =
    (lower_letter c || digit c)
    && all_chars (λ d. lower_letter d || digit d || is_one_of 45 d || is_one_of 47 d) s

abbrev repo_char : Char → Bool
repo_char c =
    lower_letter c
    || upper_letter c
    || digit c
    || is_one_of 45 c
    || is_one_of 95 c
    || is_one_of 46 c

abbrev not_empty : String → Bool
not_empty String.[] = false
not_empty (String.◌∷◌ c s) = true

abbrev repo_from : Bool → String → Bool
repo_from started String.[] = false
repo_from started (String.◌∷◌ c s) =
    let rest = repo_from true s in
    if is_one_of 47 c then started && not_empty s && all_chars repo_char s else repo_char c && rest

-- `/^[a-zA-Z0-9\-_.]+\/[a-zA-Z0-9\-_.]+$/`
unfoldable pub is_repo : String → Bool
unfolding all_chars
is_repo s = repo_from false s

abbrev hex : Char → Bool
hex c = digit c || between 97 102 c || between 65 70 c

abbrev groups : List ℕ → String → Bool
groups [] s = false
groups (ℕ.zero ∷ []) String.[] = true
groups (ℕ.zero ∷ []) (String.◌∷◌ c s) = false
groups (ℕ.zero ∷ n ∷ ns) String.[] = false
groups (ℕ.zero ∷ n ∷ ns) (String.◌∷◌ c s) = let rest = groups (n ∷ ns) s in is_one_of 45 c && rest
groups (ℕ.suc n ∷ ns) String.[] = false
groups (ℕ.suc n ∷ ns) (String.◌∷◌ c s) = let rest = groups (n ∷ ns) s in hex c && rest

-- `/^[0-9a-f]{8}-[0-9a-f]{4}-[0-9a-f]{4}-[0-9a-f]{4}-[0-9a-f]{12}$/i`
unfoldable pub is_uuid : String → Bool
is_uuid s = groups (8 ∷ 4 ∷ 4 ∷ 4 ∷ 12 ∷ []) s

-- `body.trim().length === 0`
unfoldable pub is_blank : String → Bool
unfolding all_chars
is_blank s = all_chars white s
