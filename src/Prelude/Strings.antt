-- ===== src/Prelude/Strings.antt =====
-- Tests on texts: `includes`, and what `\s` and `trim` take as white space.
use Prim.Native.Char.{Char, code}
use Prim.Native.Nat.{ℕ}
use Prim.Native.String.{String, ◌++◌}
use mathlib.Core.Bool.{Bool, true, false, ◌&&◌, ◌||◌}
use noware.Prelude.Tests.{leb, nat_eq, if◌then◌else◌}

abbrev pub between : ℕ → ℕ → Char → Bool
between a b c = leb a (code c) && leb (code c) b

abbrev pub is_one_of : ℕ → Char → Bool
is_one_of n c = nat_eq (code c) n

abbrev starts : String → String → Bool
starts String.[] s = true
starts (String.◌∷◌ c t) String.[] = false
starts (String.◌∷◌ c t) (String.◌∷◌ d s) = let rest = starts t s in nat_eq (code c) (code d) && rest

unfoldable pub includes : String → String → Bool
includes String.[] t = starts t String.[]
includes (String.◌∷◌ c s) t = let rest = includes s t in starts t (String.◌∷◌ c s) || rest

abbrev pub white : Char → Bool
white c =
    between 9 13 c
    || is_one_of 32 c
    || is_one_of 160 c
    || is_one_of 5760 c
    || between 8192 8202 c
    || is_one_of 8232 c
    || is_one_of 8233 c
    || is_one_of 8239 c
    || is_one_of 8287 c
    || is_one_of 12288 c
    || is_one_of 65279 c

abbrev dashed_from : Bool → String → String
dashed_from in_space String.[] = ""
dashed_from in_space (String.◌∷◌ c s) =
    let after_space = dashed_from true s in
    let after_char = dashed_from false s in
    if white c
    then (if in_space then after_space else "-" ++ after_space)
    else String.◌∷◌ c after_char

-- `replace(/\s+/g, "-")`
unfoldable pub dashed : String → String
dashed s = dashed_from false s
