-- ===== src/Prelude/Sets.antt =====
-- JavaScript's `Set` of strings: a list in insertion order, without repetitions where built by `include`.
use Prim.Native.String.{String}
use mathlib.Core.Path.{◌≡◌, refl}
use mathlib.Core.Bool.{Bool, false, not, ◌||◌}
use mathlib.Core.List.{List, [], ◌∷◌, ◌++◌}
use native.Mathlib.Omega.{arith}
use text.Mathlib.Text.{◌==◌}
use text.Mathlib.TextEquality.{eq_iff}
use noware.Prelude.Tests.{if◌then◌else◌}
use noware.Prelude.Lists.{filter}

unfoldable pub mem : String → List String → Bool
mem a [] = false
mem a (x ∷ xs) = x == a || mem a xs

-- set.add(a)
unfoldable pub include : String → List String → List String
unfolding mem
include a s = if mem a s then s else s ++ a ∷ []

-- set.delete(a)
unfoldable pub exclude : String → List String → List String
exclude a s = filter (λ x. not (x == a)) s

-- new Set(xs)
unfoldable pub from_list : List String → List String → List String
unfolding include
from_list s [] = s
from_list s (x ∷ xs) = from_list (include x s) xs

pub mem-append : (a : String) (xs ys : List String) → mem a (xs ++ ys) ≡ (mem a xs || mem a ys)
unfolding mem
mem-append a [] ys = refl
mem-append a (x ∷ xs) ys = ground (arith, mem-append a xs ys)

pub mem-include : (a b : String) (s : List String) → mem a (include b s) ≡ (b == a || mem a s)
unfolding mem include
mem-include a b s = ground (arith, mem-append a s (b ∷ []), eq_iff b a)

pub mem-exclude :
    (a b : String) (s : List String) → mem a (exclude b s) ≡ (if b == a then false else mem a s)
unfolding mem exclude
mem-exclude a b [] = ground arith
mem-exclude a b (x ∷ s) = ground (arith, mem-exclude a b s, eq_iff x b, eq_iff x a, eq_iff b a)

pub mem-from_list :
    (a : String) (s xs : List String) → mem a (from_list s xs) ≡ (mem a s || mem a xs)
unfolding from_list
mem-from_list a s [] = ground arith
mem-from_list a s (x ∷ xs) = ground (arith, mem-from_list a (include x s) xs, mem-include a x s)

pub mem-nil : (a : String) → mem a [] ≡ false
unfolding mem
mem-nil a = refl

pub mem-cons : (a x : String) (xs : List String) → mem a (x ∷ xs) ≡ (x == a || mem a xs)
unfolding mem
mem-cons a x xs = refl
