-- ===== src/Prelude/Decimals.antt =====
-- `${n}` of a natural number, its decimal digits, and `prefix-${n}`.
use Prim.Native.Char.{Char, code}
use Prim.Native.Nat.{ℕ, zero, suc, ◌+◌, ◌*◌, ◌-◌, ◌/◌, ◌%◌, ◌≤◌}
use Prim.Native.String.{String, ◌++◌}
use text.Mathlib.TextLemmas.{append_cancel_left}
use mathlib.Core.Path.{◌≡◌, refl, sym, ap, ◌∙◌}
use native.Mathlib.Omega.{arith}
use mathlib.Core.Bool.{true}
use noware.Prelude.Tests.{ltb, if◌then◌else◌, Bool-cases}
use mathlib.Core.Logic.{inl, inr}

abbrev digit : ℕ → Char
digit zero = "0"
digit (suc zero) = "1"
digit (suc (suc zero)) = "2"
digit (suc (suc (suc zero))) = "3"
digit (suc (suc (suc (suc zero)))) = "4"
digit (suc (suc (suc (suc (suc zero))))) = "5"
digit (suc (suc (suc (suc (suc (suc zero)))))) = "6"
digit (suc (suc (suc (suc (suc (suc (suc zero))))))) = "7"
digit (suc (suc (suc (suc (suc (suc (suc (suc zero)))))))) = "8"
digit _ = "9"

-- The digits of `n` before the given text; `n` steps are enough.
abbrev digits : ℕ → ℕ → String → String
digits zero n after = String.◌∷◌ (digit (n % 10)) after
digits (suc fuel) n after =
    let last = String.◌∷◌ (digit (n % 10)) after in
    let rest = digits fuel (n / 10) last in if ltb n 10 then last else rest

unfoldable pub decimal : ℕ → String
decimal n = digits n n ""

-- The number that a text of digits reads as.
abbrev value : ℕ → String → ℕ
value acc String.[] = acc
value acc (String.◌∷◌ c s) = value (acc * 10 + (code c - 48)) s

digit_lem : (n : ℕ) → ltb n 10 ≡ true → code (digit n) - 48 ≡ n
digit_lem zero h = refl
digit_lem (suc zero) h = refl
digit_lem (suc (suc zero)) h = refl
digit_lem (suc (suc (suc zero))) h = refl
digit_lem (suc (suc (suc (suc zero)))) h = refl
digit_lem (suc (suc (suc (suc (suc zero))))) h = refl
digit_lem (suc (suc (suc (suc (suc (suc zero)))))) h = refl
digit_lem (suc (suc (suc (suc (suc (suc (suc zero))))))) h = refl
digit_lem (suc (suc (suc (suc (suc (suc (suc (suc zero)))))))) h = refl
digit_lem (suc (suc (suc (suc (suc (suc (suc (suc (suc zero))))))))) h = refl
digit_lem (suc (suc (suc (suc (suc (suc (suc (suc (suc (suc n)))))))))) h = absurd (ground arith)

value-digit :
    (acc n : ℕ) (after : String)
    → value acc (String.◌∷◌ (digit (n % 10)) after) ≡ value (acc * 10 + n % 10) after
value-digit acc n after = rw (digit_lem (n % 10) (ground arith)) refl

value-digits :
    (fuel n : ℕ) (after : String) → n ≤ fuel → value 0 (digits fuel n after) ≡ value n after
value-digits zero n after h =
    let same : 0 * 10 + n % 10 ≡ n = omega arith in
    value-digit 0 n after ∙ ap (λ k. value k after) same
value-digits (suc fuel) n after h = elim (Bool-cases (ltb n 10)) [
  | inl e ↦ rw e (
      let same : 0 * 10 + n % 10 ≡ n = ground arith in
      value-digit 0 n after ∙ ap (λ k. value k after) same)
  | inr e ↦ rw e (
      let smaller : n / 10 ≤ fuel = ground arith in
      let same : n / 10 * 10 + n % 10 ≡ n = omega arith in
      value-digits fuel (n / 10) _ smaller
      ∙ value-digit (n / 10) n after
      ∙ ap (λ k. value k after) same)
]

-- Different numbers have different digits.
pub decimal-inj : (m n : ℕ) → decimal m ≡ decimal n → m ≡ n
unfolding decimal
decimal-inj m n h =
    sym (value-digits m m "" (omega arith)) ∙ ap (value 0) h ∙ value-digits n n "" (omega arith)

unfoldable pub numbered : String → ℕ → String
unfolding decimal
numbered prefix n = prefix ++ decimal n

pub numbered-inj : (prefix : String) (m n : ℕ) → numbered prefix m ≡ numbered prefix n → m ≡ n
unfolding numbered
numbered-inj prefix m n h = decimal-inj m n (append_cancel_left prefix (decimal m) (decimal n) h)
