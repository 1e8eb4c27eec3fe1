-- ===== src/Results/Retry/Laws.antt =====
-- That retries end, and how long they wait.
use noware.Prelude.{
  ℕ, zero, suc, ◌+◌, ◌≤◌, ◌<◌, Bool, true, false, ◌&&◌, ◌||◌, ◌≡◌, refl, ◌⊎◌, inl, inr, Option,
  none, some, List, [], ◌∷◌, ◌++◌, leb, get_or, arith, All, All-append, Bool-cases,
}
use Prim.Native.Nat.{◌*◌, ◌/◌, ◌^◌}
use native.Mathlib.Nat.{
  div-lt_iff_lt-mul, mul_comm, mul-lt-mul_of_pos_right, mul-pos, pow-le-pow_right, lt_of_lt_of_le,
}
use mathlib.Core.Path.{subst}
use noware.Results.Retry.{
  Attempt, returns, throws, RetryOptions, Run, min, jitter_backoff, try_from, try_while, try_n,
}

pub Attempt-cases :
    {E T : Type 0} (o : Attempt E T) → ((a : T) × (o ≡ returns a)) ⊎ ((e : E) × (o ≡ throws e))
Attempt-cases (returns a) = inl (a, refl)
Attempt-cases (throws e) = inr (e, refl)

scaled : (unit drawn m : ℕ) → drawn < unit → 0 < m → drawn * m / unit < m
scaled unit drawn m in_unit positive =
    (div-lt_iff_lt-mul (omega arith)).1
      (subst (λ k. drawn * m < k) (mul_comm unit m) (mul-lt-mul_of_pos_right in_unit positive))

min_lem : (a b : ℕ) → (min a b ≤ a) × (min a b ≤ b) × (0 < a → 0 < b → 0 < min a b)
min_lem a b = ground arith

pow_positive : (k : ℕ) → 0 < 2 ^ k
pow_positive k = pow-le-pow_right (omega arith) {i = 0} {j = k} (omega arith)

-- Every delay is below the bound of its attempt and below the largest delay, where `Math.random()`
-- is below 1 and the delays of the options are positive.
pub jitter_backoff-lt :
    (unit drawn attempt base_delay max_delay : ℕ)
    → drawn < unit
    → 0 < base_delay
    → 0 < max_delay
    → (jitter_backoff unit drawn attempt base_delay max_delay < 2 ^ attempt * base_delay)
      × (jitter_backoff unit drawn attempt base_delay max_delay < max_delay)
unfolding jitter_backoff
jitter_backoff-lt unit drawn attempt base_delay max_delay in_unit base_positive max_positive =
    let top = 2 ^ attempt * base_delay in
    let (below, below_max, positive) = min_lem top max_delay in
    let less =
      scaled unit drawn (min top max_delay) in_unit
        (positive (mul-pos (pow_positive attempt) base_positive) max_positive) in
    (lt_of_lt_of_le less below, lt_of_lt_of_le less below_max)

-- One run of the loop, from an attempt on.
module _ {S E T : Type 0} (unit : ℕ) (draw : ℕ → ℕ) (try : ℕ → S → Attempt E T × S)
    (is_retryable : E → ℕ → Bool) (n base_delay max_delay : ℕ)
    (stops : (e : E) (next : ℕ) → is_retryable e next ≡ true → next ≤ n)
    (in_unit : (k : ℕ) → draw k < unit) (base_positive : 0 < base_delay)
    (max_positive : 0 < max_delay) where
  abbrev pub Short : List ℕ → Type 0
  Short = All (λ d. d < max_delay)

  abbrev pub IsGood : Run S E T → Type 0
  IsGood run = (0 < run.calls) × (run.calls ≤ n) × Short run.delays

  again-Short :
      (slept : List ℕ) (attempt : ℕ)
      → Short slept
      → Short (slept ++ jitter_backoff unit (draw attempt) attempt base_delay max_delay ∷ [])
  again-Short slept attempt short = All-append _ slept _ short (
    (jitter_backoff-lt unit (draw attempt) attempt base_delay max_delay (in_unit attempt)
        base_positive max_positive).1,
    tt,
  )

  pub try_from-IsGood :
      (fuel attempt : ℕ) (s : S) (slept : List ℕ)
      → n < attempt + fuel
      → 0 < attempt
      → attempt ≤ n
      → Short slept
      → (run : Run S E T) × (try_from unit draw try is_retryable fuel attempt base_delay max_delay s
            slept
          ≡ some run)
        × IsGood run
  unfolding try_from
  try_from-IsGood zero attempt s slept enough positive at_most short = grind arith
  try_from-IsGood (suc fuel) attempt s slept enough positive at_most short =
      elim (Attempt-cases (try attempt s).0) [
        | inl (a, e) ↦ rw (try_from, e) (_, refl, (positive, at_most, short))
        | inr (x, e) ↦ elim (Bool-cases (is_retryable x (attempt + 1))) [
          | inl again ↦
              rw (try_from, e, again)
                (try_from-IsGood fuel (attempt + 1) _ _ (omega arith) (omega arith)
                  (stops x (attempt + 1) again) (again-Short slept (attempt + 1) short))
          | inr over ↦ rw (try_from, e, over) (_, refl, (positive, at_most, short))
        ]
      ]

condition_stops :
    {E : Type 0} (n : ℕ) (asked : Option (E → ℕ → Bool)) (e : E) (next : ℕ)
    → (leb next n && elim asked [ none ↦ true | some f ↦ f e next ]) ≡ true
    → next ≤ n
condition_stops n asked e next h = ground (arith, h)

both_positive : (a b : ℕ) → (leb a 0 || leb b 0) ≡ false → (0 < a) × (0 < b)
both_positive a b h = ground (arith, h)

one_positive : (a : ℕ) → leb a 0 ≡ false → 1 ≤ a
one_positive a h = ground (arith, h)

module _ {S E T : Type 0} (unit : ℕ) (draw : ℕ → ℕ) (try : ℕ → S → Attempt E T × S)
    (asked : Option (E → ℕ → Bool)) (in_unit : (k : ℕ) → draw k < unit) where
  -- With fuel for `n` attempts `tryN` comes to an end, for every function that is tried, every
  -- condition and all options, where `Math.random()` is below 1: it called the function at most `n`
  -- times, and each delay was below the largest one.
  pub try_n-ends :
      (fuel n : ℕ) (options : RetryOptions) (s : S)
      → n ≤ fuel
      → (run : Run S E T) × (try_n unit draw fuel n try asked options s ≡ some run)
        × (run.calls ≤ n)
        × All (λ d. d < get_or options.max_delay_ms 3000) run.delays
  unfolding try_n try_while
  try_n-ends fuel n options s enough =
      let base_delay = get_or options.base_delay_ms 100 in
      let max_delay = get_or options.max_delay_ms 3000 in
      elim (Bool-cases (leb n 0)) [
        | inl none_left ↦ rw (try_n, none_left) (_, refl, omega arith, tt)
        | inr some_left ↦ elim (Bool-cases (leb base_delay 0 || leb max_delay 0)) [
          | inl zero_delay ↦ rw (try_n, try_while, some_left, zero_delay) (_, refl, omega arith, tt)
          | inr positive ↦ elim (Bool-cases (leb max_delay base_delay)) [
            | inl wrong ↦
                rw (try_n, try_while, some_left, positive, wrong) (_, refl, omega arith, tt)
            | inr less ↦
                rw (try_n, try_while, some_left, positive, less)
                  (let (run, e, good) =
                      try_from-IsGood unit draw try _ n base_delay max_delay
                        (condition_stops n asked) in_unit
                        (both_positive base_delay max_delay positive).0
                        (both_positive base_delay max_delay positive).1 fuel 1 s [] (omega arith)
                        (omega arith) (one_positive n some_left) tt in
                    (run, e, good.1, good.2))
          ]
        ]
      ]
