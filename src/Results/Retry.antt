-- ===== src/Results/Retry.antt =====
-- `tryWhile`, `tryN` and `jitterBackoff` of packages/result/src/index.ts. The function that is tried
-- acts on a state and may throw; `draw attempt` over `unit` is what `Math.random()` gives for the
-- delay before an attempt, multiplied exactly. Delays are natural numbers: one below 0 is refused as 0 is.
pub mod Laws
mod Tests
use noware.Prelude.{
  ℕ, zero, suc, ◌+◌, Bool, true, false, ◌&&◌, ◌||◌, Option, none, some, List, [], ◌∷◌, ◌++◌,
  if◌then◌else◌, leb, nat_eq, get_or,
}
use Prim.Native.Nat.{◌*◌, ◌/◌, ◌^◌}

pub data Attempt (E T : Type 0) : Type 0 where
  returns : T → Attempt E T
  throws : E → Attempt E T

pub data RetryError (E : Type 0) : Type 0 where
  not_positive_n : RetryError E
  not_positive_delay : RetryError E
  base_delay_not_less : RetryError E
  thrown : E → RetryError E

pub record RetryOptions : Type 0 where
  pub base_delay_ms : Option ℕ
  pub max_delay_ms : Option ℕ

-- What a call did: its end, the state it left, how often the function was called, and the delays.
pub record Run (S E T : Type 0) : Type 0 where
  pub end : Attempt (RetryError E) T
  pub state : S
  pub calls : ℕ
  pub delays : List ℕ

abbrev pub min : ℕ → ℕ → ℕ
min a b = if leb a b then a else b

-- `Math.random()` is `drawn` over `unit`.
unfoldable pub jitter_backoff : (unit drawn : ℕ) → (attempt base_delay max_delay : ℕ) → ℕ
jitter_backoff unit drawn attempt base_delay max_delay =
    drawn * min (2 ^ attempt * base_delay) max_delay / unit

module _ {S E T : Type 0} (unit : ℕ) (draw : ℕ → ℕ) (try : ℕ → S → Attempt E T × S)
    (is_retryable : E → ℕ → Bool) where
  -- The loop of `tryWhile` from an attempt on, or `none` when the fuel, the attempts to make, ends.
  unfoldable pub try_from :
      (fuel attempt base_delay max_delay : ℕ) → S → List ℕ → Option (Run S E T)
  unfolding jitter_backoff
  try_from zero attempt base_delay max_delay s slept = none
  try_from (suc fuel) attempt base_delay max_delay s slept =
      let (outcome, s') = try attempt s in
      elim outcome [
        | returns a ↦ some (record { end = returns a; state = s'; calls = attempt; delays = slept })
        | throws e ↦ elim (is_retryable e (attempt + 1)) [
          | false ↦
              some (record { end = throws (thrown e); state = s'; calls = attempt; delays = slept })
          | true ↦ try_from fuel (attempt + 1) base_delay max_delay s' (
              slept
              ++ jitter_backoff unit (draw (attempt + 1)) (attempt + 1) base_delay max_delay ∷ [])
        ]
      ]

  abbrev refused : RetryError E → S → Run S E T
  refused e s = record { end = throws e; state = s; calls = 0; delays = [] }

  unfoldable pub try_while : (fuel : ℕ) → RetryOptions → S → Option (Run S E T)
  unfolding try_from
  try_while fuel options s =
      let base_delay = get_or options.base_delay_ms 100 in
      let max_delay = get_or options.max_delay_ms 3000 in
      if leb base_delay 0 || leb max_delay 0
      then some (refused not_positive_delay s)
      else if leb max_delay base_delay
      then some (refused base_delay_not_less s)
      else try_from fuel 1 base_delay max_delay s []

-- `tryN`: without a condition of the caller every error is retryable.
unfoldable pub try_n :
    {S E T : Type 0}
    → (unit : ℕ) → (draw : ℕ → ℕ) → (fuel n : ℕ) → (ℕ → S → Attempt E T × S)
    → Option (E → ℕ → Bool)
    → RetryOptions
    → S
    → Option (Run S E T)
unfolding try_while
try_n unit draw fuel n try is_retryable options s =
    if leb n 0
    then some (record { end = throws not_positive_n; state = s; calls = 0; delays = [] })
    else try_while unit draw try
        (λ e next. leb next n && elim is_retryable [ none ↦ true | some f ↦ f e next ]) fuel options
        s
