-- ===== src/Results/Retry/Tests.antt =====
-- Retries at a function that throws twice.
use noware.Prelude.{
  ℕ, ◌+◌, ◌≤◌, ◌<◌, String, ◌≡◌, refl, Option, none, some, [], ◌∷◌, All, ltb, if◌then◌else◌, arith,
}
use Prim.Native.Nat.{◌*◌, ◌^◌}
use noware.Results.Retry.{
  Attempt, returns, throws, RetryOptions, Run, jitter_backoff, try_from, try_while, try_n,
}
use noware.Results.Retry.Laws.{jitter_backoff-lt, try_n-ends}

abbrev third_time : ℕ → ℕ → Attempt String String × ℕ
third_time attempt s = if ltb attempt 3 then (throws "down", s + 1) else (returns "up", s + 1)

abbrev options : RetryOptions
options = record { base_delay_ms = none; max_delay_ms = some 500 }

abbrev five : Option (Run ℕ String String)
five = try_n 10 (λ k. 7) 5 5 third_time none options 0

third_time_runs :
    five ≡ some (record { end = returns "up"; state = 3; calls = 3; delays = 280 ∷ 350 ∷ [] })
unfolding try_n try_while try_from jitter_backoff
third_time_runs = refl

jitter_backoff-lt_example :
    (jitter_backoff 10 7 3 100 500 < 2 ^ 3 * 100) × (jitter_backoff 10 7 3 100 500 < 500)
jitter_backoff-lt_example =
    jitter_backoff-lt 10 7 3 100 500 (omega arith) (omega arith) (omega arith)

try_n-ends_example :
    (run : Run ℕ String String) × (five ≡ some run)
    × (run.calls ≤ 5)
    × All (λ d. d < 500) run.delays
try_n-ends_example =
    try_n-ends 10 (λ k. 7) third_time none (λ k. omega arith) 5 5 options 0 (omega arith)
