-- ===== src/Results/Collect.antt =====
-- `all`, `allSettled` and `combine`: many results as one.
pub mod Laws
use noware.Prelude.{List, [], ◌∷◌, ◌++◌}
use noware.Results.{Result, success, failure, ErrorInfo, ok}

pub record Settled (A : Type 0) : Type 0 where
  pub payloads : List A
  pub errors : List ErrorInfo

module _ {A : Type 0} where
  -- The loop of `all`, with what it pushed so far.
  unfoldable pub all_onto : List A → List (Result A) → Result (List A)
  unfolding ok
  all_onto acc [] = ok acc
  all_onto acc (failure e ∷ rest) = failure e
  all_onto acc (success s ∷ rest) = all_onto (acc ++ s.datum ∷ []) rest

  unfoldable pub all : List (Result A) → Result (List A)
  unfolding all_onto
  all results = all_onto [] results

  unfoldable pub settle : Settled A → List (Result A) → Settled A
  settle acc [] = acc
  settle acc (success s ∷ rest) =
      settle (record acc { payloads = acc.payloads ++ s.datum ∷ [] }) rest
  settle acc (failure e ∷ rest) = settle (record acc { errors = acc.errors ++ e ∷ [] }) rest

  unfoldable pub all_settled : List (Result A) → Result (Settled A)
  unfolding settle ok
  all_settled results = ok (settle (record { payloads = []; errors = [] }) results)

  unfoldable pub combine : List (Result A) → Result (List (Result A))
  unfolding ok
  combine results = ok results
