-- ===== src/Results/Collect/Laws.antt =====
-- What `all` and `allSettled` return, against the payloads and the errors in order.
use noware.Prelude.{◌≡◌, refl, sym, ap, ◌∙◌, List, [], ◌∷◌, ◌++◌}
use mathlib.Core.List.{append_assoc, append-nil}
use noware.Results.{Result, success, failure, ErrorInfo, ok}
use noware.Results.Collect.{Settled, all_onto, all, settle, all_settled}

module _ {A : Type 0} where
  abbrev pub payloads_of : List (Result A) → List A
  payloads_of [] = []
  payloads_of (success s ∷ rest) = s.datum ∷ payloads_of rest
  payloads_of (failure e ∷ rest) = payloads_of rest

  abbrev pub errors_of : List (Result A) → List ErrorInfo
  errors_of [] = []
  errors_of (success s ∷ rest) = errors_of rest
  errors_of (failure e ∷ rest) = e ∷ errors_of rest

  -- The first error, or the list.
  abbrev pub unless_error : List ErrorInfo → List A → Result (List A)
  unless_error [] l = ok l
  unless_error (e ∷ _) l = failure e

  pushed : (acc : List A) (a : A) (l : List A) → (acc ++ a ∷ []) ++ l ≡ acc ++ a ∷ l
  pushed acc a l = append_assoc acc (a ∷ []) l

  all_onto_lem :
      (acc : List A) (rs : List (Result A))
      → all_onto acc rs ≡ unless_error (errors_of rs) (acc ++ payloads_of rs)
  unfolding all_onto
  all_onto_lem acc [] = ap ok (sym (append-nil acc))
  all_onto_lem acc (failure e ∷ rs) = refl
  all_onto_lem acc (success s ∷ rs) =
      all_onto_lem (acc ++ s.datum ∷ []) rs
      ∙ ap (unless_error (errors_of rs)) (pushed acc s.datum (payloads_of rs))

  settle_lem :
      (acc : Settled A) (rs : List (Result A))
      → settle acc rs
        ≡ record { payloads = acc.payloads ++ payloads_of rs; errors = acc.errors ++ errors_of rs }
  unfolding settle
  settle_lem acc [] = λ i. record {
    payloads = sym (append-nil acc.payloads) i;
    errors = sym (append-nil acc.errors) i;
  }
  settle_lem acc (success s ∷ rs) =
      settle_lem (record acc { payloads = acc.payloads ++ s.datum ∷ [] }) rs
      ∙ rw (pushed acc.payloads s.datum (payloads_of rs))
  settle_lem acc (failure e ∷ rs) =
      settle_lem (record acc { errors = acc.errors ++ e ∷ [] }) rs
      ∙ rw (append_assoc acc.errors (e ∷ []) (errors_of rs))

  -- `allSettled` succeeds with all payloads and all errors, each in order, and `all` fails with the
  -- first of these errors, or succeeds with these payloads when there is none.
  pub all-all_settled :
      (rs : List (Result A))
      → (all_settled rs ≡ ok (record { payloads = payloads_of rs; errors = errors_of rs }))
        × (all rs ≡ unless_error (errors_of rs) (payloads_of rs))
  unfolding all all_settled
  all-all_settled rs =
      (ap ok (settle_lem (record { payloads = []; errors = [] }) rs), all_onto_lem [] rs)
