-- ===== src/Results/Select.antt =====
-- `when`, `whenResult`, `matchStatus`, `matchStatusResult` and `safe` of packages/result/src/index.ts.
use noware.Prelude.{
  ℕ, String, Bool, not, ◌&&◌, Option, none, some, List, [], ◌∷◌, if◌then◌else◌, ◌==◌, nat_eq,
}
use noware.Results.{Result, ok, err, Value, Object, a_text, nothing, the_details, DetailsOrTagName}
use noware.Results.Retry.{Attempt, returns, throws}

unfoldable pub when : {A : Type 0} → Bool → A → Option A → Option A
when condition value default_value = if condition then some value else default_value

-- What a function returns that may return a result or a bare value.
pub data Returned (A : Type 0) : Type 0 where
  a_value : A → Returned A
  a_result : Result A → Returned A

unfoldable pub wrap : {A : Type 0} → Returned A → Result A
unfolding ok
wrap (a_value a) = ok a
wrap (a_result r) = r

unfoldable pub match_status : {A : Type 0} → ℕ → List (ℕ × A) → Option A → Option A
match_status status [] default_value = default_value
match_status status ((s, a) ∷ rest) default_value =
    if nat_eq s status then some a else match_status status rest default_value

-- An override is what it stands for, or a function that returns it.
pub data Override (A : Type 0) : Type 0 where
  plain : Returned A → Override A
  computed : (Unit {0} → Returned A) → Override A

abbrev value_of : {A : Type 0} → Override A → Returned A
value_of (plain r) = r
value_of (computed f) = f tt

-- What was thrown: an error, another object, or a value that is none.
pub data Raised : Type 0 where
  an_error : (message : String) → (stack : Option String) → Object → Raised
  an_object : Object → Raised
  a_primitive : Value → Raised

abbrev kept : Object → Object
kept [] = []
kept ((k, v) ∷ rest) =
    let others = kept rest in
    if not (k == "message") && not (k == "name") && not (k == "stack")
    then (k, v) ∷ others
    else others

abbrev unless_empty : Object → Option Object
unless_empty [] = none
unless_empty o = some o

unfoldable pub get_error_details : Raised → Option Object
get_error_details (an_error _ _ o) = unless_empty (kept o)
get_error_details (an_object o) = unless_empty (kept o)
get_error_details (a_primitive _) = none

abbrev with_details : Option Object → DetailsOrTagName
with_details none = nothing
with_details (some o) = the_details o

abbrev failed : String → String
failed message = if message == "" then "Operation failed" else message

abbrev raised_message : (Raised → String) → Raised → String
raised_message described (an_error message _ _) = message
raised_message described e = described e

abbrev raised_stack : Option String → Raised → Option String
raised_stack new_stack (an_error _ stack _) = stack
raised_stack new_stack _ = new_stack

-- `described` is `String(e)`, and `new_stack` the stack of an error that is made here.
module _ (printed : Value → String) (described : Raised → String) (new_stack : Option String)
    {A : Type 0} where
  unfoldable pub when_result : Bool → A → String → String → ℕ → Result A
  unfolding ok err
  when_result condition value message code status =
      if condition
      then ok value
      else err printed (a_text message) message status code none nothing "tag"

  unfoldable pub match_status_result : ℕ → List (ℕ × Override A) → String → String → ℕ → Result A
  unfolding match_status wrap err
  match_status_result status overrides message code error_status =
      elim (match_status status overrides none) [
        | none ↦ err printed (a_text message) message error_status code none nothing "tag"
        | some o ↦ wrap (value_of o)
      ]

  -- `safe` of a function that came to this end; `safeAsync` differs in its code alone.
  unfoldable pub safe : (code : String) → Attempt Raised (Returned A) → Result A
  unfolding wrap err get_error_details
  safe code (returns r) = wrap r
  safe code (throws e) =
      err printed (a_text (failed (raised_message described e))) "Operation failed" 500 code
        (raised_stack new_stack e) (with_details (get_error_details e)) "tag"
