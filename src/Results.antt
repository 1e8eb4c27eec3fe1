-- ===== src/Results.antt =====
-- The results of packages/result/src/index.ts: `ok`, `err` and the methods of what they return. A
-- call that may throw is the value that it came to. The asynchronous methods are the others, awaited.
pub mod Tags
pub mod Select
pub mod Collect
pub mod Retry
mod Tests
use noware.Prelude.{
  ℕ, String, Bool, true, false, not, ◌||◌, Option, none, some, nat_eq, if◌then◌else◌, ◌==◌, Map,
  get, has, get_or,
}

-- A value of unknown type. What is neither a primitive nor looked into is a `thing`.
pub data Value : Type 0 where
  undefined : Value
  null : Value
  text : String → Value
  number : ℕ → Value
  flag : Bool → Value
  thing : ℕ → Value

-- The own properties of an object.
abbrev pub Object : Type 0
Object = Map Value

abbrev pub truthy : Value → Bool
truthy undefined = false
truthy null = false
truthy (text s) = not (s == "")
truthy (number n) = not (nat_eq n 0)
truthy (flag b) = b
truthy (thing n) = true

-- `undefined` or `null`
abbrev pub is_nullish : Value → Bool
is_nullish undefined = true
is_nullish null = true
is_nullish _ = false

-- `object[key]`
abbrev pub property : String → Object → Value
property key o = get_or (get key o) undefined

-- What `err` is given: a text, or an object, which has a tag or has none.
pub data Subject : Type 0 where
  a_text : String → Subject
  tagged_data : Object → Subject

-- `error` is a text, but for an object without a tag, which `err` takes as it is.
pub record ErrorInfo : Type 0 where
  pub error : Subject
  pub message : String
  pub status : ℕ
  pub code : String
  pub stack : Option String
  pub details : Option Object

pub record SuccessResult (A : Type 0) : Type 0 where
  pub datum : A
  pub message : String
  pub status : ℕ
  pub code : String

pub data Result (A : Type 0) : Type 0 where
  success : SuccessResult A → Result A
  failure : ErrorInfo → Result A

module _ {A : Type 0} where
  unfoldable pub ok_with : A → String → ℕ → String → Result A
  ok_with a message status code =
      success (record { datum = a; message = message; status = status; code = code })

  -- `ok(data)`
  unfoldable pub ok : A → Result A
  unfolding ok_with
  ok a = ok_with a "Success" 200 "OK"

  unfoldable pub is_success : Result A → Bool
  is_success (success _) = true
  is_success (failure _) = false

module _ {A : Type 0} where
  -- The one of two handlers that the result is for.
  unfoldable pub match_result : {B : Type 0} → Result A → (A → B) → (ErrorInfo → B) → B
  match_result (success s) on_success on_error = on_success s.datum
  match_result (failure e) on_success on_error = on_error e

  unfoldable pub transform : {B : Type 0} → Result A → (A → B) → Result B
  unfolding ok
  transform (success s) f = ok (f s.datum)
  transform (failure e) f = failure e

  unfoldable pub and_then : {B : Type 0} → Result A → (A → Result B) → Result B
  and_then (success s) f = f s.datum
  and_then (failure e) f = failure e

  unfoldable pub recover : Result A → (ErrorInfo → Result A) → Result A
  recover (success s) f = success s
  recover (failure e) f = f e

-- Its sixth argument: details, or the name of the tag, which the overloads allow for tagged data alone.
pub data DetailsOrTagName : Type 0 where
  nothing : DetailsOrTagName
  the_details : Object → DetailsOrTagName
  tag_name : String → DetailsOrTagName

abbrev non_empty : Option String → Option String
non_empty none = none
non_empty (some s) = if s == "" then none else some s

abbrev text_of : Value → Option String
text_of (text s) = non_empty (some s)
text_of _ = none

abbrev or_else : Option String → Option String → Option String
or_else none b = b
or_else (some a) b = some a

unfoldable pub actual_tag_name : DetailsOrTagName → String → String
actual_tag_name (tag_name t) name = if t == "" then name else t
actual_tag_name _ name = name

abbrev pub is_primitive : Value → Bool
is_primitive (text _) = true
is_primitive (number _) = true
is_primitive (flag _) = true
is_primitive _ = false

-- `String(value)` is what the runtime makes of numbers and objects, for which `printed` stands.
module _ (printed : Value → String) where
  unfoldable pub string_of : Value → String
  string_of (text s) = s
  string_of (flag true) = "true"
  string_of (flag false) = "false"
  string_of null = "null"
  string_of undefined = "undefined"
  string_of v = printed v

  -- The text of a tagged error: its `error`, its `message`, the message given, or its tag.
  unfoldable pub error_message : Object → String → Value → String
  unfolding string_of
  error_message entries message tag =
      let given = if message == "Error" then none else non_empty (some message) in
      let own =
        or_else (text_of (property "error" entries)) (text_of (property "message" entries)) in
      get_or (or_else own given) (if is_primitive tag then string_of tag else "Error")

  abbrev tag_of : Object → String → Value
  tag_of entries name =
      let v = property name entries in if truthy v then v else property "tag" entries

  abbrev as_details : DetailsOrTagName → Option Object
  as_details (the_details d) = some d
  as_details _ = none

  -- The branch of a text, to which an object without a tag comes too. Details that are a text, which
  -- the overloads do not allow here, are left out.
  abbrev plain_error :
      {A : Type 0} → Subject → String → ℕ → String → Option String → DetailsOrTagName → Result A
  plain_error error message status code stack d = failure (record {
    error = error;
    message = message;
    status = status;
    code = code;
    stack = stack;
    details = as_details d;
  })

  unfoldable pub err :
      {A : Type 0}
      → Subject
      → String
      → ℕ
      → String
      → Option String
      → DetailsOrTagName
      → String
      → Result A
  unfolding error_message actual_tag_name has
  err (a_text error) message status code stack d name =
      plain_error (a_text error) message status code stack d
  err (tagged_data entries) message status code stack d name =
      let tag_key = actual_tag_name d name in
      let own_text = error_message entries message (tag_of entries tag_key) in
      if has tag_key entries || has "tag" entries
      then failure (record {
        error = a_text own_text;
        message = if message == "Error" then own_text else message;
        status = status;
        code = code;
        stack = stack;
        details = some entries;
      })
      else plain_error (tagged_data entries) message status code stack d
