-- ===== src/Results/Tags.antt =====
-- `tagged`, `taggedWith`, `isTagged` and `match` of packages/result/src/index.ts. The handlers are one
-- object, in which `error` and `default` are keys as the tags are; names that every object inherits
-- are left aside.
pub mod Laws
mod Tests
use Prim.Native.String.{◌++◌}
use noware.Prelude.{
  String, Bool, true, false, not, ◌&&◌, Option, none, some, if◌then◌else◌, ◌==◌, nat_eq, Map, get,
  set, delete, has, get_or, [],
}
use noware.Results.{
  Value, undefined, null, text, number, flag, thing, Object, is_nullish, property, ErrorInfo,
  Result, success, failure, ok, err, a_text, nothing, string_of,
}

-- `taggedWith(tag, value, data)`
unfoldable pub tagged_with : String → Value → Object → Object
tagged_with tag value o = set tag value o

abbrev or_tag : Option String → String
or_tag none = "tag"
or_tag (some t) = if t == "" then "tag" else t

-- `tagged(value, data, tagName)`
unfoldable pub tagged : Value → Object → Option String → Object
unfolding tagged_with
tagged value o name = tagged_with (or_tag name) value o

-- `===`
abbrev same : Value → Value → Bool
same undefined undefined = true
same null null = true
same (text s) (text t) = s == t
same (number n) (number m) = nat_eq n m
same (flag true) b = elim b [ flag c ↦ c | _ ↦ false ]
same (flag false) b = elim b [ flag c ↦ not c | _ ↦ false ]
same (thing n) (thing m) = nat_eq n m
same _ _ = false

-- `isTagged` of an object.
unfoldable pub is_tagged : Object → Option String → Value → Bool
is_tagged o tag value =
    let t = or_tag tag in has t o && elim value [ undefined ↦ true | v ↦ same (property t o) v ]

-- What a handler may be called with.
pub data Argument : Type 0 where
  of_object : Object → Argument
  of_error : ErrorInfo → Argument

abbrev pub Handlers : Type 0 → Type 0
Handlers B = Map (Argument → B)

module _ (printed : Value → String) {B : Type 0} where
  -- The handler of the tag, at the object without its tag.
  unfoldable pub by_tag : Object → Handlers B → String → Option B
  unfolding string_of
  by_tag o handlers name =
      let v = property name o in
      if is_nullish v then none else elim (get (string_of printed v) handlers) [
        | none ↦ none
        | some h ↦ some (h (of_object (delete name o)))
      ]

  abbrev of_details : Option Object → Handlers B → String → Option B
  of_details none handlers name = none
  of_details (some o) handlers name = by_tag o handlers name

  unfoldable pub match_error : ErrorInfo → Handlers B → String → Result B
  unfolding by_tag ok
  match_error e handlers name = elim (of_details e.details handlers name) [
    | some b ↦ ok b
    | none ↦ elim (get "error" handlers) [
      | some h ↦ ok (h (of_error e))
      | none ↦ elim (get "default" handlers) [
        | some h ↦ ok (h (of_object (get_or e.details [])))
        | none ↦ failure e
      ]
    ]
  ]

  -- `match` of a result whose data is an object.
  unfoldable pub match : Result Object → Handlers B → String → Result B
  unfolding by_tag ok err match_error string_of
  match (failure e) handlers name = match_error e handlers name
  match (success s) handlers name = elim (by_tag s.datum handlers name) [
    | some b ↦ ok b
    | none ↦ elim (get "default" handlers) [
      | some h ↦ ok (h (of_object s.datum))
      | none ↦
          err printed
            (a_text
              ("No handler found for tag value: " ++ string_of printed (property name s.datum)))
            "Match error" 500 "MATCH_ERROR" none nothing "tag"
    ]
  ]
