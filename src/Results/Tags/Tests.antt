-- ===== src/Results/Tags/Tests.antt =====
-- `match` at a tagged order.
use noware.Prelude.{ℕ, String, ◌≡◌, refl, none, has, set, [], ◌∷◌, delete, get}
use noware.Results.{
  Value, text, number, Object, ok, err, tagged_data, tag_name, nothing, actual_tag_name, string_of,
}
use noware.Results.Tags.{tagged_with, Argument, of_object, Handlers, match, match_error}
use noware.Results.Tags.Laws.{match-tagged_with}

abbrev order : Object
order = ("id", number 4) ∷ ("kind", text "old") ∷ []

abbrev printed : Value → String
printed v = "?"

-- The number of the order, or 0.
abbrev number_of : Argument → ℕ
number_of (of_object ((_, number n) ∷ _)) = n
number_of _ = 0

abbrev handlers : Handlers ℕ
handlers = ("created", number_of) ∷ ("default", λ a. 7) ∷ []

match-tagged_with_example :
    (match printed (ok (tagged_with "kind" (text "created") order)) handlers "kind" ≡ ok 4)
    × (match printed
          (err printed
            (tagged_data (tagged_with "kind" (text "created") order))
            "Error"
            500
            "ERROR"
            none
            (tag_name "kind")
            "tag")
          handlers
          "kind"
        ≡ ok 4)
unfolding delete get string_of actual_tag_name
match-tagged_with_example =
    match-tagged_with printed handlers "kind" (text "created") order number_of "Error" 500 "ERROR"
      none (tag_name "kind") "tag" refl refl refl

-- Where `err` is not told the tag's name, `match` finds no details and calls `default`.
untold :
    match printed
      (err printed
        (tagged_data (tagged_with "kind" (text "created") order))
        "Error"
        500
        "ERROR"
        none
        nothing
        "tag")
      handlers
      "kind"
    ≡ ok 7
unfolding tagged_with match match_error err ok actual_tag_name get set has
untold = refl
