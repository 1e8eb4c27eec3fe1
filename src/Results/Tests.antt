-- ===== src/Results/Tests.antt =====
-- Results of small lists.
use noware.Prelude.{has, refl, ◌≡◌, ℕ, none, List, [], ◌∷◌, get, some}
use noware.Results.{
  text, err, error_message, actual_tag_name, string_of, a_text, tagged_data, nothing, ErrorInfo,
  Result, success, failure, ok,
}
use noware.Results.Collect.{all, all_settled}
use noware.Results.Collect.Laws.{all-all_settled}

abbrev down : ErrorInfo
down = record {
  error = a_text "down";
  message = "down";
  status = 503;
  code = "DOWN";
  stack = none;
  details = none;
}

abbrev mixed : List (Result ℕ)
mixed =
    success (record { datum = 1; message = "Success"; status = 200; code = "OK" })
    ∷ failure down
    ∷ []

all-all_settled_example :
    (all_settled mixed ≡ ok (record { payloads = 1 ∷ []; errors = down ∷ [] }))
    × (all mixed ≡ failure down)
all-all_settled_example = all-all_settled mixed

-- A tagged error without a text of its own is told by its tag.
told_by_tag :
    err
      (λ v. "?")
      {A = ℕ}
      (tagged_data (("tag", text "not_found") ∷ []))
      "Error"
      404
      "E"
      none
      nothing
      "tag"
    ≡ failure (record {
      error = a_text "not_found";
      message = "not_found";
      status = 404;
      code = "E";
      stack = none;
      details = some (("tag", text "not_found") ∷ []);
    })
unfolding err error_message actual_tag_name string_of get has
told_by_tag = refl
