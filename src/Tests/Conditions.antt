-- ===== src/Tests/Conditions.antt =====
-- Conditions on a result with a body.
use gatus.Prelude.{
  has_prefix, upper, show_ℤ, ◌≡◌, ◌≢◌, ◌↔◌, ◌⊎◌, refl, true, false, Option, none, some, [], ◌∷◌,
  ◌++◌, map, pos, Text, codes, text_eq, atoi, has_suffix, contains, split, trim_space,
}
use mathlib.Core.List.{Memᴰ}
use gatus.Endpoint.{Result, empty_result, add_error}
use gatus.Gontext.{Value, text, array, object, item, end, field, last}
use gatus.JsonPath.{Json, split_keys, walk}
use gatus.JsonPath.Walk.{walk_keys, walk-walk_keys}
use gatus.Placeholder.{basic_placeholder, resolve_placeholder, function_suffix, resolved}
use gatus.Condition.{numerical, Library, is_equal, any_function_prefix}
use gatus.Condition.Equality.{any_iff}
use gatus.Condition.Display.{prettify_numerical_parameters}
use gatus.Condition.Evaluation.{comparator_of, evaluate, validate, has_body_placeholder}
use gatus.Condition.Outcome.{noted, evaluate-notes}
use gatus.Condition.Validation.{validate-comparator_of, verdict, evaluate-verdict}

-- {"data": [{"name": "john"}]}
abbrev document : Value
document = object (
    field (codes "data")
      (array (item (object (field (codes "name") (text (codes "john")) last)) end)) last)

abbrev sprint_text : Value → Text
sprint_text (text t) = t
sprint_text v = codes "?"

abbrev unmarshal_document : Text → Option Value
unmarshal_document [] = none
unmarshal_document (c ∷ body) = some document

abbrev pub json : Json
json = record { unmarshal = unmarshal_document; marshal = λ fields. none; sprint = sprint_text }

abbrev pub library : Library
library = record {
  json = json;
  parse_int = atoi;
  parse_float = λ s. none;
  parse_duration = λ s. none;
  show_duration = λ d. codes "0s";
  glob = λ pattern s. text_eq pattern s;
}

abbrev pub healthy : Result
healthy = record empty_result {
  http_status = pos 200;
  connected = true;
  body = codes "{\"data\":[{\"name\":\"john\"}]}";
}

walk-walk_keys_example :
    walk json 13 (codes "data[0].name") document
    ≡ walk_keys json (split_keys (pos 0) (codes "data[0].name")) document
walk-walk_keys_example = walk-walk_keys json (codes "data[0].name") document

any_iff_example :
    let call = any_function_prefix ++ codes "1.1.1.1, 1.0.0.1" ++ function_suffix in
    let chosen =
      Memᴰ (codes "1.0.0.1") (map trim_space (split (codes ",") (codes "1.1.1.1, 1.0.0.1"))) in
    ((is_equal library call (codes "1.0.0.1") ≡ true) ↔ chosen)
    × ((is_equal library (codes "1.0.0.1") call ≡ true) ↔ chosen)
unfolding has_suffix
any_iff_example = any_iff library (codes "1.1.1.1, 1.0.0.1") (codes "1.0.0.1") refl

evaluate-notes_example :
    ((display : Text) × (comparator_of (codes "[STATUS] == 200") ≢ none)
      × (noted healthy (codes "[STATUS] == 200") true ≡ noted healthy display true))
    ⊎ ((comparator_of (codes "[STATUS] == 200") ≡ none)
        × (true ≡ false)
        × (noted healthy (codes "[STATUS] == 200") true
            ≡ add_error healthy (codes "invalid condition: " ++ codes "[STATUS] == 200")))
unfolding evaluate contains split resolve_placeholder basic_placeholder text_eq upper trim_space
    is_equal has_suffix show_ℤ atoi
evaluate-notes_example =
    evaluate-notes library (codes "[STATUS] == 200") healthy false false none
      (noted healthy (codes "[STATUS] == 200") true) true refl

validate-comparator_of_example :
    validate library (codes "[STATUS] = 200") ≡ elim (comparator_of (codes "[STATUS] = 200")) [
      | none ↦ some (some (codes "invalid condition: " ++ codes "[STATUS] = 200"))
      | some c ↦ some none
    ]
validate-comparator_of_example = validate-comparator_of library (codes "[STATUS] = 200") refl

evaluate-verdict_example :
    verdict (evaluate library (codes "[BODY].data[0].name == jane") healthy true false none)
    ≡ verdict (evaluate library (codes "[BODY].data[0].name == jane") healthy false true none)
evaluate-verdict_example =
    evaluate-verdict library (codes "[BODY].data[0].name == jane") healthy true false false true
      none

-- The condition is met, and what it was found to be is displayed if that is asked for.
evaluate_runs :
    evaluate library (codes "[STATUS] <= 299") healthy false true none
    ≡ some (noted healthy (codes "[STATUS] (200) <= 299") true, true)
unfolding evaluate contains split resolve_placeholder basic_placeholder text_eq upper trim_space
    numerical atoi show_ℤ prettify_numerical_parameters
evaluate_runs = refl

-- A placeholder in lower case is resolved, but the body was not read for it.
body_runs : resolve_placeholder json (codes "[body]") healthy none ≡ resolved healthy.body
unfolding resolve_placeholder basic_placeholder text_eq upper trim_space has_prefix
body_runs = refl

unread_runs : has_body_placeholder (codes "[body] == john") ≡ false
unfolding has_body_placeholder contains
unread_runs = refl
