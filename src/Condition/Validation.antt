-- ===== src/Condition/Validation.antt =====
-- What Validate of config/endpoint/condition.go accepts, and that the display of a condition does
-- not bear on its success.
use gatus.Prelude.{
  trim_space, ◌≡◌, ◌≢◌, refl, ap, sym, ◌∙◌, Bool, false, Option-cases, inl, inr, Option, none, some,
  List, [], ◌∷◌, ◌++◌, Text, codes, split, arith, has_prefix,
}
use gatus.Endpoint.{Result, empty_result, add_error, contains_text}
use gatus.Gontext.{Fields}
use gatus.JsonPath.{Json, panics, eval}
use gatus.Condition.{Library, Sanitized, sanitize_and_resolve}
use gatus.Condition.Evaluation.{
  Comparator, separator, comparator_of, conclude, evaluate_with, evaluate_comparator, evaluate,
  validate, first_error,
}
use gatus.Placeholder.Errors.{path_in}
use gatus.Condition.Outcome.{evaluate-notes, evaluate-panics}

-- The evaluation of a path on an empty body does not panic, since an empty text is no JSON.
empty-ne-panics : (j : Json) (path : Text) → j.unmarshal [] ≡ none → eval j path [] ≢ panics
unfolding eval has_prefix
empty-ne-panics j path h k = ground (arith, h)

validate_from :
    (go : Library) (condition : Text) (after : Result) (success : Bool)
    → evaluate go condition empty_result false false none ≡ some (after, success)
    → validate go condition ≡ some (first_error after.errors)
unfolding validate
validate_from go condition after success there =
    ap
      (λ (o : Option (Result × Bool)). elim o [
        | none ↦ none
        | some (r, s) ↦ some (first_error r.errors)
      ])
      there

-- Validate never panics; it accepts a condition exactly where this contains a comparator between
-- spaces, and otherwise returns the error that names the condition. Of json.Unmarshal is assumed
-- that it refuses the empty text.
pub validate-comparator_of :
    (go : Library) (condition : Text)
    → go.json.unmarshal [] ≡ none
    → validate go condition ≡ elim (comparator_of condition) [
      | none ↦ some (some (codes "invalid condition: " ++ condition))
      | some c ↦ some none
    ]
unfolding validate first_error add_error contains_text
validate-comparator_of go condition refused =
    elim (Option-cases (evaluate go condition empty_result false false none)) [
      | inl stuck ↦
          let (c, valid, part, there, (named, bad)) =
            evaluate-panics go condition empty_result false false none stuck in
          absurd (empty-ne-panics go.json (path_in (trim_space part)) refused bad)
      | inr ((after, success), there) ↦
          elim (evaluate-notes go condition empty_result false false none after success there) [
            | inl (display, valid, same) ↦ elim (Option-cases (comparator_of condition)) [
              | inl missing ↦ absurd (valid missing)
              | inr (c, known) ↦
                  validate_from go condition after success there
                  ∙ ap (λ (r : Result). some (first_error r.errors)) same
                  ∙ sym (ground (arith, known))
            ]
            | inr (missing, failure, same) ↦
                validate_from go condition after success there
                ∙ ap (λ (r : Result). some (first_error r.errors)) same
                ∙ sym (ground (arith, missing))
          ]
    ]

-- What evaluate returns, without the result.
abbrev pub verdict : Option (Result × Bool) → Option Bool
verdict none = none
verdict (some (after, success)) = some success

conclude-verdict :
    (go : Library) (condition : Text) (c : Comparator) (p q p' q' : Bool) (us vs : List Text)
    (result : Result)
    → verdict (conclude go condition c p q us vs result)
      ≡ verdict (conclude go condition c p' q' us vs result)
unfolding conclude
conclude-verdict go condition c p q p' q' [] vs result = refl
conclude-verdict go condition c p q p' q' (l ∷ []) vs result = refl
conclude-verdict go condition c p q p' q' (l ∷ (r ∷ us)) [] result = refl
conclude-verdict go condition c p q p' q' (l ∷ (r ∷ us)) (u ∷ []) result = refl
conclude-verdict go condition c p q p' q' (l ∷ (r ∷ us)) (u ∷ (v ∷ vs)) result = refl

with-verdict :
    (go : Library) (condition : Text) (c : Comparator) (p q p' q' : Bool) (o : Option Sanitized)
    → verdict (evaluate_with go condition c p q o) ≡ verdict (evaluate_with go condition c p' q' o)
unfolding evaluate_with
with-verdict go condition c p q p' q' none = refl
with-verdict go condition c p q p' q' (some s) =
    conclude-verdict go condition c p q p' q' s.parameters s.resolved_parameters s.result

comparator-verdict :
    (go : Library) (condition : Text) (result : Result) (p q p' q' : Bool) (context : Option Fields)
    (o : Option Comparator)
    → verdict (evaluate_comparator go condition result p q context o)
      ≡ verdict (evaluate_comparator go condition result p' q' context o)
unfolding evaluate_comparator
comparator-verdict go condition result p q p' q' context none = refl
comparator-verdict go condition result p q p' q' context (some c) =
    with-verdict go condition c p q p' q'
      (sanitize_and_resolve go (split (separator c) condition) result context)

-- Whether evaluate panics and what it returns does not depend on the options of the display.
pub evaluate-verdict :
    (go : Library) (condition : Text) (result : Result) (p q p' q' : Bool) (context : Option Fields)
    → verdict (evaluate go condition result p q context)
      ≡ verdict (evaluate go condition result p' q' context)
unfolding evaluate
evaluate-verdict go condition result p q p' q' context =
    comparator-verdict go condition result p q p' q' context (comparator_of condition)
