-- ===== src/Condition/Evaluation.antt =====
-- evaluate and Validate of config/endpoint/condition.go.
use gatus.Prelude.{
  Bool, false, not, Option, none, some, List, [], ◌∷◌, ◌++◌, ltb_ℤ, leb_ℤ, Text, codes, contains,
  split, if◌then◌else◌,
}
use gatus.Endpoint.{Result, empty_result, add_error}
use gatus.Gontext.{Fields}
use gatus.Placeholder.{body_placeholder, ip_placeholder, domain_expiration_placeholder}
use gatus.Condition.{Library, is_equal, Sanitized, sanitize_and_resolve, numerical}
use gatus.Condition.Display.{prettify, prettify_numerical_parameters}

-- The comparators, in the order in which evaluate tries them.
pub data Comparator : Type 0 where
  equal not_equal at_most at_least above below : Comparator

unfoldable pub symbol : Comparator → Text
symbol equal = codes "=="
symbol not_equal = codes "!="
symbol at_most = codes "<="
symbol at_least = codes ">="
symbol above = codes ">"
symbol below = codes "<"

unfoldable pub separator : Comparator → Text
unfolding symbol
separator c = codes " " ++ symbol c ++ codes " "

-- The comparator whose branch evaluate takes, if the condition is valid.
unfoldable pub comparator_of : Text → Option Comparator
unfolding separator
comparator_of condition =
    if contains (separator equal) condition
    then some equal
    else if contains (separator not_equal) condition
    then some not_equal
    else if contains (separator at_most) condition
    then some at_most
    else if contains (separator at_least) condition
    then some at_least
    else if contains (separator above) condition
    then some above
    else if contains (separator below) condition
    then some below
    else none

-- The comparison of two resolved parameters.
unfoldable pub compare_values : Library → Comparator → Text → Text → Bool
compare_values go equal left right = is_equal go left right
compare_values go not_equal left right = not (is_equal go left right)
compare_values go at_most left right = leb_ℤ (numerical go left) (numerical go right)
compare_values go at_least left right = leb_ℤ (numerical go right) (numerical go left)
compare_values go above left right = ltb_ℤ (numerical go right) (numerical go left)
compare_values go below left right = ltb_ℤ (numerical go left) (numerical go right)

-- The two parameters and what they are resolved to.
unfoldable pub show_values : Library → Comparator → Text → Text → Text → Text → Text
show_values go equal left right u v = prettify left right u v (codes "==")
show_values go not_equal left right u v = prettify left right u v (codes "!=")
show_values go c left right u v =
    prettify_numerical_parameters go left right (numerical go u) (numerical go v) (symbol c)

-- shouldResolveCondition.
unfoldable pub should_resolve : Bool → Bool → Bool → Bool
should_resolve dont_resolve_failed resolve_successful success =
    if success then resolve_successful else not dont_resolve_failed

-- What evaluate does with the resolved parameters; `none` is the panic of an index out of range.
unfoldable pub conclude :
    Library
    → Text
    → Comparator
    → Bool
    → Bool
    → List Text
    → List Text
    → Result
    → Option (Result × Bool)
unfolding compare_values show_values should_resolve
conclude go condition c dont_resolve_failed resolve_successful (left ∷ right ∷ parameters)
      (u ∷ v ∷ resolved_parameters) result =
    let success = compare_values go c u v in
    let display =
      if should_resolve dont_resolve_failed resolve_successful success
      then show_values go c left right u v
      else condition in
    some (
      record result {
        condition_results =
            result.condition_results ++ record { condition = display; success = success } ∷ [];
      },
      success,
    )
conclude go condition c dont_resolve_failed resolve_successful parameters resolved_parameters
      result =
    none

unfoldable pub evaluate_with :
    Library → Text → Comparator → Bool → Bool → Option Sanitized → Option (Result × Bool)
unfolding conclude
evaluate_with go condition c dont_resolve_failed resolve_successful none = none
evaluate_with go condition c dont_resolve_failed resolve_successful (some s) =
    conclude go condition c dont_resolve_failed resolve_successful s.parameters
      s.resolved_parameters s.result

-- The chain of tests of evaluate, for the comparator that they find.
unfoldable pub evaluate_comparator :
    Library
    → Text
    → Result
    → Bool
    → Bool
    → Option Fields
    → Option Comparator
    → Option (Result × Bool)
unfolding evaluate_with sanitize_and_resolve
evaluate_comparator go condition result dont_resolve_failed resolve_successful context none =
    some (add_error result (codes "invalid condition: " ++ condition), false)
evaluate_comparator go condition result dont_resolve_failed resolve_successful context (some c) =
    evaluate_with go condition c dont_resolve_failed resolve_successful
      (sanitize_and_resolve go (split (separator c) condition) result context)

-- evaluate: the result as it is left and what is returned; `none` is a panic.
unfoldable pub evaluate :
    Library → Text → Result → Bool → Bool → Option Fields → Option (Result × Bool)
unfolding evaluate_comparator comparator_of
evaluate go condition result dont_resolve_failed resolve_successful context =
    evaluate_comparator go condition result dont_resolve_failed resolve_successful context
      (comparator_of condition)

-- The error with which Validate ends, where evaluate returns.
unfoldable pub first_error : List Text → Option Text
first_error [] = none
first_error (e ∷ errors) = some e

-- Validate: `none` is a panic, `some none` is success.
unfoldable pub validate : Library → Text → Option (Option Text)
unfolding evaluate first_error
validate go condition = elim (evaluate go condition empty_result false false none) [
  | none ↦ none
  | some (result, success) ↦ some (first_error result.errors)
]

-- hasBodyPlaceholder, hasDomainExpirationPlaceholder and hasIPPlaceholder.
unfoldable pub has_body_placeholder : Text → Bool
has_body_placeholder condition = contains body_placeholder condition

unfoldable pub has_domain_expiration_placeholder : Text → Bool
has_domain_expiration_placeholder condition = contains domain_expiration_placeholder condition

unfoldable pub has_ip_placeholder : Text → Bool
has_ip_placeholder condition = contains ip_placeholder condition
