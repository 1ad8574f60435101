-- ===== src/Condition.antt =====
-- config/endpoint/condition.go and pattern/pattern.go: the evaluation of a condition. The
-- functions of strconv, time, path/filepath, fmt and encoding/json are parameters.
pub mod Display
pub mod Evaluation
pub mod Equality
pub mod Outcome
pub mod Validation
pub mod Grammar
use gatus.Prelude.{
  ℕ, ◌-◌, ◌%◌, Bool, true, false, not, ◌&&◌, ◌||◌, Option, none, some, List, [], ◌∷◌, ◌++◌, ℤ, pos,
  negsuc, sub_ℕ, mul_64, ltb_ℤ, leb_ℤ, eq_ℤ, Text, codes, text_eq, has_prefix, has_suffix,
  trim_prefix, trim_suffix, trim_space, contains, split, replace_all, show_ℤ, length, take, ltb,
  if◌then◌else◌, ◌+◌, map, ◌==◌,
}
use gatus.Clock.{Duration, milliseconds, millisecond, second}
use gatus.Endpoint.{ConditionResult, Result, empty_result, add_error}
use gatus.Gontext.{Fields}
use gatus.JsonPath.{Json}
use gatus.Placeholder.{
  Resolution, resolved, resolution_error, resolution_panics, resolve_placeholder, body_placeholder,
  ip_placeholder, domain_expiration_placeholder, certificate_expiration_placeholder,
  function_suffix, invalid,
}

-- The functions of Go's library.
pub record Library : Type 0 where
  pub json : Json
  -- strconv.ParseInt(s, 0, 64)
  pub parse_int : Text → Option ℤ
  -- int64 of strconv.ParseFloat(s, 64)
  pub parse_float : Text → Option ℤ
  -- time.ParseDuration
  pub parse_duration : Text → Option Duration
  -- time.Duration.String
  pub show_duration : Duration → Text
  -- filepath.Match, which is false with an error
  pub glob : Text → Text → Bool

abbrev pub pattern_function_prefix : Text
pattern_function_prefix = codes "pat("

abbrev pub any_function_prefix : Text
any_function_prefix = codes "any("

-- maximumLengthBeforeTruncatingWhenComparedWithPattern.
abbrev pub maximum_length : ℕ
maximum_length = 25

-- pattern.Match.
unfoldable pub match_pattern : Library → Text → Text → Bool
match_pattern go pattern s =
    if text_eq pattern (codes "*")
    then true
    else go.glob (replace_all (codes "/") [] pattern) (replace_all (codes "/") [] s)

-- The text without the call of a function, where it is one: `closed` is whether the parameter it
-- comes from ends with FunctionSuffix.
unfoldable pub strip_call : Text → Bool → Text → Text
strip_call prefix closed s =
    if has_prefix prefix s && closed then trim_suffix function_suffix (trim_prefix prefix s) else s

-- The loop over the options of any().
unfoldable pub one_of : List Text → Text → Bool
one_of [] s = false
one_of (option ∷ options) s = text_eq (trim_space option) s || one_of options s

-- The comparison of two texts without functions.
unfoldable pub same_value : Library → Text → Text → Bool
same_value go first second = elim (go.parse_int first) [
  | none ↦ text_eq first second
  | some m ↦ elim (go.parse_int second) [ none ↦ text_eq first second | some n ↦ eq_ℤ m n ]
]

-- isEqual from the test for any() on.
unfoldable pub is_equal_any : Library → Bool → Text → Bool → Text → Bool
unfolding strip_call one_of same_value
is_equal_any go first_closed first second_closed second =
    let is_first = has_prefix any_function_prefix first && first_closed in
    let is_second = has_prefix any_function_prefix second && second_closed in
    let first' = strip_call any_function_prefix first_closed first in
    let second' = strip_call any_function_prefix second_closed second in
    if is_first && not is_second
    then one_of (split (codes ",") first') second'
    else if not is_first && is_second
    then one_of (split (codes ",") second') first'
    else same_value go first' second'

-- isEqual, for parameters of which it is known whether they end with FunctionSuffix.
unfoldable pub is_equal_closed : Library → Bool → Text → Bool → Text → Bool
unfolding is_equal_any match_pattern
is_equal_closed go first_closed first second_closed second =
    let is_first = has_prefix pattern_function_prefix first && first_closed in
    let is_second = has_prefix pattern_function_prefix second && second_closed in
    let first' = strip_call pattern_function_prefix first_closed first in
    let second' = strip_call pattern_function_prefix second_closed second in
    if is_first && not is_second
    then match_pattern go first' second'
    else if not is_first && is_second
    then match_pattern go second' first'
    else is_equal_any go first_closed first' second_closed second'

-- isEqual.
unfoldable pub is_equal : Library → Text → Text → Bool
unfolding is_equal_closed
is_equal go first second =
    let first_closed = has_suffix function_suffix first in
    let second_closed = has_suffix function_suffix second in
    if first_closed || second_closed
    then is_equal_closed go first_closed first second_closed second
    else same_value go first second

-- The parameters of a condition, what they are resolved to, and the result with the errors.
pub record Sanitized : Type 0 where
  pub parameters : List Text
  pub resolved_parameters : List Text
  pub result : Result

-- One more parameter in front.
unfoldable pub put_first : Text → Text → Option Sanitized → Option Sanitized
put_first parameter resolved_parameter none = none
put_first parameter resolved_parameter (some s) = some (record s {
  parameters = parameter ∷ s.parameters;
  resolved_parameters = resolved_parameter ∷ s.resolved_parameters;
})

-- sanitizeAndResolveWithContext; `none` is a panic.
unfoldable pub sanitize_and_resolve :
    Library → List Text → Result → Option Fields → Option Sanitized
unfolding put_first add_error
sanitize_and_resolve go [] result context =
    some (record { parameters = []; resolved_parameters = []; result = result })
sanitize_and_resolve go (element ∷ elements) result context =
    let parameter = trim_space element in
    elim (resolve_placeholder go.json parameter result context) [
      | resolved t ↦ put_first parameter t (sanitize_and_resolve go elements result context)
      | resolution_error e ↦
          put_first parameter (invalid parameter)
            (sanitize_and_resolve go elements (add_error result e) context)
      | resolution_panics ↦ none
    ]

abbrev pub or_zero : Option ℤ → ℤ
or_zero none = pos 0
or_zero (some z) = z

-- A parameter as a number.
unfoldable pub parse_number : Library → Text → ℤ
parse_number go element = elim (go.parse_int element) [
  | some n ↦ n
  | none ↦ or_zero (go.parse_float element)
]

-- The body of the loop of sanitizeAndResolveNumericalWithContext.
unfoldable pub numerical : Library → Text → ℤ
unfolding parse_number
numerical go element = elim (go.parse_duration element) [
  | none ↦ parse_number go element
  | some d ↦ if eq_ℤ d (pos 0) then parse_number go element else milliseconds d
]
