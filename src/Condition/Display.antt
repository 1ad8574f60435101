-- ===== src/Condition/Display.antt =====
-- How a condition is displayed: formatDuration, prettify and prettifyNumericalParameters of
-- config/endpoint/condition.go.
use gatus.Prelude.{
  ◌-◌, ◌%◌, not, ◌&&◌, none, some, ℤ, pos, negsuc, sub_ℕ, mul_64, Text, codes, text_eq, has_prefix,
  has_suffix, trim_suffix, show_ℤ, length, take, ltb, if◌then◌else◌, ◌+◌, ◌++◌, ◌||◌,
}
use gatus.Clock.{Duration, millisecond, second}
use gatus.Placeholder.{
  domain_expiration_placeholder, certificate_expiration_placeholder, function_suffix, invalid,
}
use gatus.Condition.{Library, pattern_function_prefix, maximum_length}

-- d.Truncate(time.Second), which rounds towards zero.
unfoldable pub truncate_second : Duration → Duration
truncate_second (pos n) = pos (n - n % second)
truncate_second (negsuc n) = sub_ℕ 0 (n + 1 - (n + 1) % second)

-- The text of a duration without its last components where they are zero.
unfoldable pub trim_zeros : Text → Text
trim_zeros s =
    if text_eq s (codes "0s")
    then s
    else if has_suffix (codes "0s") s
    then trim_suffix (codes "0m") (trim_suffix (codes "0s") s)
    else s

-- formatDuration.
unfoldable pub format_duration : Library → Duration → Text
unfolding truncate_second trim_zeros
format_duration go d = trim_zeros (go.show_duration (truncate_second d))

-- A long value that is compared with the pattern `other`.
unfoldable pub truncate_value : Text → Text → Text
truncate_value other value =
    if has_prefix pattern_function_prefix other
      && (has_suffix function_suffix other && ltb maximum_length (length value))
    then take 25 value ++ codes "...(truncated)"
    else value

-- One side of a condition with what it is resolved to.
unfoldable pub prettify_side : Text → Text → Text
prettify_side parameter value =
    let changed = not (text_eq parameter value) in
    let is_invalid = text_eq value (invalid parameter) in
    if changed && not is_invalid
    then parameter ++ codes " (" ++ value ++ codes ")"
    else if is_invalid
    then value
    else parameter

-- prettify, for the two parameters of a condition and what they are resolved to.
unfoldable pub prettify : Text → Text → Text → Text → Text → Text
unfolding truncate_value prettify_side
prettify left right left_value right_value operator =
    prettify_side left (truncate_value right left_value)
    ++ codes " "
    ++ operator
    ++ codes " "
    ++ prettify_side right (truncate_value left right_value)

-- The body of the loop of prettifyNumericalParameters.
unfoldable pub show_numerical : Library → Text → ℤ → Text
unfolding format_duration
show_numerical go parameter value =
    let as_duration = format_duration go (mul_64 value (pos millisecond)) in
    if text_eq parameter certificate_expiration_placeholder
      || text_eq parameter domain_expiration_placeholder
    then as_duration
    else elim (go.parse_duration parameter) [ some d ↦ as_duration | none ↦ show_ℤ value ]

-- prettifyNumericalParameters.
unfoldable pub prettify_numerical_parameters : Library → Text → Text → ℤ → ℤ → Text → Text
unfolding prettify show_numerical
prettify_numerical_parameters go left right left_value right_value operator =
    prettify left right (show_numerical go left left_value) (show_numerical go right right_value)
      operator
