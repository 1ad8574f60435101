-- ===== src/Suite/Extraction.antt =====
-- extractValueForStorage of config/suite/suite.go. ParseInt in base 10, ParseFloat and ParseBool
-- are parameters beside those of a condition; a panic of the resolution is `none`.
use gatus.Prelude.{
  ℕ, Bool, Option, none, some, ℤ, Text, codes, has_suffix, trim_suffix, if◌then◌else◌, ◌++◌,
}
use gatus.Endpoint.{Result}
use gatus.Gontext.{Value, bool, int, float, text}
use gatus.JsonPath.{Json}
use gatus.Placeholder.{
  Resolution, resolved, resolution_error, resolution_panics, resolve_placeholder, invalid_suffix,
}
use gatus.Suite.Execution.{Extracted, value, extraction_error}

pub record Parsers : Type 0 where
  pub json : Json
  -- strconv.ParseInt(s, 10, 64)
  pub parse_decimal : Text → Option ℤ
  -- the bits of strconv.ParseFloat(s, 64)
  pub parse_float_bits : Text → Option ℕ
  -- strconv.ParseBool
  pub parse_bool : Text → Option Bool

abbrev pub invalid_ending : Text
invalid_ending = codes " " ++ invalid_suffix

unfoldable pub read_bool : Parsers → Text → Value
read_bool parsers t = elim (parsers.parse_bool t) [ some b ↦ bool b | none ↦ text t ]

unfoldable pub read_float : Parsers → Text → Value
unfolding read_bool
read_float parsers t = elim (parsers.parse_float_bits t) [
  | some bits ↦ float bits
  | none ↦ read_bool parsers t
]

-- The value of a resolved text: a whole number, a float, a Boolean or a text.
unfoldable pub read_value : Parsers → Text → Value
unfolding read_float
read_value parsers t = elim (parsers.parse_decimal t) [
  | some n ↦ int n
  | none ↦ read_float parsers t
]

unfoldable pub extract_resolved : Parsers → Resolution → Option Extracted
unfolding read_value
extract_resolved parsers resolution_panics = none
extract_resolved parsers (resolution_error e) = some (extraction_error e)
extract_resolved parsers (resolved t) =
    if has_suffix invalid_ending t
    then some (extraction_error (codes "invalid path: " ++ trim_suffix invalid_ending t))
    else some (value (read_value parsers t))

-- extractValueForStorage.
unfoldable pub extract_value_for_storage : Parsers → Text → Result → Option Extracted
unfolding extract_resolved
extract_value_for_storage parsers placeholder result =
    extract_resolved parsers (resolve_placeholder parsers.json placeholder result none)
