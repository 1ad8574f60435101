-- ===== src/Suite/Validation.antt =====
-- ValidateAndSetDefaults of config/suite/suite.go. The validation of an endpoint is a parameter; an
-- error of it is a text.
use gatus.Prelude.{
  ℕ, ◌*◌, ◌<◌, ◌≤ℤ◌, ◌≢◌, arith, ◌≡◌, Option, none, some, List, [], ◌∷◌, pos, ltb_ℤ, eq_ℤ, length,
  ◌==◌, Text, if◌then◌else◌,
}
use gatus.Clock.{minute}
use gatus.Endpoint.{Endpoint, contains_text}
use gatus.Gontext.{last}
use gatus.Suite.{Suite}

pub data SuiteError : Type 0 where
  err_suite_with_no_name : SuiteError
  err_suite_with_no_endpoints : SuiteError
  err_suite_with_duplicate_endpoint_names : SuiteError
  err_suite_with_invalid_timeout : SuiteError
  invalid_endpoint : Text → SuiteError

abbrev pub default_interval : ℕ
default_interval = 10 * minute

abbrev pub default_timeout : ℕ
default_timeout = 5 * minute

module _ (validate_endpoint : Endpoint → Endpoint × Option Text) where
  -- The loop over the endpoints, with the names so far: the endpoints as they are left, and the
  -- error at which it stops.
  unfoldable pub validate_endpoints :
      Text → List Text → List Endpoint → List Endpoint × Option SuiteError
  validate_endpoints group names [] = ([], none)
  validate_endpoints group names (ep ∷ eps) =
      let (later, err) = validate_endpoints group (ep.name ∷ names) eps in
      if contains_text names ep.name
      then (ep ∷ eps, some err_suite_with_duplicate_endpoint_names)
      else (let (ep', failure) = validate_endpoint (record ep { group = group }) in
          elim failure [
            | some e ↦ (ep' ∷ eps, some (invalid_endpoint e))
            | none ↦ (ep' ∷ later, err)
          ])

  -- The defaults, and the check of the timeout.
  unfoldable pub set_suite_defaults : Suite → Suite × Option SuiteError
  set_suite_defaults s =
      let interval = (if eq_ℤ s.interval (pos 0) then pos default_interval else s.interval) in
      let timeout = (if eq_ℤ s.timeout (pos 0) then pos default_timeout else s.timeout) in
      let s' = record s { interval = interval; timeout = timeout } in
      if ltb_ℤ timeout (pos 0) then (s', some err_suite_with_invalid_timeout) else (
        record s' {
          initial_context = elim s.initial_context [
            | none ↦ some last
            | some context ↦ some context
          ];
        },
        none,
      )

  -- ValidateAndSetDefaults of a suite: the suite as it is left, and the error.
  unfoldable pub validate_suite : Suite → Suite × Option SuiteError
  unfolding validate_endpoints set_suite_defaults
  validate_suite s =
      if length s.name == 0
      then (s, some err_suite_with_no_name)
      else if length s.endpoints == 0
      then (s, some err_suite_with_no_endpoints)
      else (let (eps, err) = validate_endpoints s.group [] s.endpoints in
          let s' = record s { endpoints = eps } in
          elim err [ some e ↦ (s', some e) | none ↦ set_suite_defaults s' ])

  -- A suite that validates has a name, an endpoint, a context and a positive timeout.
  pub validate_suite-ok :
      (s : Suite)
      → (validate_suite s).1 ≡ none
      → (0 < length s.name)
        × (0 < length s.endpoints)
        × (pos 1 ≤ℤ (validate_suite s).0.timeout)
        × ((validate_suite s).0.initial_context ≢ none)
  unfolding validate_suite set_suite_defaults
  validate_suite-ok s h = ground arith
