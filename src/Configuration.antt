-- ===== src/Configuration.antt =====
-- The validation of the configuration as a whole: config/config.go. Of the configuration the fields
-- that are read here are kept; log lines are left out.
pub mod Uniqueness
use gatus.Prelude.{
  ℕ, ◌≡◌, Bool, true, false, not, ◌&&◌, ◌||◌, Option, none, some, List, [], ◌∷◌, ◌++◌, map, ℤ, pos,
  leb_ℤ, Text, text_eq, to_lower, length, ◌==◌, if◌then◌else◌,
}
use gatus.Key.{convert_group_and_name_to_key}
use gatus.Endpoint.{
  Endpoint, key, is_enabled, contains_text, ExternalEndpoint, external_key, is_external_enabled,
}
use gatus.Suite.{Suite, suite_key}

-- Config; ui.single-endpoint is empty where it is not set.
pub record Config : Type 0 where
  pub endpoints : List Endpoint
  pub external_endpoints : List ExternalEndpoint
  pub suites : List Suite
  pub single_endpoint : Text
  pub disable_monitoring_lock : Bool
  pub concurrency : ℤ

-- GetEndpointByKey.
unfoldable pub get_endpoint_by_key : List Endpoint → Text → Option Endpoint
get_endpoint_by_key [] k = none
get_endpoint_by_key (ep ∷ endpoints) k =
    let rest = get_endpoint_by_key endpoints k in
    if text_eq (key ep) (map to_lower k) then some ep else rest

-- GetExternalEndpointByKey.
unfoldable pub get_external_endpoint_by_key : List ExternalEndpoint → Text → Option ExternalEndpoint
get_external_endpoint_by_key [] k = none
get_external_endpoint_by_key (ee ∷ endpoints) k =
    let rest = get_external_endpoint_by_key endpoints k in
    if text_eq (external_key ee) (map to_lower k) then some ee else rest

-- The key of an enabled endpoint, or of an enabled external endpoint, that a key finds.
unfoldable pub enabled_key : Option Endpoint → Option Text
enabled_key none = none
enabled_key (some ep) = if is_enabled ep then some (key ep) else none

unfoldable pub enabled_external_key : Option ExternalEndpoint → Option Text
enabled_external_key none = none
enabled_external_key (some ee) = if is_external_enabled ee then some (external_key ee) else none

-- ValidateSingleEndpointConfig: the settings as they are left; `none` is ErrInvalidSingleEndpoint.
unfoldable pub validate_single_endpoint : Config → Option Config
unfolding get_endpoint_by_key get_external_endpoint_by_key enabled_key enabled_external_key
validate_single_endpoint s =
    if length s.single_endpoint == 0
    then some s
    else elim (enabled_key (get_endpoint_by_key s.endpoints s.single_endpoint)) [
      | some k ↦ some (record s { single_endpoint = k })
      | none ↦
          elim (enabled_external_key
            (get_external_endpoint_by_key s.external_endpoints s.single_endpoint)) [
              | some k ↦ some (record s { single_endpoint = k })
              | none ↦ none
            ]
    ]

-- The keys of the endpoints of a suite, which have the suite's group.
unfoldable pub keys_within : Suite → List Endpoint → List Text
keys_within s [] = []
keys_within s (ep ∷ endpoints) =
    convert_group_and_name_to_key s.group ep.name ∷ keys_within s endpoints

unfoldable pub suites_keys : List Suite → List Text
unfolding keys_within
suites_keys [] = []
suites_keys (s ∷ suites) = (suite_key s ∷ keys_within s s.endpoints) ++ suites_keys suites

-- The keys in the order in which ValidateUniqueKeys comes to them.
unfoldable pub all_keys : Config → List Text
unfolding suites_keys
all_keys s = map key s.endpoints ++ map external_key s.external_endpoints ++ suites_keys s.suites

-- Its loops over the keys, which share the map of the keys that were seen: the first key that was
-- seen before.
unfoldable pub find_duplicate : List Text → List Text → Option Text
unfolding contains_text
find_duplicate seen [] = none
find_duplicate seen (k ∷ keys) =
    let rest = find_duplicate (k ∷ seen) keys in if contains_text seen k then some k else rest

-- ValidateUniqueKeys: the duplicate key of its error.
unfoldable pub validate_unique_keys : Config → Option Text
unfolding find_duplicate all_keys
validate_unique_keys s = find_duplicate [] (all_keys s)

abbrev pub default_concurrency : ℤ
default_concurrency = pos 3

-- ValidateAndSetConcurrencyDefaults.
unfoldable pub set_concurrency_defaults : Config → Config
set_concurrency_defaults s =
    if s.disable_monitoring_lock
    then record s { concurrency = pos 0 }
    else if leb_ℤ s.concurrency (pos 0) && not s.disable_monitoring_lock
    then record s { concurrency = default_concurrency }
    else s
