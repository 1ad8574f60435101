-- ===== src/Tests/Configurations.antt =====
-- A configuration with an endpoint, an external endpoint and a suite.
use gatus.Prelude.{◌≡◌, ◌↔◌, refl, none, some, [], ◌∷◌, pos, codes, text_eq, false, Text, ◌≤◌}
use gatus.Endpoint.{key}
use gatus.Key.{convert_group_and_name_to_key}
use gatus.Configuration.{Config, validate_unique_keys, set_concurrency_defaults}
use gatus.Configuration.Uniqueness.{uses_of, validate_unique_keys_iff}
use gatus.Tests.Stores.{api}
use gatus.Tests.Heartbeats.{backup}

abbrev pub settings : Config
settings = record {
  endpoints = api ∷ [];
  external_endpoints = backup ∷ [];
  suites = [];
  single_endpoint = [];
  disable_monitoring_lock = false;
  concurrency = pos 0;
}

validate_unique_keys_iff_example :
    (validate_unique_keys settings ≡ none) ↔ ((k : Text) → uses_of settings k ≤ 1)
validate_unique_keys_iff_example = validate_unique_keys_iff settings

duplicate_runs :
    validate_unique_keys (record settings { endpoints = api ∷ api ∷ [] }) ≡ some (codes "core_api")
unfolding validate_unique_keys text_eq key convert_group_and_name_to_key
duplicate_runs = refl

-- A concurrency of 0 is replaced by the default.
concurrency_runs : (set_concurrency_defaults settings).concurrency ≡ pos 3
unfolding set_concurrency_defaults
concurrency_runs = refl
