-- ===== src/Tests/Suites.antt =====
-- A suite of three endpoints of which the first fails, and the store of suites.
use gatus.Prelude.{
  ℕ, ◌+◌, ◌*◌, ◌≡◌, ◌≢◌, Option, Text, ◌↔◌, true, false, none, some, [], ◌∷◌, pos, codes, All,
  length, arith, text_eq, refl,
}
use gatus.Clock.{minute}
use gatus.Endpoint
use gatus.Endpoint.{Endpoint, empty_result, contains_text}
use gatus.Gontext.{text}
use gatus.Suite.{Suite}
use gatus.Suite.Results
use gatus.Suite.Execution.{Runner, value, execute, store_result_values}
use gatus.Suite.Order.{Ran, execute-Ran, execute-success_iff}
use gatus.Clock.{sub}
use gatus.Gontext.{set, split_at_dots}
use gatus.Suite.Execution.{
  run_endpoints, run_endpoint, evaluate_endpoint, check_timeout, store_each, with_failure,
  note_result,
}
use gatus.Suite.Results.{calculate_success}
use gatus.Suite.Validation.{validate_suite, validate_endpoints, set_suite_defaults}
use gatus.Memory.Cache.{Cache}
use gatus.Memory.Paging.{SuiteStatusParams}
use gatus.Memory.Status.{Status}
use gatus.Memory.Store.{Store, new_store}
use gatus.Memory.Store.Suites.{
  shallow_copy_suite_status, shallow_copy_suite-ne-none, insert_suite_result, AreSoundSuites,
}
use gatus.Tests.Caches.{list_cache}

abbrev login : Endpoint
login = record {
  enabled = none;
  name = codes "login";
  group = [];
  url = codes "https://example.org/login";
  method = codes "GET";
  body = [];
  graphql = false;
  headers = [];
  interval = pos minute;
  dns_config = none;
  ssh_config = none;
  ui_config = none;
  key_override = [];
  alerts = [];
  number_of_failures_in_a_row = pos 0;
  number_of_successes_in_a_row = pos 0;
  last_reminder_sent = 0;
  conditions = codes "[STATUS] == 200" ∷ [];
  store = (codes "token", codes "[BODY].token") ∷ [];
  always_run = false;
}

abbrev checkout : Endpoint
checkout = record login { name = codes "checkout" }

abbrev logout : Endpoint
logout = record login { name = codes "logout"; always_run = true }

abbrev purchase : Suite
purchase = record {
  name = codes "purchase";
  group = codes "shop";
  enabled = none;
  interval = pos (10 * minute);
  timeout = pos (5 * minute);
  initial_context = none;
  endpoints = login ∷ checkout ∷ logout ∷ [];
}

-- A world that counts the calls of the clock; every evaluation fails, and every text is extracted.
abbrev failing : Runner ℕ
failing = record {
  now = λ w. (w, w + 1);
  timed_out = λ w. (false, w);
  show_duration = λ d. codes "5m0s";
  evaluate = λ ep ctx w. (empty_result, w);
  extract = λ placeholder result. value (text placeholder);
}

-- The failure of the login skips the checkout, and the logout runs all the same.
execute-Ran_example :
    Ran false (login ∷ checkout ∷ logout ∷ []) (execute failing purchase 0).0.endpoint_results
execute-Ran_example = execute-Ran failing purchase 0

execute-success_iff_example : ((execute failing purchase 0).0.success ≡ true) ↔ (
    All (λ e. e.success ≡ true) (execute failing purchase 0).0.endpoint_results
    × ((execute failing purchase 0).0.errors ≡ []))
execute-success_iff_example = execute-success_iff failing purchase 0

abbrev E : Cache Status
E = list_cache Status

abbrev S : Cache Results.Status
S = list_cache Results.Status

abbrev empty : Store E.C S.C
empty = new_store E S 100 50

abbrev failed : Results.Result
failed = (execute failing purchase 0).0

empty-AreSoundSuites : AreSoundSuites E S empty
unfolding new_store
empty-AreSoundSuites = record {
  at_suite_key = λ k status h. absurd (ground (arith, h, S.get-new_cache k));
}

abbrev stored : Store E.C S.C
stored = insert_suite_result E S empty purchase failed

abbrev far_page : SuiteStatusParams
far_page = record { page = pos 4611686018427387905; page_size = pos 4 }

abbrev two_runs : Results.Status
two_runs = record {
  name = codes "purchase";
  group = codes "shop";
  key = codes "shop_purchase";
  results = failed ∷ failed ∷ [];
}

shallow_copy_suite-ne-none_example : shallow_copy_suite_status two_runs (some far_page) ≢ none
shallow_copy_suite-ne-none_example =
    shallow_copy_suite-ne-none two_runs far_page (omega arith)
      (record { low = omega arith; high = omega arith })
      (record { low = omega arith; high = omega arith })

abbrev login_failed : Endpoint.Result
login_failed = record empty_result { name = codes "login"; timestamp = 1; duration = pos 1 }

abbrev logout_failed : Endpoint.Result
logout_failed = record empty_result { name = codes "logout"; timestamp = 3; duration = pos 1 }

abbrev single : Suite
single = record purchase { endpoints = login ∷ [] }

single_results : length (execute failing single 0).0.endpoint_results ≡ 1
unfolding execute run_endpoints run_endpoint evaluate_endpoint check_timeout store_result_values
    store_each with_failure note_result calculate_success set split_at_dots sub
single_results = refl

abbrev accept : Endpoint → Endpoint × Option Text
accept ep = (ep, none)

purchase_accepted : (validate_suite accept purchase).1 ≡ none
unfolding validate_suite validate_endpoints set_suite_defaults contains_text text_eq
purchase_accepted = refl
