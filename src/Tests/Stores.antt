-- ===== src/Tests/Stores.antt =====
-- A store that fills up and is cleared.
use gatus.Prelude.{
  ℕ, ◌+◌, ◌*◌, ◌≡◌, refl, true, false, none, some, [], ◌∷◌, pos, codes, arith, text_eq,
}
use gatus.Clock.{minute, hour}
use gatus.Endpoint.{Endpoint, Result, empty_result, key}
use gatus.Memory.Cache.{Cache}
use gatus.Gontext.{last}
use gatus.Key.{convert_group_and_name_to_key}
use gatus.Suite.Results
use gatus.Suite.Results.{calculate_success, calculate_success_iff}
use gatus.Memory.Status.{Status}
use gatus.Memory.Store.{Store, Floats, new_store, insert_endpoint_result}
use gatus.Memory.Store.Endpoints.{IsSoundStore, new_store-IsSoundStore, insert-IsSoundStore}
use gatus.Memory.Store.Insertions.{insert_all, results_at, results-inserted}
use gatus.Tests.Caches.{list_cache}

abbrev pub noon : ℕ
noon = 63745056000000000000

abbrev up : Result
up = record empty_result { success = true; duration = pos (2 * 1000000); timestamp = noon }

abbrev pub down : Result
down = record empty_result { duration = pos (10 * 1000000); timestamp = noon + hour }

abbrev pub api : Endpoint
api = record {
  enabled = none;
  name = codes "api";
  group = codes "core";
  url = codes "https://example.org";
  method = codes "GET";
  body = [];
  graphql = false;
  headers = [];
  interval = pos minute;
  dns_config = none;
  ssh_config = none;
  ui_config = none;
  key_override = [];
  alerts = [];
  number_of_failures_in_a_row = pos 0;
  number_of_successes_in_a_row = pos 0;
  last_reminder_sent = 0;
  conditions = codes "[STATUS] == 200" ∷ [];
  store = [];
  always_run = false;
}

-- Pairs in place of quotients.
abbrev pairs : Floats
pairs = record {
  zero_float = 0;
  quotient = λ a b. 1000 * a + b;
  int_quotient = λ a b. pos (1000 * a + b);
}

abbrev pub E : Cache Status
E = list_cache Status

abbrev pub S : Cache Results.Status
S = list_cache Results.Status

abbrev empty : Store E.C S.C
unfolding new_store
empty = new_store E S 100 50

empty-IsSoundStore : IsSoundStore E S empty
unfolding empty
empty-IsSoundStore = new_store-IsSoundStore E S 100 50 (omega arith) (omega arith)

-- After a result.
abbrev store : Store E.C S.C
unfolding empty
store = insert_endpoint_result E S noon noon empty api up

abbrev other : Endpoint
other = record api { name = codes "other" }

-- A store that keeps two results of each endpoint.
results-inserted_example :
    results_at E S
      (insert_all E S (new_store E S 2 50) (
        record { start = noon; now = noon; endpoint = api; result = up }
        ∷ record { start = noon; now = noon; endpoint = other; result = down }
        ∷ record { start = noon; now = noon; endpoint = api; result = down }
        ∷ record { start = noon; now = noon; endpoint = api; result = up }
        ∷ []))
      (codes "core_api")
    ≡ down ∷ up ∷ []
unfolding text_eq key convert_group_and_name_to_key
results-inserted_example =
    results-inserted E S 2 50
      (record { start = noon; now = noon; endpoint = api; result = up }
        ∷ record { start = noon; now = noon; endpoint = other; result = down }
        ∷ record { start = noon; now = noon; endpoint = api; result = down }
        ∷ record { start = noon; now = noon; endpoint = api; result = up }
        ∷ [])
      (codes "core_api")

insert-IsSoundStore_example : IsSoundStore E S (insert_endpoint_result E S noon noon empty api up)
insert-IsSoundStore_example = insert-IsSoundStore E S noon noon empty api up empty-IsSoundStore

-- What the store holds after an hour's two results.
abbrev busy : Status
busy = record {
  name = codes "api";
  group = codes "core";
  key = codes "core_api";
  results = up ∷ down ∷ [];
  results_count = 0;
  events = [];
  uptime =
      (
        pos 1609459200,
        record {
          total_executions = 3;
          successful_executions = 2;
          total_executions_response_time = 30;
        },
      )
      ∷ (
        pos 1609462800,
        record {
          total_executions = 1;
          successful_executions = 1;
          total_executions_response_time = 10;
        },
      )
      ∷ [];
}

abbrev busy_store : Store E.C S.C
unfolding list_cache
busy_store = record {
  endpoint_cache = (codes "core_api", busy) ∷ [];
  suite_cache = [];
  maximum_number_of_results = 100;
  maximum_number_of_events = 50;
}

busy_there : E.get busy_store.endpoint_cache (codes "core_api") ≡ some busy
unfolding busy_store list_cache text_eq
busy_there = refl

abbrev checkout : Results.Result
checkout = record {
  name = codes "checkout";
  group = [];
  success = false;
  timestamp = noon;
  duration = pos 0;
  endpoint_results = up ∷ down ∷ [];
  context = last;
  errors = [];
}
