-- ===== src/Tests/Memory.antt =====
-- The memory store on concrete inputs.
use gatus.Prelude.{
  to_bits, ℕ, ◌+◌, ◌*◌, ◌≡◌, ◌≢◌, refl, true, none, some, List, [], ◌∷◌, pos, ◌≤ℤ◌, codes, arith,
  sub_64, mul_64,
}
use gatus.Clock.{minute, hour, unix, truncate_hour, milliseconds}
use gatus.Endpoint.{Result, empty_result, event_start}
use gatus.Memory.Paging.{get_start_and_end_index, EndpointStatusParams}
use gatus.Memory.Paging.Bounds.{indices_in_order}
use gatus.Memory.Uptime.{
  HourlyUptimeStatistics, Uptime, hour_of, lookup_hour, process_uptime_after_result,
}
use gatus.Memory.Uptime.Hours.{lookup_hour-process}
use gatus.Memory.Status.{Status, keep_last, add_result, shallow_copy_endpoint_status}
use gatus.Memory.Status.Events.{Tracks, add_result-Tracks}
use gatus.Memory.Status.History.{
  add_results, results_of, results-add_results, Are64, shallow_copy-ne-none,
}

abbrev numbers : List ℕ
numbers = 1 ∷ 2 ∷ 3 ∷ 4 ∷ 5 ∷ []

indices_in_order_example : (pos 1 ≤ℤ pos 3) × (pos 3 ≤ℤ pos 5)
unfolding get_start_and_end_index sub_64 mul_64
indices_in_order_example =
    indices_in_order 5 (pos 2) (pos 2) (omega arith)
      (record { low = omega arith; high = omega arith })
      (record { low = omega arith; high = omega arith }) (omega arith) (omega arith)

-- Noon of some day, and results at noon and at one o'clock.
abbrev noon : ℕ
noon = 63745056000000000000

abbrev up : Result
up = record empty_result { success = true; duration = pos (2 * 1000000); timestamp = noon }

abbrev down : Result
down = record empty_result { duration = pos (9 * 1000000); timestamp = noon + hour }

abbrev one_up : HourlyUptimeStatistics
one_up = record {
  total_executions = 1;
  successful_executions = 1;
  total_executions_response_time = 2;
}

abbrev at_noon : Uptime
at_noon = (pos 1609459200, one_up) ∷ []

hour_of-noon : hour_of noon ≡ pos 1609459200
unfolding hour_of unix truncate_hour
hour_of-noon = refl

abbrev half_past : Result
half_past = record up { timestamp = noon + 30 * minute }

-- One more success in the hour of noon.
lookup_hour-process_example :
    lookup_hour (pos 1609459200) (process_uptime_after_result noon at_noon half_past)
    ≡ some (record {
      total_executions = 2;
      successful_executions = 2;
      total_executions_response_time = 4;
    })
unfolding hour_of lookup_hour unix truncate_hour milliseconds to_bits
lookup_hour-process_example = lookup_hour-process noon at_noon half_past (pos 1609459200)

abbrev fresh : Status
fresh = record {
  name = codes "api";
  group = codes "core";
  key = codes "core_api";
  results = [];
  results_count = 0;
  events = record { event_type = event_start; timestamp = noon } ∷ [];
  uptime = [];
}

add_result-Tracks_example : Tracks 50 (add_result noon fresh up 100 50)
add_result-Tracks_example =
    add_result-Tracks noon fresh up 100 50 (omega arith) (omega arith) (record {
      alternates = tt;
      latest = refl;
      bounded = omega arith;
      starts_short = λ h. omega arith;
    })

results-add_results_example :
    (add_results 2 50 fresh ((noon, up) ∷ (noon, down) ∷ (noon, up) ∷ [])).results ≡ down ∷ up ∷ []
unfolding keep_last results_of
results-add_results_example =
    results-add_results 2 50 fresh ((noon, up) ∷ (noon, down) ∷ (noon, up) ∷ []) (omega arith)

abbrev first_page : EndpointStatusParams
first_page = record {
  events_page = pos 1;
  events_page_size = pos 50;
  results_page = pos 4611686018427387905;
  results_page_size = pos 4;
  include_results_count = true;
}

first_page-Are64 : Are64 first_page
first_page-Are64 = record {
  results_page_fits = record { low = omega arith; high = omega arith };
  results_page_size_fits = record { low = omega arith; high = omega arith };
  events_page_fits = record { low = omega arith; high = omega arith };
  events_page_size_fits = record { low = omega arith; high = omega arith };
}

shallow_copy-ne-none_example : shallow_copy_endpoint_status fresh (some first_page) ≢ none
shallow_copy-ne-none_example =
    shallow_copy-ne-none fresh first_page (omega arith) (omega arith) first_page-Are64
