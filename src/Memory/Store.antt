-- ===== src/Memory/Store.antt =====
-- The in-memory store's operations: storage/store/memory/memory.go. The lock makes each of them
-- one step. A status that the cache holds is never nil, nor is its uptime (NewStatus). The methods
-- for triggered alerts do nothing and are left out, as are Save and Close.
pub mod Endpoints
pub mod Insertions
pub mod Averages
pub mod Suites
use gatus.Prelude.{
  ℕ, ◌+◌, ◌-◌, Bool, true, false, not, Option, none, some, List, [], ◌∷◌, ◌++◌, ℤ, pos, u64, Text,
  length, drop, ltb, leb, ◌==◌, if◌then◌else◌, text_eq,
}
use gatus.Clock.{Time}
use gatus.Endpoint.{Endpoint, Result, Event, event_start, contains_text, key}
use gatus.Key.{convert_group_and_name_to_key}
use gatus.Suite.Results
use gatus.Memory.Cache.{Cache}
use gatus.Memory.Hourly.{hours_loop, hours_fuel}
use gatus.Memory.Paging.{EndpointStatusParams}
use gatus.Memory.Status.{Status, new_status, add_result, shallow_copy_endpoint_status}
use gatus.Memory.Uptime.{HourlyUptimeStatistics, Uptime, lookup_hour}

-- What a call returns: a value, an error of storage/store/common/errors.go, or a panic.
pub data Reply {ℓ} (A : Type ℓ) : Type ℓ where
  ok : A → Reply A
  err_endpoint_not_found : Reply A
  err_suite_not_found : Reply A
  err_invalid_time_range : Reply A
  panic : Reply A

-- float64 arithmetic on the bits of the numbers.
pub record Floats : Type 0 where
  pub zero_float : ℕ
  -- float64(a) / float64(b)
  pub quotient : ℕ → ℕ → ℕ
  -- int(float64(a) / float64(b))
  pub int_quotient : ℕ → ℕ → ℤ

-- Store.
pub record Store (E S : Type 0) : Type 0 where
  pub endpoint_cache : E
  pub suite_cache : S
  pub maximum_number_of_results : ℕ
  pub maximum_number_of_events : ℕ

-- The totals that the loops add up.
pub record Totals : Type 0 where
  pub successful : ℕ
  pub executions : ℕ
  pub response_time : ℕ

abbrev pub no_totals : Totals
no_totals = record { successful = 0; executions = 0; response_time = 0 }

unfoldable pub add_stats : Option HourlyUptimeStatistics → Totals → Totals
add_stats none t = t
add_stats (some stats) t = if stats.total_executions == 0 then t else record {
  successful = u64 (t.successful + stats.successful_executions);
  executions = u64 (t.executions + stats.total_executions);
  response_time = u64 (t.response_time + stats.total_executions_response_time);
}

-- The loops' body: an hour with no executions is passed over.
unfoldable pub add_hour : Uptime → ℤ → Totals → Totals
unfolding add_stats
add_hour uptime h t = add_stats (lookup_hour h uptime) t

average_at : Floats → ℤ → Option HourlyUptimeStatistics → List (ℤ × ℤ) → List (ℤ × ℤ)
average_at f h none averages = averages
average_at f h (some stats) averages =
    if stats.total_executions == 0
    then averages
    else averages
      ++ (h, f.int_quotient stats.total_executions_response_time stats.total_executions) ∷ []

unfoldable pub average_hour : Floats → Uptime → ℤ → List (ℤ × ℤ) → List (ℤ × ℤ)
unfolding average_at
average_hour f uptime h averages = average_at f h (lookup_hour h uptime) averages

-- The copy of a status, if the copying does not panic.
copied : {A : Type 0} → Option A → Reply A
copied none = panic
copied (some a) = ok a

-- The result of a loop, which always ends within its fuel.
unfoldable pub finished : {A B : Type 0} → (A → B) → Option A → Reply B
finished f none = panic
finished f (some a) = ok (f a)

-- The status that InsertEndpointResult starts from; `start` is when it is created.
unfoldable pub status_or_new : Time → Endpoint → Option Status → Status
status_or_new start ep none = record (new_status ep.group ep.name) {
  key = key ep;
  events = record { event_type = event_start; timestamp = start } ∷ [];
}
status_or_new start ep (some status) = status

-- The keys of the cache that are not among those given.
unfoldable pub keys_to_delete : List Text → List Text → List Text
keys_to_delete keys [] = []
keys_to_delete keys (existing_key ∷ rest) =
    let later = keys_to_delete keys rest in
    if contains_text keys existing_key then later else existing_key ∷ later

-- The loop of HasEndpointStatusNewerThan.
unfoldable pub has_newer : Time → List Result → Bool
has_newer timestamp [] = false
has_newer timestamp (result ∷ rest) =
    let later = has_newer timestamp rest in if ltb timestamp result.timestamp then true else later

module _ (E : Cache Status) (S : Cache Results.Status) where
  -- NewStore.
  unfoldable pub new_store : ℕ → ℕ → Store E.C S.C
  new_store maximum_number_of_results maximum_number_of_events = record {
    endpoint_cache = E.new_cache;
    suite_cache = S.new_cache;
    maximum_number_of_results = maximum_number_of_results;
    maximum_number_of_events = maximum_number_of_events;
  }

  -- GetEndpointStatusByKey; `none` parameters are nil.
  unfoldable pub get_endpoint_status_by_key :
      Store E.C S.C → Text → Option EndpointStatusParams → Reply Status
  unfolding copied
  get_endpoint_status_by_key s key params = elim (E.get s.endpoint_cache key) [
    | none ↦ err_endpoint_not_found
    | some status ↦ copied (shallow_copy_endpoint_status status params)
  ]

  -- GetEndpointStatus.
  unfoldable pub get_endpoint_status :
      Store E.C S.C → Text → Text → Option EndpointStatusParams → Reply Status
  unfolding get_endpoint_status_by_key
  get_endpoint_status s group_name endpoint_name params =
      get_endpoint_status_by_key s (convert_group_and_name_to_key group_name endpoint_name) params

  -- GetUptimeByKey.
  unfoldable pub get_uptime_by_key : Floats → Store E.C S.C → Text → Time → Time → Reply ℕ
  unfolding finished
  get_uptime_by_key f s key from to =
      if ltb to from then err_invalid_time_range else elim (E.get s.endpoint_cache key) [
        | none ↦ err_endpoint_not_found
        | some status ↦
            finished
              (λ t.
                if t.executions == 0 then f.zero_float else f.quotient t.successful t.executions)
              (hours_loop (hours_fuel from to) (add_hour status.uptime) from to no_totals)
      ]

  -- GetAverageResponseTimeByKey.
  unfoldable pub get_average_response_time_by_key :
      Floats → Store E.C S.C → Text → Time → Time → Reply ℤ
  unfolding finished
  get_average_response_time_by_key f s key from to =
      if ltb to from then err_invalid_time_range else elim (E.get s.endpoint_cache key) [
        | none ↦ err_endpoint_not_found
        | some status ↦
            finished
              (λ t.
                if t.executions == 0 then pos 0 else f.int_quotient t.response_time t.executions)
              (hours_loop (hours_fuel from to) (add_hour status.uptime) from to no_totals)
      ]

  -- GetHourlyAverageResponseTimeByKey; the map as the list of its entries.
  unfoldable pub get_hourly_average_response_time_by_key :
      Floats → Store E.C S.C → Text → Time → Time → Reply (List (ℤ × ℤ))
  unfolding finished
  get_hourly_average_response_time_by_key f s key from to =
      if ltb to from then err_invalid_time_range else elim (E.get s.endpoint_cache key) [
        | none ↦ err_endpoint_not_found
        | some status ↦
            finished (λ averages. averages)
              (hours_loop (hours_fuel from to) (average_hour f status.uptime) from to [])
      ]

  -- InsertEndpointResult.
  unfoldable pub insert_endpoint_result :
      Time → Time → Store E.C S.C → Endpoint → Result → Store E.C S.C
  insert_endpoint_result start now s ep result =
      let endpoint_key = key ep in
      let status = status_or_new start ep (E.get s.endpoint_cache endpoint_key) in
      record s {
        endpoint_cache =
            E.put s.endpoint_cache endpoint_key
              (add_result now status result s.maximum_number_of_results s.maximum_number_of_events);
      }

  -- DeleteAllEndpointStatusesNotInKeys.
  unfoldable pub delete_all_endpoint_statuses_not_in_keys :
      Store E.C S.C → List Text → Store E.C S.C × ℕ
  unfolding keys_to_delete
  delete_all_endpoint_statuses_not_in_keys s keys =
      let (cache, deleted) =
        E.delete_all s.endpoint_cache (keys_to_delete keys (E.keys s.endpoint_cache)) in
      (record s { endpoint_cache = cache }, deleted)

  -- HasEndpointStatusNewerThan.
  unfoldable pub has_endpoint_status_newer_than : Store E.C S.C → Text → Time → Bool
  unfolding has_newer
  has_endpoint_status_newer_than s key timestamp = elim (E.get s.endpoint_cache key) [
    | none ↦ false
    | some status ↦ has_newer timestamp status.results
  ]

  -- Clear.
  unfoldable pub clear : Store E.C S.C → Store E.C S.C
  clear s = record s {
    endpoint_cache = E.clear s.endpoint_cache;
    suite_cache = S.clear s.suite_cache;
  }
