-- ===== src/Memory/Uptime.antt =====
-- The hourly statistics of an endpoint: config/endpoint/uptime.go and
-- storage/store/memory/uptime.go. The map from hours to statistics is an association list; the
-- pointers that it holds are never shared.
pub mod Hours
use gatus.Prelude.{
  ℕ, ◌+◌, ◌-◌, ◌*◌, Bool, true, false, not, Option, none, some, List, [], ◌∷◌, ℤ, pos, negsuc,
  ltb_ℤ, eq_ℤ, to_bits, u64, length, ltb, if◌then◌else◌,
}
use gatus.Clock.{Time, hour, truncate_hour, unix, milliseconds}
use gatus.Endpoint.{Result}

-- HourlyUptimeStatistics: three uint64.
pub record HourlyUptimeStatistics : Type 0 where
  pub total_executions : ℕ
  pub successful_executions : ℕ
  pub total_executions_response_time : ℕ

abbrev pub no_executions : HourlyUptimeStatistics
no_executions = record {
  total_executions = 0;
  successful_executions = 0;
  total_executions_response_time = 0;
}

-- Uptime.HourlyStatistics.
abbrev pub Uptime : Type 0
Uptime = List (ℤ × HourlyUptimeStatistics)

-- NewUptime.
abbrev pub new_uptime : Uptime
new_uptime = []

unfoldable pub lookup_hour : ℤ → Uptime → Option HourlyUptimeStatistics
lookup_hour h [] = none
lookup_hour h ((k, stats) ∷ rest) = if eq_ℤ k h then some stats else lookup_hour h rest

unfoldable pub store_hour : ℤ → HourlyUptimeStatistics → Uptime → Uptime
store_hour h stats [] = (h, stats) ∷ []
store_hour h stats ((k, old) ∷ rest) =
    if eq_ℤ k h then (k, stats) ∷ rest else (k, old) ∷ store_hour h stats rest

-- The loop that deletes the hours before `limit`.
unfoldable pub delete_before : ℤ → Uptime → Uptime
delete_before limit [] = []
delete_before limit ((k, stats) ∷ rest) =
    let kept = delete_before limit rest in if ltb_ℤ k limit then kept else (k, stats) ∷ kept

abbrev pub uptime_clean_up_threshold : ℕ
uptime_clean_up_threshold = 32 * 24

abbrev pub uptime_retention : ℕ
uptime_retention = 30 * 24 * hour

-- One more execution in the hour's statistics.
unfoldable pub count_execution : Result → HourlyUptimeStatistics → HourlyUptimeStatistics
count_execution result stats = record {
  total_executions = u64 (stats.total_executions + 1);
  successful_executions =
      if result.success then u64 (stats.successful_executions + 1) else stats.successful_executions;
  total_executions_response_time =
      u64 (stats.total_executions_response_time + to_bits (milliseconds result.duration));
}

abbrev pub stats_or_none : Option HourlyUptimeStatistics → HourlyUptimeStatistics
stats_or_none none = no_executions
stats_or_none (some stats) = stats

-- The hour that a result belongs to.
unfoldable pub hour_of : Time → ℤ
hour_of t = unix (truncate_hour t)

-- processUptimeAfterResult; `now` is what time.Now returns if it is called.
unfoldable pub process_uptime_after_result : Time → Uptime → Result → Uptime
process_uptime_after_result now uptime result =
    let h = hour_of result.timestamp in
    let counted =
      store_hour h (count_execution result (stats_or_none (lookup_hour h uptime))) uptime in
    if ltb uptime_clean_up_threshold (length counted)
    then delete_before (unix (now - (uptime_retention + hour))) counted
    else counted
