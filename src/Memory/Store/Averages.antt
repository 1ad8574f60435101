-- ===== src/Memory/Store/Averages.antt =====
-- What the uptime and the average response times of a range say.
use gatus.Prelude.{
  ℕ, zero, suc, ◌+◌, ◌-◌, ◌/◌, ◌≤◌, ◌<◌, ◌≡◌, some, List, [], ◌∷◌, ℤ, pos, Text, ◌==◌,
  if◌then◌else◌, arith, Option-cases, inl, inr, modulus_64, u64,
}
use gatus.Clock.{Time, hour}
use gatus.Suite.Results
use gatus.Memory.Cache.{Cache}
use gatus.Memory.Hourly.{each_hour, hours_loop_lem}
use gatus.Memory.Status.{Status}
use gatus.Memory.Uptime.{HourlyUptimeStatistics, Uptime, lookup_hour, stats_or_none, hour_of}
use gatus.Memory.Store.{
  Store, ok, Floats, Totals, no_totals, add_hour, add_stats, get_uptime_by_key,
  get_average_response_time_by_key, finished,
}

-- The hours of a range that begins at `from`.
unfoldable pub hours_of_range : ℕ → Time → List ℤ
hours_of_range zero from = []
hours_of_range (suc n) from = hour_of from ∷ hours_of_range n (from + hour)

-- What a count adds up to over hours, those with executions.
unfoldable pub sum_over : (HourlyUptimeStatistics → ℕ) → Uptime → List ℤ → ℕ
sum_over count uptime [] = 0
sum_over count uptime (h ∷ rest) =
    let stats = stats_or_none (lookup_hour h uptime) in
    (if stats.total_executions == 0 then 0 else count stats) + sum_over count uptime rest

-- The totals are below 2^64.
abbrev Fit : Totals → Type 0
Fit t = (t.successful < modulus_64) × (t.executions < modulus_64) × (t.response_time < modulus_64)

-- The totals `t` are `old` with the sums over the hours added, as uint64.
abbrev IsSum : Uptime → List ℤ → Totals → Totals → Type 0
IsSum uptime hours old t =
    (t.successful ≡ u64 (old.successful + sum_over (λ s. s.successful_executions) uptime hours))
    × (t.executions ≡ u64 (old.executions + sum_over (λ s. s.total_executions) uptime hours))
    × (t.response_time
        ≡ u64 (old.response_time + sum_over (λ s. s.total_executions_response_time) uptime hours))

add_hour-IsSum :
    (uptime : Uptime) (h : ℤ) (t : Totals)
    → Fit t
    → IsSum uptime (h ∷ []) t (add_hour uptime h t) × Fit (add_hour uptime h t)
unfolding add_hour add_stats sum_over
add_hour-IsSum uptime h t fit = elim (Option-cases (lookup_hour h uptime)) [
  | inl e ↦ rw e (ground arith)
  | inr (stats, e) ↦ rw e (ground arith)
]

u64-join :
    (r old mid b c : ℕ) → mid ≡ u64 (old + (b + 0)) → r ≡ u64 (mid + c) → r ≡ u64 (old + (b + c))
u64-join r old mid b c h k = omega arith

each_hour-IsSum :
    (n : ℕ) (uptime : Uptime) (from : Time) (t : Totals)
    → Fit t
    → IsSum uptime (hours_of_range n from) t (each_hour n (add_hour uptime) from t)
unfolding each_hour hours_of_range sum_over
each_hour-IsSum zero uptime from t fit = ground arith
each_hour-IsSum (suc n) uptime from t fit =
    let (here, fits) = add_hour-IsSum uptime (hour_of from) t fit in
    let next = add_hour uptime (hour_of from) t in
    let there = each_hour-IsSum n uptime (from + hour) next fits in
    (
      u64-join _ t.successful next.successful _ _ here.0 there.0,
      u64-join _ t.executions next.executions _ _ here.1 there.1,
      u64-join _ t.response_time next.response_time _ _ here.2 there.2,
    )

-- The hours that a range touches: the hour of its begin, and of every whole hour later.
abbrev pub hours_between : Time → Time → List ℤ
hours_between from to = hours_of_range (suc ((to - from) / hour)) from

module _ (E : Cache Status) (S : Cache Results.Status) (f : Floats) (s : Store E.C S.C) where
  -- The uptime of a known key over a range that does not end before it begins: the successes over
  -- the executions, each added up over the range's hours as uint64, and zero without executions.
  pub get_uptime_by_key_lem :
      (key : Text) (from to : Time) (status : Status)
      → from ≤ to
      → E.get s.endpoint_cache key ≡ some status
      → let executions =
          u64 (sum_over (λ h. h.total_executions) status.uptime (hours_between from to)) in
        let successes =
          u64 (sum_over (λ h. h.successful_executions) status.uptime (hours_between from to)) in
        get_uptime_by_key E S f s key from to
        ≡ ok (if executions == 0 then f.zero_float else f.quotient successes executions)
  unfolding get_uptime_by_key finished
  get_uptime_by_key_lem key from to status h e =
      let sums =
        each_hour-IsSum (suc ((to - from) / hour)) status.uptime from no_totals (omega arith) in
      rw (e, hours_loop_lem (add_hour status.uptime) from to no_totals h)
        (rw (sums.0, sums.1) (ground arith))

  -- The average response time of a known key over a range that does not end before it begins: the
  -- total response time over the executions, each added up over the range's hours as uint64, and
  -- zero without executions.
  pub get_average_response_time_by_key_lem :
      (key : Text) (from to : Time) (status : Status)
      → from ≤ to
      → E.get s.endpoint_cache key ≡ some status
      → let executions =
          u64 (sum_over (λ h. h.total_executions) status.uptime (hours_between from to)) in
        let response_time = u64 (
          sum_over (λ h. h.total_executions_response_time) status.uptime (hours_between from to)) in
        get_average_response_time_by_key E S f s key from to
        ≡ ok (if executions == 0 then pos 0 else f.int_quotient response_time executions)
  unfolding get_average_response_time_by_key finished
  get_average_response_time_by_key_lem key from to status h e =
      let sums =
        each_hour-IsSum (suc ((to - from) / hour)) status.uptime from no_totals (omega arith) in
      rw (e, hours_loop_lem (add_hour status.uptime) from to no_totals h)
        (rw (sums.2, sums.1) (ground arith))
