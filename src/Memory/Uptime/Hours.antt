-- ===== src/Memory/Uptime/Hours.antt =====
-- What one result changes in the hourly statistics.
use gatus.Prelude.{
  ℕ, suc, Bool-cases, inl, inr, ◌+◌, ◌-◌, ◌*◌, ◌≤◌, ◌<◌, ◌≡◌, refl, ◌&&◌, ◌||◌, ◌%◌, Bool, false,
  to_bits, All, modulus_64, none, some, [], ◌∷◌, ℤ, ltb_ℤ, eq_ℤ, eq_ℤ_iff, length, ltb,
  if◌then◌else◌, arith,
}
use gatus.Clock.{Time, hour, unix, milliseconds}
use gatus.Endpoint.{Result}
use gatus.Memory.Uptime.{
  HourlyUptimeStatistics, Uptime, lookup_hour, store_hour, delete_before, count_execution,
  stats_or_none, hour_of, process_uptime_after_result, uptime_clean_up_threshold, uptime_retention,
}

lookup_hour-store_hour :
    (h k : ℤ) (stats : HourlyUptimeStatistics) (u : Uptime)
    → lookup_hour k (store_hour h stats u) ≡ (if eq_ℤ h k then some stats else lookup_hour k u)
unfolding lookup_hour store_hour
lookup_hour-store_hour h k stats [] = refl
lookup_hour-store_hour h k stats ((j, old) ∷ rest) =
    ground (arith, eq_ℤ_iff h k, eq_ℤ_iff j h, eq_ℤ_iff j k, lookup_hour-store_hour h k stats rest)

lookup_hour-delete_before :
    (limit k : ℤ) (u : Uptime)
    → lookup_hour k (delete_before limit u) ≡ (if ltb_ℤ k limit then none else lookup_hour k u)
unfolding lookup_hour delete_before
lookup_hour-delete_before limit k [] = ground arith
lookup_hour-delete_before limit k ((j, stats) ∷ rest) =
    ground (arith, eq_ℤ_iff j k, lookup_hour-delete_before limit k rest)

-- Whether the statistics have an hour.
abbrev pub has_hour : ℤ → Uptime → Bool
has_hour h [] = false
has_hour h ((k, stats) ∷ rest) = eq_ℤ k h || has_hour h rest

length-store_hour :
    (h : ℤ) (stats : HourlyUptimeStatistics) (u : Uptime)
    → length (store_hour h stats u) ≡ (if has_hour h u then length u else suc (length u))
unfolding store_hour
length-store_hour h stats [] = refl
length-store_hour h stats ((k, old) ∷ rest) = ground (arith, length-store_hour h stats rest)

-- After a result, the statistics of its hour have one execution more than before (none if the hour
-- is new), one success more if the result is a success, and its milliseconds in the response time,
-- modulo 2^64; every other hour is as it was. Only where more than 768 hours are kept then, the
-- hours that began more than 30 days and an hour before now are gone.
pub lookup_hour-process :
    (now : Time) (u : Uptime) (r : Result) (k : ℤ)
    → let h = hour_of r.timestamp in
      let hours = (if has_hour h u then length u else suc (length u)) in
      let old = ltb_ℤ k (unix (now - 721 * hour)) in
      let before = stats_or_none (lookup_hour h u) in
      lookup_hour k (process_uptime_after_result now u r) ≡ (
        if ltb 768 hours && old
        then none
        else if eq_ℤ h k
        then some (record {
          total_executions = (before.total_executions + 1) % modulus_64;
          successful_executions =
              if r.success
              then (before.successful_executions + 1) % modulus_64
              else before.successful_executions;
          total_executions_response_time =
              (before.total_executions_response_time + to_bits (milliseconds r.duration))
              % modulus_64;
        })
        else lookup_hour k u)
unfolding process_uptime_after_result count_execution
lookup_hour-process now u r k =
    let h = hour_of r.timestamp in
    let stats = count_execution r (stats_or_none (lookup_hour h u)) in
    ground (
      arith,
      length-store_hour h stats u,
      lookup_hour-store_hour h k stats u,
      lookup_hour-delete_before (unix (now - (uptime_retention + hour))) k (store_hour h stats u),
    )

-- In every hour there are no more successes than executions, and at most `n` executions.
abbrev pub CountsUpTo : ℕ → Uptime → Type 0
CountsUpTo n =
    All (λ e. (e.1.successful_executions ≤ e.1.total_executions) × (e.1.total_executions ≤ n))

CountsUpTo-mono : (n : ℕ) (u : Uptime) → CountsUpTo n u → CountsUpTo (suc n) u
CountsUpTo-mono n [] h = tt
CountsUpTo-mono n (e ∷ u) h = ((h.0.0, omega arith), CountsUpTo-mono n u h.1)

CountsUpTo-lookup :
    (n : ℕ) (h : ℤ) (u : Uptime)
    → CountsUpTo n u
    → let stats = stats_or_none (lookup_hour h u) in
      (stats.successful_executions ≤ stats.total_executions) × (stats.total_executions ≤ n)
unfolding lookup_hour
CountsUpTo-lookup n h [] c = omega arith
CountsUpTo-lookup n h ((k, stats) ∷ u) c = ground (arith, CountsUpTo-lookup n h u c.1)

CountsUpTo-store :
    (n : ℕ) (h : ℤ) (stats : HourlyUptimeStatistics) (u : Uptime)
    → (stats.successful_executions ≤ stats.total_executions) × (stats.total_executions ≤ n)
    → CountsUpTo n u
    → CountsUpTo n (store_hour h stats u)
unfolding store_hour
CountsUpTo-store n h stats [] s c = (s, tt)
CountsUpTo-store n h stats ((k, old) ∷ u) s c = elim (Bool-cases (eq_ℤ k h)) [
  | inl e ↦ rw e (s, c.1)
  | inr e ↦ rw e (c.0, CountsUpTo-store n h stats u s c.1)
]

CountsUpTo-delete :
    (n : ℕ) (limit : ℤ) (u : Uptime) → CountsUpTo n u → CountsUpTo n (delete_before limit u)
unfolding delete_before
CountsUpTo-delete n limit [] c = tt
CountsUpTo-delete n limit ((k, stats) ∷ u) c = elim (Bool-cases (ltb_ℤ k limit)) [
  | inl e ↦ rw e (CountsUpTo-delete n limit u c.1)
  | inr e ↦ rw e (c.0, CountsUpTo-delete n limit u c.1)
]

count_execution-counts :
    (n : ℕ) (r : Result) (stats : HourlyUptimeStatistics)
    → suc n < modulus_64
    → (stats.successful_executions ≤ stats.total_executions) × (stats.total_executions ≤ n)
    → let new = count_execution r stats in
      (new.successful_executions ≤ new.total_executions) × (new.total_executions ≤ suc n)
unfolding count_execution
count_execution-counts n r stats b s = (ground arith, ground arith)

-- If n results have been counted, no hour has more successes than executions nor more than n
-- executions; one more result keeps this with n + 1, as long as that is below 2^64.
pub process-CountsUpTo :
    (n : ℕ) (now : Time) (u : Uptime) (r : Result)
    → suc n < modulus_64
    → CountsUpTo n u
    → CountsUpTo (suc n) (process_uptime_after_result now u r)
unfolding process_uptime_after_result
process-CountsUpTo n now u r b c =
    let h = hour_of r.timestamp in
    let stats = count_execution r (stats_or_none (lookup_hour h u)) in
    let stored =
      CountsUpTo-store (suc n) h stats u
        (count_execution-counts n r (stats_or_none (lookup_hour h u)) b (CountsUpTo-lookup n h u c))
        (CountsUpTo-mono n u c) in
    elim (Bool-cases (ltb uptime_clean_up_threshold (length (store_hour h stats u)))) [
      | inl crowded ↦ rw crowded (CountsUpTo-delete (suc n) _ (store_hour h stats u) stored)
      | inr room ↦ rw room stored
    ]
