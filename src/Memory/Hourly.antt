-- ===== src/Memory/Hourly.antt =====
-- The loop over the hours of a time range that GetUptimeByKey, GetAverageResponseTimeByKey and
-- GetHourlyAverageResponseTimeByKey share (storage/store/memory/memory.go).
use gatus.Prelude.{
  ℕ, zero, suc, ◌+◌, ◌-◌, ◌/◌, ◌≤◌, ◌<◌, ◌≡◌, refl, ◌∙◌, true, false, Option, none, some, ℤ, pos,
  leb_ℤ, arith, if◌then◌else◌,
}
use gatus.Clock.{Time, hour, sub}
use gatus.Memory.Uptime.{hour_of}

-- for to.Sub(current) >= 0 { body; current = current.Add(time.Hour) }, on fuel; the body is given
-- the hour of `current`.
unfoldable pub hours_loop {ℓ} : {S : Type ℓ} → ℕ → (ℤ → S → S) → Time → Time → S → Option S
hours_loop zero body current to s = none
hours_loop (suc fuel) body current to s =
    let rest = hours_loop fuel body (current + hour) to (body (hour_of current) s) in
    if leb_ℤ (pos 0) (sub to current) then rest else some s

-- A round for each hour that begins at `from` or a multiple of an hour later, up to `to`, and one
-- to see the end.
abbrev pub hours_fuel : Time → Time → ℕ
hours_fuel from to = suc (suc ((to - from) / hour))

-- The same by the number of hours.
unfoldable pub each_hour {ℓ} : {S : Type ℓ} → ℕ → (ℤ → S → S) → Time → S → S
each_hour zero body current s = s
each_hour (suc n) body current s = each_hour n body (current + hour) (body (hour_of current) s)

sub_sign :
    (t u : Time)
    → (leb_ℤ (pos 0) (sub t u) ≡ true → u ≤ t) × (leb_ℤ (pos 0) (sub t u) ≡ false → t < u)
unfolding sub
sub_sign t u = (λ h. ground arith, λ h. ground arith)

hours_ended :
    {S : Type 0} (fuel : ℕ) (body : ℤ → S → S) (current to : Time) (s : S)
    → to < current
    → hours_loop (suc fuel) body current to s ≡ some s
unfolding hours_loop
hours_ended fuel body current to s h = ground (arith, sub_sign to current)

hours_step :
    {S : Type 0} (fuel : ℕ) (body : ℤ → S → S) (current to : Time) (s : S)
    → current ≤ to
    → hours_loop (suc fuel) body current to s
      ≡ hours_loop fuel body (current + hour) to (body (hour_of current) s)
unfolding hours_loop
hours_step fuel body current to s h = ground (arith, sub_sign to current)

hours_loop_at :
    {S : Type 0} (n : ℕ) (body : ℤ → S → S) (from to : Time) (s : S)
    → from ≤ to
    → (to - from) / hour ≡ n
    → hours_loop (suc (suc n)) body from to s ≡ some (each_hour (suc n) body from s)
unfolding each_hour
hours_loop_at zero body from to s h e =
    hours_step 1 body from to s h
    ∙ hours_ended 0 body (from + hour) to (body (hour_of from) s) (omega arith)
hours_loop_at (suc n) body from to s h e =
    hours_step (suc (suc n)) body from to s h
    ∙ hours_loop_at n body (from + hour) to (body (hour_of from) s) (omega arith) (omega arith)

-- For a range that does not end before it begins the loop ends within its fuel, and it has visited
-- the hour of `from` and those of every whole number of hours later up to `to`, each once and in
-- order.
pub hours_loop_lem :
    {S : Type 0} (body : ℤ → S → S) (from to : Time) (s : S)
    → from ≤ to
    → hours_loop (hours_fuel from to) body from to s
      ≡ some (each_hour (suc ((to - from) / hour)) body from s)
hours_loop_lem body from to s h = hours_loop_at ((to - from) / hour) body from to s h refl
