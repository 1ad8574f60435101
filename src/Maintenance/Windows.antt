-- ===== src/Maintenance/Windows.antt =====
-- When IsUnderMaintenance of config/maintenance/maintenance.go is right.
use gatus.Prelude.{
  ℕ, zero, suc, ◌+◌, ◌-◌, ◌*◌, ◌/◌, ◌≤◌, ◌<◌, ◌≡◌, ◌↔◌, ◌⊎◌, ap, sym, ◌∙◌, subst, true, false,
  Bool-cases, inl, inr, pos, ltb, ltb→lt, arith,
}
use gatus.Clock.{Time, hour}
use gatus.Maintenance.{
  Calendar, Config, is_enabled, location_of, starting_day, is_scheduled, is_under_maintenance,
  add_duration, whole_hours,
}

-- A location whose days all have 24 hours, without a change of the clock.
pub record IsRegular {L : Type 0} (calendar : Calendar L) (l : L) : Type 0 where
  pub next_midnight : (d : ℕ) → calendar.midnight l (suc d) ≡ calendar.midnight l d + 24 * hour
  pub day_began : (t : Time) → calendar.midnight l (calendar.day l t) ≤ t
  pub day_ends : (t : Time) → t < calendar.midnight l (calendar.day l t) + 24 * hour
  pub hour_counts :
      (t : Time) → calendar.hour_of_day l t ≡ (t - calendar.midnight l (calendar.day l t)) / hour

last_before : (d e : ℕ) → ltb d e ≡ false → d < suc e → d ≡ e
last_before d e h k = ground arith

same_day : (d e : ℕ) → ltb d e ≡ false → ltb e d ≡ false → d ≡ e
same_day d e h k = ground arith

module _ {L : Type 0} (calendar : Calendar L) (l : L) (regular : IsRegular calendar l) where
  midnight-lt : (d e : ℕ) → d < e → calendar.midnight l d + 24 * hour ≤ calendar.midnight l e
  midnight-lt d zero h = absurd (omega arith)
  midnight-lt d (suc e) h = elim (Bool-cases (ltb d e)) [
    | inl before ↦ omega (arith, midnight-lt d e (ground arith), regular.next_midnight e)
    | inr last ↦
        subst (λ n. calendar.midnight l d + 24 * hour ≤ calendar.midnight l (suc n))
          (last_before d e last h) (omega (arith, regular.next_midnight d))
  ]

  -- An instant lies in a window of at most 23 hours only if this began on its day or the day before.
  window_day :
      (n k d : ℕ) (t : Time)
      → n < 24 * hour
      → k ≤ 23 * hour
      → calendar.midnight l d + n < t
      → t < calendar.midnight l d + n + k
      → (d ≡ calendar.day l t) ⊎ (suc d ≡ calendar.day l t)
  window_day n k d t hn hk after before =
      let today = calendar.day l t in
      elim (Bool-cases (ltb d today)) [
        | inl earlier ↦ elim (Bool-cases (ltb (suc d) today)) [
          | inl long_ago ↦ absurd (
              omega (
                arith,
                midnight-lt (suc d) today (ltb→lt (suc d) today long_ago),
                regular.next_midnight d,
                regular.day_began t,
              ))
          | inr yesterday ↦
              inr (last_before (suc d) today yesterday (omega (arith, ltb→lt d today earlier)))
        ]
        | inr not_earlier ↦ elim (Bool-cases (ltb today d)) [
          | inl later ↦
              absurd (omega (arith, midnight-lt today d (ltb→lt today d later), regular.day_ends t))
          | inr not_later ↦ inl (same_day d today not_earlier not_later)
        ]
      ]

module _ {L : Type 0} (calendar : Calendar L) (c : Config L)
    (regular : IsRegular calendar (location_of calendar c)) (n k : ℕ)
    (starts : c.duration_to_start_from_midnight ≡ pos n) (lasts : c.duration ≡ pos k) where
  abbrev midnight_of : ℕ → Time
  midnight_of d = calendar.midnight (location_of calendar c) d

  abbrev day_of : Time → ℕ
  day_of t = calendar.day (location_of calendar c) t

  starts_today : (t : Time) → midnight_of (day_of t) + n < t → starting_day calendar c t ≡ day_of t
  unfolding starting_day whole_hours
  starts_today t after = ground (arith, starts, regular.hour_counts t)

  started_yesterday :
      (t : Time) (d : ℕ)
      → k ≤ 23 * hour
      → n < 24 * hour
      → suc d ≡ day_of t
      → t < midnight_of d + n + k
      → starting_day calendar c t ≡ d
  unfolding starting_day whole_hours
  started_yesterday t d hk hn same before = ground (
    arith,
    starts,
    regular.hour_counts t,
    regular.next_midnight d,
    regular.day_began t,
    ap (λ m. midnight_of m) same,
  )

  opens_at :
      (t : Time)
      → is_enabled calendar c ≡ true
      → (is_under_maintenance calendar c t ≡ true) ↔ (
          (is_scheduled calendar c (starting_day calendar c t) ≡ true)
          × (midnight_of (starting_day calendar c t) + n < t)
          × (t < midnight_of (starting_day calendar c t) + n + k))
  unfolding is_under_maintenance add_duration
  opens_at t on = (
    λ h. (
      ground (arith, on, starts, lasts),
      ground (arith, on, starts, lasts),
      ground (arith, on, starts, lasts),
    ),
    λ h. ground (arith, on, starts, lasts, h.0, h.1, h.2),
  )

  -- In a location without changes of the clock, an enabled window of at most 23 hours is open exactly
  -- between its start on some scheduled day and its end.
  pub is_under_maintenance_iff :
      (t : Time)
      → is_enabled calendar c ≡ true
      → n < 24 * hour
      → k ≤ 23 * hour
      → (is_under_maintenance calendar c t ≡ true) ↔ (
          (d : ℕ) × (is_scheduled calendar c d ≡ true)
          × (midnight_of d + n < t)
          × (t < midnight_of d + n + k))
  is_under_maintenance_iff t on hn hk = (
    λ h. (let (p, q, r) = (opens_at t on).0 h in (starting_day calendar c t, p, q, r)),
    λ h. (opens_at t on).1 (
        subst
          (λ (e : ℕ).
            (is_scheduled calendar c e ≡ true)
            × (midnight_of e + n < t)
            × (t < midnight_of e + n + k))
          (sym (first h.0 h.2 h.3)) (h.1, h.2, h.3)),
  )
    where
      first :
          (d : ℕ)
          → midnight_of d + n < t
          → t < midnight_of d + n + k
          → starting_day calendar c t ≡ d
      first d after before =
          elim (window_day calendar (location_of calendar c) regular n k d t hn hk after before) [
            | inl today ↦
                starts_today t (subst (λ (e : ℕ). midnight_of e + n < t) today after) ∙ sym today
            | inr yesterday ↦ started_yesterday t d hk hn yesterday before
          ]
