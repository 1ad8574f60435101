-- ===== src/Tests/Windows.antt =====
-- Maintenance windows in UTC.
use gatus.Prelude.{
  ℕ, ◌+◌, ◌-◌, ◌*◌, ◌/◌, ◌%◌, ◌<◌, ◌≡◌, ◌↔◌, refl, ap, true, false, none, some, [], ◌∷◌, ◌++◌, pos,
  Text, codes, arith,
}
use gatus.Clock.{Time, hour, minute}
use gatus.Maintenance.{
  Calendar, Config, ok, is_enabled, is_scheduled, is_under_maintenance, hhmm_to_duration,
}
use gatus.Maintenance.Windows.{IsRegular, is_under_maintenance_iff}
use gatus.Maintenance.Start.{two_digits, hhmm_to_duration_lem}

abbrev pub utc : Calendar Text
utc = record {
  load_location = λ name. none;
  utc = codes "UTC";
  local = codes "UTC";
  day = λ l t. t / (24 * hour);
  hour_of_day = λ l t. t % (24 * hour) / hour;
  midnight = λ l d. d * (24 * hour);
}

rest_of : (t : Time) → t % (24 * hour) ≡ t - t / (24 * hour) * (24 * hour)
rest_of t = omega arith

utc-IsRegular : IsRegular utc (codes "UTC")
utc-IsRegular = record {
  next_midnight = λ d. omega arith;
  day_began = λ t. omega arith;
  day_ends = λ t. omega arith;
  hour_counts = λ t. ap (λ n. n / hour) (rest_of t);
}

-- From 23:30 on for an hour, every day.
abbrev pub nightly : Config Text
nightly = record {
  enabled = none;
  start = codes "23:30";
  duration = pos hour;
  timezone = codes "UTC";
  every = [];
  timezone_location = some (codes "UTC");
  duration_to_start_from_midnight = pos (23 * hour + 30 * minute);
}

is_under_maintenance_iff_example :
    (is_under_maintenance utc nightly (738000 * (24 * hour) + 15 * minute) ≡ true) ↔ (
      (d : ℕ) × (is_scheduled utc nightly d ≡ true)
      × (d * (24 * hour) + (23 * hour + 30 * minute) < 738000 * (24 * hour) + 15 * minute)
      × (738000 * (24 * hour) + 15 * minute < d * (24 * hour) + (23 * hour + 30 * minute) + hour))
unfolding is_enabled
is_under_maintenance_iff_example =
    is_under_maintenance_iff utc nightly utc-IsRegular (23 * hour + 30 * minute) hour refl refl
      (738000 * (24 * hour) + 15 * minute) refl (omega arith) (omega arith)

hhmm_to_duration_lem_example :
    hhmm_to_duration (two_digits 23 ++ b':' ∷ two_digits 5) ≡ ok (pos (23 * hour + 5 * minute))
hhmm_to_duration_lem_example = hhmm_to_duration_lem 23 5 (omega arith) (omega arith)

-- A quarter past midnight is in the window of the day before.
quarter_past_runs : is_under_maintenance utc nightly (738000 * (24 * hour) + 15 * minute) ≡ true
unfolding is_under_maintenance
quarter_past_runs = refl

-- Of a window of a whole day the time from 23:00 to 23:30 is missed.
whole_day_runs :
    is_under_maintenance utc
      (record nightly { duration = pos (24 * hour) })
      (738000 * (24 * hour) + 23 * hour + 15 * minute)
    ≡ false
unfolding is_under_maintenance
whole_day_runs = refl
