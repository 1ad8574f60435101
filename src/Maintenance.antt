-- ===== src/Maintenance.antt =====
-- Maintenance windows: config/maintenance/maintenance.go. The calendar of a location (the zone
-- database and time.Date) is a parameter; a day is numbered from January 1 of year 1, a Monday.
pub mod Windows
pub mod Start
use gatus.Prelude.{
  ℕ, zero, suc, ◌+◌, ◌-◌, ◌*◌, ◌/◌, ◌%◌, Bool, true, false, not, ◌&&◌, ◌||◌, Option, none, some,
  List, [], ◌∷◌, ℤ, pos, negsuc, sub_ℕ, ltb_ℤ, leb_ℤ, add_64, mul_64, Text, codes, text_eq, atoi,
  trim_prefix, length, take, drop, ltb, ◌==◌, if◌then◌else◌,
}
use gatus.Clock.{Time, Duration, hour, minute}
use gatus.Endpoint.{contains_text}

-- The zone database with the date of an instant and the midnight of a day.
pub record Calendar (L : Type 0) : Type 0 where
  -- time.LoadLocation
  pub load_location : Text → Option L
  pub utc : L
  -- time.Local
  pub local : L
  -- the day of an instant, and its hour within the day
  pub day : L → Time → ℕ
  pub hour_of_day : L → Time → ℕ
  -- time.Date of a day at 00:00
  pub midnight : L → ℕ → Time

-- Config; a location that is nil is `none`.
pub record Config (L : Type 0) : Type 0 where
  pub enabled : Option Bool
  pub start : Text
  pub duration : Duration
  pub timezone : Text
  pub every : List Text
  pub timezone_location : Option L
  pub duration_to_start_from_midnight : Duration

pub data MaintenanceError : Type 0 where
  err_invalid_maintenance_start_format err_invalid_maintenance_duration err_invalid_day_name
        err_invalid_timezone :
      MaintenanceError
  -- the error of strconv.Atoi
  err_not_a_number : MaintenanceError

-- What a function returns with an error.
pub data Outcome {ℓ} (A : Type ℓ) : Type ℓ where
  ok : A → Outcome A
  fails : MaintenanceError → Outcome A

-- time.Weekday.String of a day; the days from Monday on.
unfoldable pub weekday_name : ℕ → Text
weekday_name zero = codes "Monday"
weekday_name (suc zero) = codes "Tuesday"
weekday_name (suc (suc zero)) = codes "Wednesday"
weekday_name (suc (suc (suc zero))) = codes "Thursday"
weekday_name (suc (suc (suc (suc zero)))) = codes "Friday"
weekday_name (suc (suc (suc (suc (suc zero))))) = codes "Saturday"
weekday_name other = codes "Sunday"

-- longDayNames.
abbrev pub long_day_names : List Text
long_day_names =
    codes "Sunday"
    ∷ codes "Monday"
    ∷ codes "Tuesday"
    ∷ codes "Wednesday"
    ∷ codes "Thursday"
    ∷ codes "Friday"
    ∷ codes "Saturday"
    ∷ []

-- extractNumericalValueFromPotentiallyZeroPaddedString.
unfoldable pub extract_numerical_value : Text → Option ℤ
extract_numerical_value s = atoi (trim_prefix (codes "0") s)

-- hhmmToDuration for the two numbers.
unfoldable pub start_of : ℤ → ℤ → Outcome Duration
start_of hours minutes =
    let duration = add_64 (mul_64 hours (pos hour)) (mul_64 minutes (pos minute)) in
    if ltb_ℤ hours (pos 0)
      || ltb_ℤ (pos 23) hours
      || ltb_ℤ minutes (pos 0)
      || ltb_ℤ (pos 59) minutes
      || ltb_ℤ duration (pos 0)
      || leb_ℤ (pos (24 * hour)) duration
    then fails err_invalid_maintenance_start_format
    else ok duration

-- hhmmToDuration.
unfoldable pub hhmm_to_duration : Text → Outcome Duration
unfolding extract_numerical_value start_of
hhmm_to_duration s =
    if not (length s == 5)
    then fails err_invalid_maintenance_start_format
    else elim (extract_numerical_value (take 2 s)) [
      | none ↦ fails err_not_a_number
      | some hours ↦ elim (extract_numerical_value (take 2 (drop 3 s))) [
        | none ↦ fails err_not_a_number
        | some minutes ↦ start_of hours minutes
      ]
    ]

-- Whether the days are all names of days.
unfoldable pub all_days : List Text → Bool
all_days [] = true
all_days (d ∷ days) = contains_text long_day_names d && all_days days

-- d.Hours() as an int.
unfoldable pub whole_hours : Duration → ℤ
whole_hours (pos n) = pos (n / hour)
whole_hours (negsuc n) = sub_ℕ 0 ((n + 1) / hour)

-- t.Add(d).
unfoldable pub add_duration : Time → Duration → Time
add_duration t (pos n) = t + n
add_duration t (negsuc n) = t - (n + 1)

module _ {L : Type 0} (calendar : Calendar L) where
  -- config.IsEnabled.
  unfoldable pub is_enabled : Config L → Bool
  is_enabled c = elim c.enabled [ none ↦ true | some enabled ↦ enabled ]

  -- The part of ValidateAndSetDefaults behind the start.
  unfoldable pub validate_rest : Config L → Config L × Option MaintenanceError
  validate_rest c =
      if leb_ℤ c.duration (pos 0) || ltb_ℤ (pos (24 * hour)) c.duration
      then (c, some err_invalid_maintenance_duration)
      else if not (text_eq c.timezone [])
      then elim (calendar.load_location c.timezone) [
        | none ↦ (record c { timezone_location = none }, some err_invalid_timezone)
        | some l ↦ (record c { timezone_location = some l }, none)
      ]
      else (record c { timezone = codes "UTC"; timezone_location = some calendar.utc }, none)

  -- ValidateAndSetDefaults on a configuration that is not nil: the configuration as it is left, and
  -- the error.
  unfoldable pub validate_and_set_defaults : Config L → Config L × Option MaintenanceError
  unfolding is_enabled all_days hhmm_to_duration validate_rest
  validate_and_set_defaults c =
      if not (is_enabled c)
      then (c, none)
      else if not (all_days c.every)
      then (c, some err_invalid_day_name)
      else elim (hhmm_to_duration c.start) [
        | fails e ↦ (record c { duration_to_start_from_midnight = pos 0 }, some e)
        | ok d ↦ validate_rest (record c { duration_to_start_from_midnight = d })
      ]

  -- The location whose calendar applies.
  abbrev pub location_of : Config L → L
  location_of c = elim c.timezone_location [ none ↦ calendar.local | some l ↦ l ]

  -- The day on which a window that is open now would have started.
  unfoldable pub starting_day : Config L → Time → ℕ
  unfolding whole_hours
  starting_day c now =
      let today = calendar.day (location_of c) now in
      if ltb_ℤ (pos (calendar.hour_of_day (location_of c) now))
        (whole_hours c.duration_to_start_from_midnight)
      then today - 1
      else today

  -- Whether a window may start on a day.
  unfoldable pub is_scheduled : Config L → ℕ → Bool
  is_scheduled c day = length c.every == 0 || contains_text c.every (weekday_name (day % 7))

  -- IsUnderMaintenance, at the time of the clock.
  unfoldable pub is_under_maintenance : Config L → Time → Bool
  unfolding is_enabled starting_day is_scheduled add_duration
  is_under_maintenance c now =
      let first = starting_day c now in
      let opens =
        add_duration (calendar.midnight (location_of c) first) c.duration_to_start_from_midnight in
      if not (is_enabled c)
      then false
      else if not (is_scheduled c first)
      then false
      else ltb opens now && ltb now (add_duration opens c.duration)

-- GetDefaultConfig.
abbrev pub default_config : {L : Type 0} → Config L
default_config = record {
  enabled = some false;
  start = [];
  duration = pos 0;
  timezone = [];
  every = [];
  timezone_location = none;
  duration_to_start_from_midnight = pos 0;
}
