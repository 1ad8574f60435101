-- ===== src/Clock.antt =====
-- Instants and durations as the program uses them from Go's time package. An instant is a number
-- of nanoseconds since Go's zero time (January 1 of year 1, UTC); a duration is an int64.
use gatus.Prelude.{
  ℕ, ◌+◌, ◌-◌, ◌/◌, ◌%◌, ◌≤◌, arith, ℤ, pos, negsuc, sub_ℕ, ltb, leb, if◌then◌else◌, half_64, Is64,
  ◌≤ℤ◌,
}

abbrev pub Time : Type 0
Time = ℕ

abbrev pub Duration : Type 0
Duration = ℤ

abbrev pub millisecond : ℕ
millisecond = 1000000

abbrev pub second : ℕ
second = 1000000000

abbrev pub minute : ℕ
minute = 60000000000

abbrev pub hour : ℕ
hour = 3600000000000

-- t.Sub(u), which stops at the least and the greatest duration.
unfoldable pub sub : Time → Time → Duration
sub t u =
    if leb u t
    then (if ltb (t - u) half_64 then pos (t - u) else pos (half_64 - 1))
    else (if leb (u - t) half_64 then negsuc (u - t - 1) else negsuc (half_64 - 1))

-- t.Truncate(time.Hour): rounding is from the zero time.
unfoldable pub truncate_hour : Time → Time
truncate_hour t = t - t % hour

-- The seconds from the zero time to the Unix epoch.
abbrev pub unix_epoch : ℕ
unix_epoch = 62135596800

-- t.Unix().
unfoldable pub unix : Time → ℤ
unix t = sub_ℕ (t / second) unix_epoch

-- d.Milliseconds(), which rounds towards zero.
unfoldable pub milliseconds : Duration → ℤ
milliseconds (pos n) = pos (n / millisecond)
milliseconds (negsuc n) = sub_ℕ 0 ((n + 1) / millisecond)

-- A difference reaches any positive duration when one of the instants is Go's zero time and the
-- other is 2^63 nanoseconds (292 years) later.
pub sub-zero : (t : Time) (d : Duration) → half_64 ≤ t → Is64 d → d ≤ℤ sub t 0
unfolding sub
sub-zero t d h k = ground arith
