-- ===== src/Maintenance/Start.antt =====
-- Which starts hhmmToDuration of config/maintenance/maintenance.go reads.
use gatus.Prelude.{
  ℕ, ◌+◌, ◌*◌, ◌/◌, ◌%◌, ◌<◌, ◌≡◌, Bool-cases, inl, inr, some, [], ◌∷◌, ◌++◌, pos, add_64, mul_64,
  Text, atoi_digit, atoi_two, trim_prefix, has_prefix, ◌==◌, arith,
}
use gatus.Clock.{hour, minute}
use gatus.Maintenance.{ok, extract_numerical_value, start_of, hhmm_to_duration}

-- A number below 100 in two digits.
abbrev pub two_digits : ℕ → Text
two_digits n = (b'0' + n / 10) ∷ (b'0' + n % 10) ∷ []

extract_two : (n : ℕ) → n < 100 → extract_numerical_value (two_digits n) ≡ some (pos n)
unfolding extract_numerical_value trim_prefix has_prefix
extract_two n h = elim (Bool-cases (n / 10 == 0)) [
  | inl padded ↦ ground (arith, padded, atoi_digit (n % 10))
  | inr plain ↦ ground (arith, plain, atoi_two (n / 10) (n % 10))
]

hours_of : (h : ℕ) → h < 24 → mul_64 (pos h) (pos hour) ≡ pos (h * hour)
unfolding mul_64
hours_of h p = ground arith

minutes_of : (m : ℕ) → m < 60 → mul_64 (pos m) (pos minute) ≡ pos (m * minute)
unfolding mul_64
minutes_of m p = ground arith

sum_of :
    (h m : ℕ)
    → h < 24
    → m < 60
    → add_64 (pos (h * hour)) (pos (m * minute)) ≡ pos (h * hour + m * minute)
unfolding add_64
sum_of h m p q = ground arith

start_of_lem :
    (h m : ℕ) → h < 24 → m < 60 → start_of (pos h) (pos m) ≡ ok (pos (h * hour + m * minute))
unfolding start_of
start_of_lem h m p q = rw (hours_of h p, minutes_of m q, sum_of h m p q) (ground arith)

-- A time of the day in the form hh:mm is read as its distance from midnight.
pub hhmm_to_duration_lem :
    (h m : ℕ)
    → h < 24
    → m < 60
    → hhmm_to_duration (two_digits h ++ b':' ∷ two_digits m) ≡ ok (pos (h * hour + m * minute))
unfolding hhmm_to_duration
hhmm_to_duration_lem h m p q =
    ground (arith, extract_two h (omega arith), extract_two m (omega arith), start_of_lem h m p q)
