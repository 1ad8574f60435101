-- ===== src/Prelude/Numerals.antt =====
-- strconv.Itoa, strconv.Atoi and strconv.FormatBool.
use Prim.Native.Nat.{ℕ, zero, suc, ◌+◌, ◌-◌, ◌*◌, ◌/◌, ◌%◌, ◌<◌}
use mathlib.Core.Path.{◌≡◌, refl}
use mathlib.Core.Bool.{Bool, true, false, ◌&&◌}
use mathlib.Core.Option.{Option, none, some}
use mathlib.Core.List.{[], ◌∷◌, ◌++◌}
use native.Mathlib.Omega.{arith}
use gatus.Prelude.Tests.{ltb, leb, ◌==◌, if◌then◌else◌}
use gatus.Prelude.Words.{ℤ, pos, negsuc, half_64, sub_ℕ}
use gatus.Prelude.Strings.{Text, codes}

-- The decimal digits of a number below 10 ^ fuel.
digits : ℕ → ℕ → Text
digits zero n = []
digits (suc fuel) n =
    let front = digits fuel (n / 10) in
    if ltb n 10 then (b'0' + n) ∷ [] else front ++ (b'0' + n % 10) ∷ []

-- strconv.FormatUint for numbers of at most 64 bits.
unfoldable pub show_ℕ : ℕ → Text
unfolding digits
show_ℕ n = digits 20 n

-- strconv.Itoa, strconv.FormatInt(n, 10).
unfoldable pub show_ℤ : ℤ → Text
unfolding show_ℕ
show_ℤ (pos n) = show_ℕ n
show_ℤ (negsuc n) = b'-' ∷ show_ℕ (n + 1)

-- strconv.FormatBool.
abbrev pub show_bool : Bool → Text
show_bool true = codes "true"
show_bool false = codes "false"

-- The value of digits behind others with the value `n`.
read_digits : ℕ → Text → Option ℕ
read_digits n [] = some n
read_digits n (c ∷ s) =
    let rest = read_digits (n * 10 + (c - b'0')) s in
    if leb b'0' c && leb c b'9' then rest else none

read_ℕ : Text → Option ℕ
unfolding read_digits
read_ℕ [] = none
read_ℕ (c ∷ s) = read_digits 0 (c ∷ s)

in_range : Bool → Option ℕ → Option ℤ
in_range negative none = none
in_range true (some n) = if leb n half_64 then some (sub_ℕ 0 n) else none
in_range false (some n) = if ltb n half_64 then some (pos n) else none

-- strconv.Atoi: a sign, at least one digit, and a value that an int can hold.
unfoldable pub atoi : Text → Option ℤ
unfolding read_ℕ in_range
atoi [] = none
atoi (c ∷ s) =
    if c == b'-'
    then in_range true (read_ℕ s)
    else if c == b'+'
    then in_range false (read_ℕ s)
    else in_range false (read_ℕ (c ∷ s))

itoa_runs : show_ℤ (negsuc 407) ≡ codes "-408"
unfolding show_ℤ
itoa_runs = refl

atoi_runs : atoi (codes "-0408") ≡ some (negsuc 407)
unfolding atoi
atoi_runs = refl

-- One digit, and two.
pub atoi_digit : (a : ℕ) → a < 10 → atoi ((b'0' + a) ∷ []) ≡ some (pos a)
unfolding atoi read_ℕ read_digits in_range
atoi_digit a h = ground arith

pub atoi_two :
    (a b : ℕ) → a < 10 → b < 10 → atoi ((b'0' + a) ∷ (b'0' + b) ∷ []) ≡ some (pos (a * 10 + b))
unfolding atoi read_ℕ read_digits in_range
atoi_two a b h k = ground arith
