-- ===== src/Prelude/Words.antt =====
-- Go's int, int64, uint64 and time.Duration: 64-bit integers that wrap around.
-- A signed integer is an ℤ; `wrap_64` brings the exact result of an operation back to the range.
use Prim.Native.Nat.{ℕ, suc, ◌+◌, ◌-◌, ◌*◌, ◌%◌, ◌/◌, ◌≤◌, ◌<◌}
use mathlib.Core.Path.{◌≡◌, refl}
use mathlib.Core.Bool.{Bool, true, false}
use mathlib.Core.Logic.{◌↔◌}
use native.Mathlib.Omega.{arith}
use gatus.Prelude.Tests.{ltb, leb, ◌==◌, if◌then◌else◌}

-- `negsuc n` is -(n + 1).
pub data ℤ : Type 0 where
  pos : ℕ → ℤ
  negsuc : ℕ → ℤ

abbrev pub pos_part : ℤ → ℕ
pos_part (pos n) = n
pos_part (negsuc n) = 0

abbrev pub neg_part : ℤ → ℕ
neg_part (pos n) = 0
neg_part (negsuc n) = suc n

-- a - b, as an integer.
abbrev pub sub_ℕ : ℕ → ℕ → ℤ
sub_ℕ a b = if leb b a then pos (a - b) else negsuc (b - a - 1)

-- 2 ^ 64 and 2 ^ 63.
abbrev pub modulus_64 : ℕ
modulus_64 = 18446744073709551616

abbrev pub half_64 : ℕ
half_64 = 9223372036854775808

-- The integer that a 64-bit pattern stands for, and the pattern of an integer.
from_bits : ℕ → ℤ
from_bits m = if ltb m half_64 then pos m else negsuc (modulus_64 - 1 - m)

-- uint64(z).
unfoldable pub to_bits : ℤ → ℕ
to_bits (pos n) = n % modulus_64
to_bits (negsuc n) = modulus_64 - 1 - n % modulus_64

unfoldable pub wrap_64 : ℤ → ℤ
unfolding from_bits to_bits
wrap_64 z = from_bits (to_bits z)

-- uint64 arithmetic.
abbrev pub u64 : ℕ → ℕ
u64 n = n % modulus_64

infixl 65 ◌+ℤ◌ ◌-ℤ◌
infixl 70 ◌*ℤ◌
infix 50 ◌≤ℤ◌ ◌<ℤ◌
unfoldable pub ◌+ℤ◌ : ℤ → ℤ → ℤ
a +ℤ b = sub_ℕ (pos_part a + pos_part b) (neg_part a + neg_part b)

unfoldable pub ◌-ℤ◌ : ℤ → ℤ → ℤ
a -ℤ b = sub_ℕ (pos_part a + neg_part b) (neg_part a + pos_part b)

unfoldable pub ◌*ℤ◌ : ℤ → ℤ → ℤ
a *ℤ b =
    sub_ℕ (pos_part a * pos_part b + neg_part a * neg_part b)
      (pos_part a * neg_part b + neg_part a * pos_part b)

abbrev pub ◌≤ℤ◌ : ℤ → ℤ → Type 0
a ≤ℤ b = pos_part a + neg_part b ≤ pos_part b + neg_part a

abbrev pub ◌<ℤ◌ : ℤ → ℤ → Type 0
a <ℤ b = pos_part a + neg_part b < pos_part b + neg_part a

abbrev pub ltb_ℤ : ℤ → ℤ → Bool
ltb_ℤ a b = ltb (pos_part a + neg_part b) (pos_part b + neg_part a)

abbrev pub leb_ℤ : ℤ → ℤ → Bool
leb_ℤ a b = leb (pos_part a + neg_part b) (pos_part b + neg_part a)

abbrev pub eq_ℤ : ℤ → ℤ → Bool
eq_ℤ (pos m) (pos n) = m == n
eq_ℤ (negsuc m) (negsuc n) = m == n
eq_ℤ (pos m) (negsuc n) = false
eq_ℤ (negsuc m) (pos n) = false

pub eq_ℤ_iff : (a b : ℤ) → (eq_ℤ a b ≡ true) ↔ (a ≡ b)
eq_ℤ_iff (pos m) (pos n) = ground arith
eq_ℤ_iff (negsuc m) (negsuc n) = ground arith
eq_ℤ_iff (pos m) (negsuc n) = (λ h. cc, λ h. cc)
eq_ℤ_iff (negsuc m) (pos n) = (λ h. cc, λ h. cc)

-- The values of the type int64.
pub record Is64 (z : ℤ) : Type 0 where
  pub low : neg_part z ≤ half_64
  pub high : pos_part z < half_64

-- The machine's operations.
unfoldable pub add_64 : ℤ → ℤ → ℤ
unfolding ◌+ℤ◌ wrap_64
add_64 a b = wrap_64 (a +ℤ b)

unfoldable pub sub_64 : ℤ → ℤ → ℤ
unfolding ◌-ℤ◌ wrap_64
sub_64 a b = wrap_64 (a -ℤ b)

unfoldable pub mul_64 : ℤ → ℤ → ℤ
unfolding ◌*ℤ◌ wrap_64
mul_64 a b = wrap_64 (a *ℤ b)

-- In range nothing wraps.
pub wrap_64_id : (z : ℤ) → Is64 z → wrap_64 z ≡ z
unfolding wrap_64
wrap_64_id (pos n) h = ground arith
wrap_64_id (negsuc n) h = ground arith

-- Every result of the machine's operations is a 64-bit integer.
pub wrap_64-Is64 : (z : ℤ) → Is64 (wrap_64 z)
unfolding wrap_64
wrap_64-Is64 (pos n) = ground arith
wrap_64-Is64 (negsuc n) = ground arith

pub +ℤ_parts :
    (a b : ℤ)
    → pos_part (a +ℤ b) + neg_part a + neg_part b ≡ neg_part (a +ℤ b) + pos_part a + pos_part b
unfolding ◌+ℤ◌
+ℤ_parts a b = ground arith

pub -ℤ_parts :
    (a b : ℤ)
    → pos_part (a -ℤ b) + neg_part a + pos_part b ≡ neg_part (a -ℤ b) + pos_part a + neg_part b
unfolding ◌-ℤ◌
-ℤ_parts a b = ground arith

pub eq_of_parts : (a b : ℤ) → pos_part a + neg_part b ≡ pos_part b + neg_part a → a ≡ b
eq_of_parts a b h = ground arith

pub ruleset int_laws = (arith, +ℤ_parts, -ℤ_parts, eq_of_parts)

-- 2^63 - 1 plus 1 is -2^63.
wraps_around : add_64 (pos 9223372036854775807) (pos 1) ≡ negsuc 9223372036854775807
unfolding add_64
wraps_around = refl

-- A counter goes up by one while it is below the greatest int.
pub add_64-one : (n : ℕ) → suc n < half_64 → add_64 (pos n) (pos 1) ≡ pos (suc n)
unfolding add_64
add_64-one n h = ground arith

-- Wrapping changes a value by a multiple of 2^64.
pub wrap_64_parts :
    (z : ℤ)
    → (q : ℕ) × (r : ℕ) × (pos_part (wrap_64 z) + neg_part z + modulus_64 * q
        ≡ neg_part (wrap_64 z) + pos_part z + modulus_64 * r)
unfolding wrap_64
wrap_64_parts (pos n) =
    (if ltb (n % modulus_64) half_64 then n / modulus_64 else n / modulus_64 + 1, 0, ground arith)
wrap_64_parts (negsuc n) = (
  0,
  if ltb (modulus_64 - 1 - n % modulus_64) half_64 then n / modulus_64 + 1 else n / modulus_64,
  ground arith,
)
