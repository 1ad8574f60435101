-- ===== src/Prelude/Affixes.antt =====
-- Texts that begin or end with another.
use mathlib.Core.List.{reverse, reverse-append}
use Prim.Native.Nat.{ℕ, ◌+◌, ◌-◌}
use mathlib.Core.Path.{◌≡◌, refl, ap}
use mathlib.Core.Bool.{true}
use mathlib.Core.List.{[], ◌∷◌, ◌++◌}
use native.Mathlib.Omega.{arith}
use gatus.Prelude.Lists.{length, take, length-append}
use gatus.Prelude.Strings.{Text, has_suffix, trim_prefix, trim_suffix}
use gatus.Prelude.Splits.{has_prefix-append, drop-append}

take-append : (s t : Text) → take (length s) (s ++ t) ≡ s
take-append [] [] = refl
take-append [] (c ∷ t) = refl
take-append (c ∷ s) t = ap (λ u. c ∷ u) (take-append s t)

less_itself : (m n : ℕ) → m + n - n ≡ m
less_itself m n = omega arith

pub trim_prefix-append : (p s : Text) → trim_prefix p (p ++ s) ≡ s
unfolding trim_prefix
trim_prefix-append p s = rw (has_prefix-append p s) (drop-append p s)

pub has_suffix-append : (s q : Text) → has_suffix q (s ++ q) ≡ true
unfolding has_suffix
has_suffix-append s q = rw (reverse-append s q) (has_prefix-append (reverse q) (reverse s))

pub trim_suffix-append : (s q : Text) → trim_suffix q (s ++ q) ≡ s
unfolding trim_suffix
trim_suffix-append s q =
    rw (has_suffix-append s q, length-append s q, less_itself (length s) (length q))
      (take-append s q)
