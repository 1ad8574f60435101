-- ===== src/Prelude/Splits.antt =====
-- strings.Split, strings.Replace, strings.ReplaceAll and strings.Join, with a separator or an old
-- text that is not empty.
use Prim.Native.Nat.{ℕ, zero, suc, ◌-◌, ◌<◌, ◌≤◌}
use mathlib.Core.Path.{◌≡◌, refl, ap}
use mathlib.Core.Logic.{inl, inr}
use mathlib.Core.Bool.{Bool, true, false}
use mathlib.Core.List.{List, [], ◌∷◌, ◌++◌, map}
use native.Mathlib.Omega.{arith}
use gatus.Prelude.Tests.{if◌then◌else◌, Bool-cases}
use gatus.Prelude.Lists.{length, drop}
use gatus.Prelude.Strings.{Text, text_eq, has_prefix, contains, to_upper, to_lower}

-- One more byte in front of the first part.
unfoldable pub extend : ℕ → List Text → List Text
extend c [] = (c ∷ []) ∷ []
extend c (part ∷ parts) = (c ∷ part) ∷ parts

-- The parts between the separators, with `skip` bytes of the last separator still to come.
unfoldable pub split_from : Text → ℕ → Text → List Text
unfolding extend has_prefix
split_from separator skip [] = [] ∷ []
split_from separator zero (c ∷ s) =
    let next = split_from separator (length separator - 1) s in
    let same = extend c (split_from separator zero s) in
    if has_prefix separator (c ∷ s) then [] ∷ next else same
split_from separator (suc skip) (c ∷ s) = split_from separator skip s

-- strings.Split(s, separator).
unfoldable pub split : Text → Text → List Text
unfolding split_from
split separator s = split_from separator zero s

-- strings.Replace(s, old, new, 1).
unfoldable pub replace_once : Text → Text → Text → Text
unfolding has_prefix
replace_once old new [] = []
replace_once old new (c ∷ s) =
    let rest = replace_once old new s in
    if has_prefix old (c ∷ s) then new ++ drop (length old) (c ∷ s) else c ∷ rest

replace_from : Text → Text → ℕ → Text → Text
unfolding has_prefix
replace_from old new skip [] = []
replace_from old new zero (c ∷ s) =
    let next = replace_from old new (length old - 1) s in
    let same = replace_from old new zero s in
    if has_prefix old (c ∷ s) then new ++ next else c ∷ same
replace_from old new (suc skip) (c ∷ s) = replace_from old new skip s

-- strings.ReplaceAll(s, old, new).
unfoldable pub replace_all : Text → Text → Text → Text
unfolding replace_from
replace_all old new s = replace_from old new zero s

-- strings.Join.
unfoldable pub join : Text → List Text → Text
join separator [] = []
join separator (t ∷ []) = t
join separator (t ∷ u ∷ rest) = t ++ separator ++ join separator (u ∷ rest)

-- strings.ToUpper, and strings.EqualFold, within ASCII.
unfoldable pub upper : Text → Text
unfolding to_upper
upper = map to_upper

unfoldable pub equal_fold : Text → Text → Bool
unfolding to_lower text_eq
equal_fold s t = text_eq (map to_lower s) (map to_lower t)

pub has_prefix-append : (p s : Text) → has_prefix p (p ++ s) ≡ true
unfolding has_prefix
has_prefix-append [] s = refl
has_prefix-append (c ∷ p) s = ground (arith, has_prefix-append p s)

pub has_prefix_long : (p s : Text) → length s < length p → has_prefix p s ≡ false
unfolding has_prefix
has_prefix_long [] s h = absurd (omega arith)
has_prefix_long (c ∷ p) [] h = refl
has_prefix_long (c ∷ p) (d ∷ s) h = ground (arith, has_prefix_long p s)

pub drop-append : (p s : Text) → drop (length p) (p ++ s) ≡ s
drop-append [] s = refl
drop-append (c ∷ p) s = drop-append p s

-- A text at the front is replaced, and no text is replaced in a shorter one.
pub replace_once-front :
    (old new s : Text) → 0 < length old → replace_once old new (old ++ s) ≡ new ++ s
unfolding replace_once
replace_once-front [] new s h = absurd (omega arith)
replace_once-front (c ∷ old) new s h =
    rw (has_prefix-append (c ∷ old) s) (ap (λ t. new ++ t) (drop-append old s))

pub replace_once_short : (old new s : Text) → length s < length old → replace_once old new s ≡ s
unfolding replace_once
replace_once_short old new [] h = refl
replace_once_short old new (c ∷ s) h =
    rw (has_prefix_long old (c ∷ s) h)
      (ap (λ t. c ∷ t) (replace_once_short old new s (omega arith)))

length-extend :
    (c : ℕ) (parts : List Text) → 0 < length parts → length (extend c parts) ≡ length parts
unfolding extend
length-extend c [] h = absurd (omega arith)
length-extend c (part ∷ parts) h = omega arith

split_from_pos : (separator : Text) (skip : ℕ) (s : Text) → 0 < length (split_from separator skip s)
unfolding split_from
split_from_pos separator skip [] = omega arith
split_from_pos separator zero (c ∷ s) = ground (
  arith,
  length-extend c (split_from separator zero s) (split_from_pos separator zero s),
  split_from_pos separator zero s,
)
split_from_pos separator (suc skip) (c ∷ s) = split_from_pos separator skip s

-- A text that contains the separator has two parts or more.
pub length-split :
    (separator s : Text)
    → 0 < length separator
    → contains separator s ≡ true
    → 2 ≤ length (split separator s)
unfolding split split_from contains has_prefix
length-split [] s h k = absurd (omega arith)
length-split (b ∷ separator) [] h k = absurd (ground arith)
length-split (b ∷ separator) (c ∷ s) h k = elim (Bool-cases (has_prefix (b ∷ separator) (c ∷ s))) [
  | inl e ↦ ground (arith, e, split_from_pos (b ∷ separator) (length separator) s)
  | inr e ↦ ground (
    arith,
    e,
    length-split (b ∷ separator) s h (ground (arith, e)),
    length-extend c (split_from (b ∷ separator) zero s) (split_from_pos (b ∷ separator) zero s),
  )
]
