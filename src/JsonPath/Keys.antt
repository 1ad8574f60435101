-- ===== src/JsonPath/Keys.antt =====
-- The first key of a path, and what is behind it.
use mathlib.Core.List.{append_assoc}
use gatus.Prelude.{
  ℕ, zero, suc, ◌<◌, ◌≡◌, refl, sym, ap, ◌∙◌, true, false, ◌&&◌, Bool-cases, inl, inr, Option, none,
  some, List, [], ◌∷◌, ◌++◌, ℤ, pos, negsuc, Text, codes, extend, length, length-append,
  replace_once, replace_once-front, replace_once_short, text_eq, text_eq_iff, ◌==◌, if◌then◌else◌,
  arith,
}
use gatus.JsonPath.{depth_after, is_zero, split_keys}

-- The first key, and the path behind its dot.
pub record Cut : Type 0 where
  pub key : Text
  pub behind : Option Text

pub cut : ℤ → Text → Cut
cut depth [] = record { key = []; behind = none }
cut depth (c ∷ path) =
    let rest = cut (depth_after c depth) path in
    if c == b'.' && is_zero (depth_after c depth)
    then record { key = []; behind = some path }
    else record { key = c ∷ rest.key; behind = rest.behind }

unfoldable pub keys_behind : Option Text → List Text
unfolding split_keys
keys_behind none = []
keys_behind (some rest) = split_keys (pos 0) rest

abbrev pub put_behind : Text → Option Text → Text
put_behind key none = key
put_behind key (some rest) = key ++ b'.' ∷ rest

is_zero_iff : (z : ℤ) → is_zero z ≡ true → z ≡ pos 0
is_zero_iff (pos zero) h = refl
is_zero_iff (pos (suc n)) h = ground arith
is_zero_iff (negsuc n) h = ground arith

pub split_keys-cut :
    (depth : ℤ) (path : Text)
    → split_keys depth path ≡ (cut depth path).key ∷ keys_behind (cut depth path).behind
unfolding split_keys cut keys_behind
split_keys-cut depth [] = refl
split_keys-cut depth (c ∷ path) = elim (Bool-cases (c == b'.' && is_zero (depth_after c depth))) [
  | inl dot ↦
      let zero_depth = is_zero_iff (depth_after c depth) (ground arith) in
      rw dot (rw zero_depth refl)
  | inr other ↦ rw other (ap (extend c) (split_keys-cut (depth_after c depth) path))
]

put_behind-cons :
    (c : ℕ) (key : Text) (behind : Option Text)
    → put_behind (c ∷ key) behind ≡ c ∷ put_behind key behind
put_behind-cons c key none = refl
put_behind-cons c key (some rest) = refl

pub path_cut :
    (depth : ℤ) (path : Text) → path ≡ put_behind (cut depth path).key (cut depth path).behind
unfolding cut
path_cut depth [] = refl
path_cut depth (c ∷ path) =
    let rest = cut (depth_after c depth) path in
    elim (Bool-cases (c == b'.' && is_zero (depth_after c depth))) [
      | inl dot ↦ rw dot (ap (λ b. b ∷ path) (dot_byte dot))
      | inr other ↦ rw other (
          ap (λ (t : Text). c ∷ t) (path_cut (depth_after c depth) path)
          ∙ sym (put_behind-cons c rest.key rest.behind))
    ]
  where
    dot_byte : (c == b'.' && is_zero (depth_after c depth)) ≡ true → c ≡ b'.'
    dot_byte h = ground arith

-- At a key that is not the last, strings.Replace cuts it and its dot off.
pub replace_key : (key rest : Text) → replace_once (key ++ codes ".") [] (key ++ b'.' ∷ rest) ≡ rest
replace_key key rest =
    ap (replace_once (key ++ codes ".") []) (sym (append_assoc key (codes ".") rest))
    ∙ replace_once-front (key ++ codes ".") [] rest
        (omega (arith, length-append {0} key (codes ".")))

-- At the last key it changes nothing.
pub replace_last_key : (key : Text) → replace_once (key ++ codes ".") [] key ≡ key
replace_last_key key =
    replace_once_short (key ++ codes ".") [] key (omega (arith, length-append {0} key (codes ".")))

pub rest_shorter : (key rest : Text) → length rest < length (key ++ b'.' ∷ rest)
rest_shorter key rest = omega (arith, length-append {0} key (b'.' ∷ rest))

pub rest_differs : (key rest : Text) → text_eq (key ++ b'.' ∷ rest) rest ≡ false
rest_differs key rest = elim (Bool-cases (text_eq (key ++ b'.' ∷ rest) rest)) [
  | inl same ↦
      let e = ap (λ (t : Text). length t) ((text_eq_iff (key ++ b'.' ∷ rest) rest).0 same) in
      absurd (omega (arith, e, rest_shorter key rest))
  | inr other ↦ other
]
