-- ===== src/Api/Badges/Colors.antt =====
-- The color of the badge of response time (api/badge.go).
use gatus.Prelude.{
  ◌≡◌, refl, sym, ap, ◌∙◌, ◌⊎◌, inl, inr, ℕ, suc, Bool, true, false, List, [], ◌∷◌, ◌++◌, ℤ, leb_ℤ,
  ltb_ℤ, length, Text, get_elem?, if◌then◌else◌, arith, some,
}
use gatus.Settings.{is_ascending}
use gatus.Configuration.{Config, get_endpoint_by_key}
use gatus.Api.Badges.{
  very_bad, badge_colors, first_color, thresholds_of, get_badge_color_from_response_time,
}

-- How many thresholds a response time is above.
unfoldable pub count_below : List ℤ → ℤ → ℕ
count_below [] t = 0
count_below (th ∷ thresholds) t =
    let rest = count_below thresholds t in if ltb_ℤ th t then suc rest else rest

-- A threshold that is at least the response time has none below it after it.
count_below_ascending :
    (th : ℤ) (thresholds : List ℤ) (t : ℤ)
    → is_ascending (th ∷ thresholds) ≡ true
    → leb_ℤ t th ≡ true
    → count_below (th ∷ thresholds) t ≡ 0
unfolding count_below is_ascending
count_below_ascending th [] t h g = ground arith
count_below_ascending th (u ∷ thresholds) t h g =
    ground (arith, count_below_ascending u thresholds t (ground arith) (ground arith))

ascending_tail :
    (th : ℤ) (thresholds : List ℤ)
    → is_ascending (th ∷ thresholds) ≡ true
    → is_ascending thresholds ≡ true
unfolding is_ascending
ascending_tail th [] h = refl
ascending_tail th (u ∷ thresholds) h = ground arith

if_true : {A : Type 0} (b : Bool) (x y : A) → b ≡ true → (if b then x else y) ≡ x
if_true true x y h = refl
if_true false x y h = ground arith

if_false : {A : Type 0} (b : Bool) (x y : A) → b ≡ false → (if b then x else y) ≡ y
if_false true x y h = ground arith
if_false false x y h = refl

leb_or_gtb : (th t : ℤ) → (leb_ℤ t th ≡ true) ⊎ ((leb_ℤ t th ≡ false) × (ltb_ℤ th t ≡ true))
leb_or_gtb th t = ground arith

-- The loop's color is that of the number of thresholds that the response time is above.
first_color_lem :
    (thresholds : List ℤ) (colors : List Text) (t : ℤ)
    → length thresholds ≡ length colors
    → is_ascending thresholds ≡ true
    → first_color thresholds colors t
      ≡ get_elem? (colors ++ very_bad ∷ []) (count_below thresholds t)
unfolding first_color count_below is_ascending
first_color_lem [] [] t l h = refl
first_color_lem [] (c ∷ colors) t l h = ground arith
first_color_lem (th ∷ thresholds) [] t l h = ground arith
first_color_lem (th ∷ thresholds) (c ∷ colors) t l h = elim (leb_or_gtb th t) [
  | inl below ↦
      if_true _ _ _ below
      ∙ sym (
          ap (get_elem? (c ∷ (colors ++ very_bad ∷ [])))
            (count_below_ascending th thresholds t h below))
  | inr (above, over) ↦
      if_false _ _ _ above
      ∙ first_color_lem thresholds colors t (ground arith) (ascending_tail th thresholds h)
      ∙ sym (ap (get_elem? (c ∷ (colors ++ very_bad ∷ []))) (if_true _ _ _ over))
]

-- With five thresholds in ascending order, which a validated endpoint has, the color of a response
-- time is that of the number of thresholds that it is above, and the worst where it is above all.
pub get_badge_color_lem :
    (t : ℤ) (k : Text) (cfg : Config) (thresholds : List ℤ)
    → thresholds_of (get_endpoint_by_key cfg.endpoints k) ≡ some thresholds
    → length thresholds ≡ 5
    → is_ascending thresholds ≡ true
    → get_badge_color_from_response_time t k cfg
      ≡ get_elem? (badge_colors ++ very_bad ∷ []) (count_below thresholds t)
unfolding get_badge_color_from_response_time
get_badge_color_lem t k cfg thresholds found five ascending =
    rw (get_badge_color_from_response_time, found)
      (first_color_lem thresholds badge_colors t five ascending)
