-- ===== src/Key/Stable.antt =====
-- Sanitizing twice (config/key/key.go).
use mathlib.Core.List.{reverse, reverse-reverse, reverse-append}
use gatus.Prelude.{
  All, ℕ, ◌≡◌, refl, [], ◌∷◌, ◌++◌, map, arith, Text, false, trim_space, trim_left, is_space,
  to_lower, Bool-cases, inl, inr,
}
use gatus.Key.{sanitize}
use gatus.Key.Injective.{dash, sanitize_lem}

-- The first byte, or the last, is no white space.
abbrev StartsClean : Text → Type 0
StartsClean [] = Unit
StartsClean (c ∷ s) = is_space c ≡ false

abbrev EndsClean : Text → Type 0
EndsClean [] = Unit
EndsClean (c ∷ []) = is_space c ≡ false
EndsClean (c ∷ (d ∷ s)) = EndsClean (d ∷ s)

trim_left-StartsClean : (s : Text) → StartsClean (trim_left s)
unfolding trim_left
trim_left-StartsClean [] = tt
trim_left-StartsClean (c ∷ s) = elim (Bool-cases (is_space c)) [
  | inl e ↦ rw e (trim_left-StartsClean s)
  | inr e ↦ rw e e
]

trim_left_id : (s : Text) → StartsClean s → trim_left s ≡ s
unfolding trim_left
trim_left_id [] h = refl
trim_left_id (c ∷ s) h = rw h

EndsClean-cons : (c : ℕ) (s : Text) → EndsClean (c ∷ s) → EndsClean s
EndsClean-cons c [] h = tt
EndsClean-cons c (d ∷ s) h = h

trim_left-EndsClean : (s : Text) → EndsClean s → EndsClean (trim_left s)
unfolding trim_left
trim_left-EndsClean [] h = tt
trim_left-EndsClean (c ∷ s) h = elim (Bool-cases (is_space c)) [
  | inl e ↦ rw e (trim_left-EndsClean s (EndsClean-cons c s h))
  | inr e ↦ rw e h
]

-- Reversal exchanges the two.
EndsClean-append : (s : Text) (c : ℕ) → is_space c ≡ false → EndsClean (s ++ c ∷ [])
EndsClean-append [] c h = h
EndsClean-append (d ∷ []) c h = h
EndsClean-append (d ∷ (e ∷ s)) c h = EndsClean-append (e ∷ s) c h

EndsClean-reverse : (s : Text) → StartsClean s → EndsClean (reverse s)
EndsClean-reverse [] h = tt
EndsClean-reverse (c ∷ s) h = rw (reverse-append (c ∷ []) s) (EndsClean-append (reverse s) c h)

StartsClean-append : (s t : Text) → StartsClean s → StartsClean t → StartsClean (s ++ t)
StartsClean-append [] t h k = k
StartsClean-append (c ∷ s) t h k = h

StartsClean-append_cons :
    (s : Text) (c d : ℕ) → StartsClean (s ++ d ∷ []) → StartsClean ((s ++ d ∷ []) ++ c ∷ [])
StartsClean-append_cons [] c d h = h
StartsClean-append_cons (e ∷ s) c d h = h

StartsClean-reverse : (s : Text) → EndsClean s → StartsClean (reverse s)
StartsClean-reverse [] h = tt
StartsClean-reverse (c ∷ []) h = h
StartsClean-reverse (c ∷ (d ∷ s)) h =
    rw (reverse-append (c ∷ []) (d ∷ s), reverse-append (d ∷ []) s)
      (StartsClean-append_cons (reverse s) c d
        (rw (reverse-append (d ∷ []) s) at (StartsClean-reverse (d ∷ s) h)))

-- A text with no white space at either end, which `trim_space` gives and leaves as it is.
record IsTrimmed (s : Text) : Type 0 where
  starts : StartsClean s
  ends : EndsClean s

trim_space-IsTrimmed : (s : Text) → IsTrimmed (trim_space s)
unfolding trim_space
trim_space-IsTrimmed s =
    let l : Text = trim_left s in
    let r : Text = trim_left (reverse l) in
    record {
      starts =
          StartsClean-reverse r
            (trim_left-EndsClean (reverse l) (EndsClean-reverse l (trim_left-StartsClean s)));
      ends = EndsClean-reverse r (trim_left-StartsClean (reverse l));
    }

trim_space_id : (s : Text) → IsTrimmed s → trim_space s ≡ s
unfolding trim_space
trim_space_id s h =
    rw (trim_left_id s h.starts)
      (rw (trim_left_id (reverse s) (StartsClean-reverse s h.ends)) (reverse-reverse s))

-- Neither lower case nor the dashes make white space.
module _ (f : ℕ → ℕ) (keeps : (c : ℕ) → is_space c ≡ false → is_space (f c) ≡ false) where
  StartsClean-map : (s : Text) → StartsClean s → StartsClean (map f s)
  StartsClean-map [] h = tt
  StartsClean-map (c ∷ s) h = keeps c h

  EndsClean-map : (s : Text) → EndsClean s → EndsClean (map f s)
  EndsClean-map [] h = tt
  EndsClean-map (c ∷ []) h = keeps c h
  EndsClean-map (c ∷ (d ∷ s)) h = EndsClean-map (d ∷ s) h

  IsTrimmed-map : (s : Text) → IsTrimmed s → IsTrimmed (map f s)
  IsTrimmed-map s h = record { starts = StartsClean-map s h.starts; ends = EndsClean-map s h.ends }

is_space-to_lower : (c : ℕ) → is_space c ≡ false → is_space (to_lower c) ≡ false
unfolding is_space to_lower
is_space-to_lower c h = ground arith

is_space-dash : (c : ℕ) → is_space c ≡ false → is_space (dash c) ≡ false
unfolding is_space dash
is_space-dash c h = ground arith

-- What is in lower case stays so under trimming.
abbrev IsLower : Text → Type 0
IsLower = All (λ c. to_lower c ≡ c)

IsLower-append : (s t : Text) → IsLower s → IsLower t → IsLower (s ++ t)
IsLower-append [] t h k = k
IsLower-append (c ∷ s) t h k = (h.0, IsLower-append s t h.1 k)

IsLower-reverse : (s : Text) → IsLower s → IsLower (reverse s)
IsLower-reverse [] h = tt
IsLower-reverse (c ∷ s) h =
    rw (reverse-append (c ∷ []) s)
      (IsLower-append (reverse s) (c ∷ []) (IsLower-reverse s h.1) (h.0, tt))

IsLower-trim_left : (s : Text) → IsLower s → IsLower (trim_left s)
unfolding trim_left
IsLower-trim_left [] h = tt
IsLower-trim_left (c ∷ s) h = elim (Bool-cases (is_space c)) [
  | inl e ↦ rw e (IsLower-trim_left s h.1)
  | inr e ↦ rw e h
]

IsLower-trim_space : (s : Text) → IsLower s → IsLower (trim_space s)
unfolding trim_space
IsLower-trim_space s h =
    IsLower-reverse _ (IsLower-trim_left _ (IsLower-reverse (trim_left s) (IsLower-trim_left s h)))

to_lower_idem : (c : ℕ) → to_lower (to_lower c) ≡ to_lower c
unfolding to_lower
to_lower_idem c = ground arith

IsLower-map : (s : Text) → IsLower (map to_lower s)
IsLower-map [] = tt
IsLower-map (c ∷ s) = (to_lower_idem c, IsLower-map s)

-- A second pass over a byte in lower case.
dash_again : (c : ℕ) → to_lower c ≡ c → dash (to_lower (dash c)) ≡ dash c
unfolding dash to_lower
dash_again c h = ground arith

map-dash_again : (s : Text) → IsLower s → map dash (map to_lower (map dash s)) ≡ map dash s
map-dash_again [] h = refl
map-dash_again (c ∷ s) h = cc (dash_again c h.0, map-dash_again s h.1)

-- Sanitizing twice is sanitizing once: a group or a name that is in sanitized form already stands
-- in its key as it is.
pub sanitize_idem : (s : Text) → sanitize (sanitize s) ≡ sanitize s
sanitize_idem s =
    let t : Text = trim_space (map to_lower s) in
    let trimmed : IsTrimmed (map to_lower (map dash t)) =
      IsTrimmed-map to_lower is_space-to_lower _
        (IsTrimmed-map dash is_space-dash t (trim_space-IsTrimmed (map to_lower s))) in
    rw (sanitize_lem s, sanitize_lem (map dash t), trim_space_id _ trimmed)
      (map-dash_again t (IsLower-trim_space _ (IsLower-map s)))
