-- ===== src/Key/Injective.antt =====
-- Which pairs of a group and a name share a key (config/key/key.go).
use mathlib.Core.List.{map-map}
use gatus.Prelude.{
  ℕ, ◌≡◌, ◌≢◌, ◌↔◌, refl, [], ◌∷◌, ◌++◌, map, arith, Text, All, replace_byte, ◌==◌, if◌then◌else◌,
  trim_space, to_lower,
}
use gatus.Key.{sanitize, convert_group_and_name_to_key}

-- What the eight replacements do to one byte.
unfoldable pub dash : ℕ → ℕ
dash c =
    let c = if c == b'/' then b'-' else c in
    let c = if c == b'_' then b'-' else c in
    let c = if c == b'.' then b'-' else c in
    let c = if c == b',' then b'-' else c in
    let c = if c == b' ' then b'-' else c in
    let c = if c == b'#' then b'-' else c in
    let c = if c == b'+' then b'-' else c in if c == b'&' then b'-' else c

pub sanitize_lem : (s : Text) → sanitize s ≡ map dash (trim_space (map to_lower s))
unfolding sanitize replace_byte dash
sanitize_lem s = simp map-map

dash-ne : (c : ℕ) → dash c ≢ b'_'
unfolding dash
dash-ne c h = ground arith

abbrev NoMark : Text → Type 0
NoMark = All (λ c. c ≢ b'_')

NoMark-map : (s : Text) → NoMark (map dash s)
NoMark-map [] = tt
NoMark-map (c ∷ s) = (dash-ne c, NoMark-map s)

NoMark-sanitize : (s : Text) → NoMark (sanitize s)
NoMark-sanitize s = rw (sanitize_lem s) (NoMark-map (trim_space (map to_lower s)))

-- The first mark of a joined text ends its first part.
split_at_mark :
    (xs ys us vs : Text)
    → NoMark xs
    → NoMark us
    → xs ++ b'_' ∷ ys ≡ us ++ b'_' ∷ vs
    → (xs ≡ us) × (ys ≡ vs)
split_at_mark [] ys [] vs p q h = (refl, ground arith)
split_at_mark [] ys (u ∷ us) vs p q h = absurd (q.0 (ground arith))
split_at_mark (x ∷ xs) ys [] vs p q h = absurd (p.0 (ground arith))
split_at_mark (x ∷ xs) ys (u ∷ us) vs p q h =
    let (e, f) = split_at_mark xs ys us vs p.1 q.1 (ground arith) in (ground arith, f)

-- Two pairs of a group and a name are stored under one key exactly when their groups and their
-- names have the same sanitized form: the separator never occurs in a sanitized part.
pub convert-injective :
    (g n g' n' : Text)
    → (convert_group_and_name_to_key g n ≡ convert_group_and_name_to_key g' n')
      ↔ ((sanitize g ≡ sanitize g') × (sanitize n ≡ sanitize n'))
unfolding convert_group_and_name_to_key
convert-injective g n g' n' = (
  split_at_mark (sanitize g) (sanitize n) (sanitize g') (sanitize n') (NoMark-sanitize g)
      (NoMark-sanitize g'),
  λ h. cc (h.0, h.1),
)
