-- ===== src/Gontext/Paths.antt =====
-- Reading a path of a context after a path was set.
use mathlib.Core.List.{append-nil}
use gatus.Prelude.{
  ℕ, ◌≡◌, ◌⊎◌, subst, ◌≢◌, refl, sym, ap, ◌∙◌, Bool-cases, inl, inr, Option, none, some, List, [],
  ◌∷◌, ◌++◌, Text, text_eq, text_eq_iff, text_eq_refl, if◌then◌else◌, ◌==◌, arith, extend,
}
use gatus.Gontext.{
  Value, nil, bool, int, float, text, array, object, Fields, last, field, split_at_dots, lookup,
  store, follow, get, inner, set_along, set, set_parts,
}

lookup-store :
    (part k : Text) (value : Value) (g : Fields)
    → lookup k (store part value g) ≡ (if text_eq part k then some value else lookup k g)
unfolding lookup store
lookup-store part k value last = refl
lookup-store part k value (field j v rest) =
    ground (
      arith,
      text_eq_iff part k,
      text_eq_iff j part,
      text_eq_iff j k,
      lookup-store part k value rest,
    )

lookup-store_same :
    (part : Text) (value : Value) (g : Fields) → lookup part (store part value g) ≡ some value
lookup-store_same part value g = ground (arith, lookup-store part part value g, text_eq_refl part)

follow-cons :
    (b : Text) (q : List Text) (g : Fields) (o : Option Value)
    → lookup b g ≡ o
    → follow (b ∷ q) (object g) ≡ (elim o [ none ↦ none | some v ↦ follow q v ])
unfolding follow
follow-cons b q g o e =
    ap (λ (x : Option Value). elim x as (λ y. Option Value) [ none ↦ none | some v ↦ follow q v ]) e

-- What the rest of a path leads to from the parts of a path on.
follow-set_along :
    (part : Text) (rest more : List Text) (value : Value) (g : Fields)
    → follow (part ∷ rest ++ more) (object (set_along part rest value g)) ≡ follow more value
unfolding set_along
follow-set_along part [] more value g =
    follow-cons part more (store part value g) (some value) (lookup-store_same part value g)
follow-set_along part (next ∷ rest) more value g =
    let new = object (set_along next rest value (inner (lookup part g))) in
    follow-cons part (next ∷ rest ++ more) (store part new g) (some new)
      (lookup-store_same part new g)
    ∙ follow-set_along next rest more value (inner (lookup part g))

-- Two paths that part ways: neither is the beginning of the other.
unfoldable pub Diverge : List Text → List Text → Type 0
Diverge [] q = ⊥
Diverge (a ∷ p) [] = ⊥
Diverge (a ∷ p) (b ∷ q) = (a ≢ b) ⊎ ((a ≡ b) × Diverge p q)

-- Nothing is under a part that has no map.
follow-inner :
    (b : Text) (q : List Text) (o : Option Value)
    → follow (b ∷ q) (object (inner o)) ≡ (elim o [ none ↦ none | some v ↦ follow (b ∷ q) v ])
unfolding follow inner lookup
follow-inner b q none = refl
follow-inner b q (some nil) = refl
follow-inner b q (some (bool x)) = refl
follow-inner b q (some (int x)) = refl
follow-inner b q (some (float x)) = refl
follow-inner b q (some (text x)) = refl
follow-inner b q (some (array x)) = refl
follow-inner b q (some (object fields)) = refl

follow-store_other :
    (part b : Text) (q : List Text) (value : Value) (g : Fields)
    → part ≢ b
    → follow (b ∷ q) (object (store part value g)) ≡ follow (b ∷ q) (object g)
follow-store_other part b q value g ne =
    follow-cons b q (store part value g) (lookup b g)
      (ground (arith, lookup-store part b value g, text_eq_iff part b))
    ∙ sym (follow-cons b q g (lookup b g) refl)

follow-set_along_other :
    (part b : Text) (rest q : List Text) (value : Value) (g : Fields)
    → Diverge (part ∷ rest) (b ∷ q)
    → follow (b ∷ q) (object (set_along part rest value g)) ≡ follow (b ∷ q) (object g)
unfolding set_along Diverge
follow-set_along_other part b [] q value g (inl ne) = follow-store_other part b q value g ne
follow-set_along_other part b (next ∷ rest) q value g (inl ne) = follow-store_other part b q _ g ne
follow-set_along_other part b [] q value g (inr d) = absurd d.1
follow-set_along_other part b (next ∷ rest) [] value g (inr d) = absurd d.1
follow-set_along_other part b (next ∷ rest) (c ∷ q) value g (inr (e, d)) =
    let new = object (set_along next rest value (inner (lookup part g))) in
    follow-cons b (c ∷ q) (store part new g) (some new)
      (subst (λ x. lookup x (store part new g) ≡ some new) e (lookup-store_same part new g))
    ∙ (follow-set_along_other next c rest q value (inner (lookup part g)) d
        ∙ (follow-inner c q (lookup part g)
            ∙ sym (follow-cons b (c ∷ q) g (lookup part g) (ap (λ x. lookup x g) (sym e)))))

follow-set_along_diverging :
    (part : Text) (rest q : List Text) (value : Value) (g : Fields)
    → Diverge (part ∷ rest) q
    → follow q (object (set_along part rest value g)) ≡ follow q (object g)
unfolding Diverge
follow-set_along_diverging part rest [] value g d = absurd d
follow-set_along_diverging part rest (b ∷ q) value g d =
    follow-set_along_other part b rest q value g d

extend_not_empty : (c : ℕ) (parts : List Text) → extend c parts ≢ []
unfolding extend
extend_not_empty c [] h = ground arith
extend_not_empty c (part ∷ parts) h = ground arith

split-ne-nil : (path : Text) → split_at_dots path ≢ []
unfolding split_at_dots
split-ne-nil [] h = ground arith
split-ne-nil (c ∷ path) h = ground (arith, extend_not_empty c (split_at_dots path))

extend-append :
    (c : ℕ) (parts more : List Text)
    → parts ≢ []
    → extend c (parts ++ more) ≡ extend c parts ++ more
unfolding extend
extend-append c [] more h = absurd (h refl)
extend-append c (part ∷ parts) more h = refl

split-append : (p q : Text) → split_at_dots (p ++ 46 ∷ q) ≡ split_at_dots p ++ split_at_dots q
unfolding split_at_dots
split-append [] q = refl
split-append (c ∷ p) q = elim (Bool-cases (c == 46)) [
  | inl dot ↦ rw dot (ap (λ (l : List Text). [] ∷ l) (split-append p q))
  | inr other ↦ rw other (
      ap (extend c) (split-append p q)
      ∙ extend-append c (split_at_dots p) (split_at_dots q) (split-ne-nil p))
]

-- Get after a Set that succeeded; an error of either is `none`.
unfoldable pub and_get : Option Fields → Text → Option Value
and_get none path = none
and_get (some g) path = get g path

set_parts-get :
    (parts : List Text) (value : Value) (g : Fields)
    → parts ≢ []
    → (P : Option Fields → Type 0)
    → ((part : Text) (rest : List Text)
        → parts ≡ part ∷ rest
        → P (some (set_along part rest value g)))
    → P (set_parts parts value g)
unfolding set_parts
set_parts-get [] value g h P f = absurd (h refl)
set_parts-get (part ∷ rest) value g h P f = f part rest refl

-- A Set always succeeds, and what lies under its path afterwards is what was set: reading the path
-- followed by a dot and another path is reading that other path in the value.
pub get-set_below :
    (g : Fields) (path below : Text) (value : Value)
    → and_get (set g path value) (path ++ 46 ∷ below) ≡ follow (split_at_dots below) value
unfolding set and_get get
get-set_below g path below value =
    set_parts-get (split_at_dots path) value g (split-ne-nil path)
      (λ o. and_get o (path ++ 46 ∷ below) ≡ follow (split_at_dots below) value)
      (λ part rest e.
        ap (λ l. follow l (object (set_along part rest value g)))
          (split-append path below ∙ ap (λ l. l ++ split_at_dots below) e)
        ∙ follow-set_along part rest (split_at_dots below) value g)

-- A Set always succeeds, and reading its path afterwards gives the value that was set, whatever
-- stood on the path before.
pub get-set :
    (g : Fields) (path : Text) (value : Value) → and_get (set g path value) path ≡ some value
unfolding set and_get get follow
get-set g path value =
    set_parts-get (split_at_dots path) value g (split-ne-nil path)
      (λ o. and_get o path ≡ some value)
      (λ part rest e.
        ap (λ l. follow l (object (set_along part rest value g)))
          (e ∙ sym (append-nil (part ∷ rest)))
        ∙ follow-set_along part rest [] value g)

-- A Set always succeeds, and a path that parts ways with its path reads as before, also where the
-- Set replaced a value that is not a map by a new map.
pub get-set_other :
    (g : Fields) (path other : Text) (value : Value)
    → Diverge (split_at_dots path) (split_at_dots other)
    → and_get (set g path value) other ≡ get g other
unfolding set and_get get
get-set_other g path other value d =
    set_parts-get (split_at_dots path) value g (split-ne-nil path)
      (λ o. and_get o other ≡ get g other)
      (λ part rest e.
        follow-set_along_diverging part rest (split_at_dots other) value g
          (subst (λ l. Diverge l (split_at_dots other)) e d))
