-- ===== src/Condition/Equality.antt =====
-- What isEqual of config/endpoint/condition.go decides.
use gatus.Prelude.{
  ◌≡◌, refl, sym, subst, ◌∙◌, Bool, true, false, ◌||◌, Bool-cases, Option-cases, inl, inr, List, [],
  ◌∷◌, ◌++◌, ℤ, pos, negsuc, eq_ℤ, Text, text_eq, text_eq_refl, text_eq_iff, codes, has_prefix,
  has_suffix, has_prefix-append, trim_prefix-append, trim_suffix-append, has_suffix-append,
  trim_space, split, map, arith, ◌↔◌,
}
use mathlib.Core.List.{Memᴰ}
use mathlib.Core.List.Memᴰ.{head, tail, not-nil, cases_cons}
use gatus.Placeholder.{function_suffix}
use gatus.Condition.{
  Library, same_value, is_equal_any, is_equal_closed, is_equal, strip_call, one_of,
  any_function_prefix, pattern_function_prefix,
}

text_eq_comm : (s t : Text) → text_eq s t ≡ text_eq t s
unfolding text_eq
text_eq_comm [] [] = refl
text_eq_comm [] (c ∷ t) = refl
text_eq_comm (c ∷ s) [] = refl
text_eq_comm (c ∷ s) (d ∷ t) = ground (arith, text_eq_comm s t)

eq_ℤ_comm : (a b : ℤ) → eq_ℤ a b ≡ eq_ℤ b a
eq_ℤ_comm (pos m) (pos n) = ground arith
eq_ℤ_comm (negsuc m) (negsuc n) = ground arith
eq_ℤ_comm (pos m) (negsuc n) = refl
eq_ℤ_comm (negsuc m) (pos n) = refl

same_value_comm : (go : Library) (s t : Text) → same_value go s t ≡ same_value go t s
unfolding same_value
same_value_comm go s t = elim (Option-cases (go.parse_int s)) [
  | inl e ↦ elim (Option-cases (go.parse_int t)) [
    | inl f ↦ ground (arith, e, f, text_eq_comm s t)
    | inr (n, f) ↦ ground (arith, e, f, text_eq_comm s t)
  ]
  | inr (m, e) ↦ elim (Option-cases (go.parse_int t)) [
    | inl f ↦ ground (arith, e, f, text_eq_comm s t)
    | inr (n, f) ↦ ground (arith, e, f, eq_ℤ_comm m n)
  ]
]

is_equal_any_comm :
    (go : Library) (p : Bool) (s : Text) (q : Bool) (t : Text)
    → is_equal_any go p s q t ≡ is_equal_any go q t p s
unfolding is_equal_any
is_equal_any_comm go p s q t = ground (
  arith,
  same_value_comm go (strip_call any_function_prefix p s) (strip_call any_function_prefix q t),
)

is_equal_closed_comm :
    (go : Library) (p : Bool) (s : Text) (q : Bool) (t : Text)
    → is_equal_closed go p s q t ≡ is_equal_closed go q t p s
unfolding is_equal_closed
is_equal_closed_comm go p s q t = ground (
  arith,
  is_equal_any_comm go p (strip_call pattern_function_prefix p s) q
      (strip_call pattern_function_prefix q t),
)

-- isEqual does not depend on the order of its arguments.
pub is_equal_comm : (go : Library) (s t : Text) → is_equal go s t ≡ is_equal go t s
unfolding is_equal
is_equal_comm go s t = ground (
  arith,
  same_value_comm go s t,
  is_equal_closed_comm go (has_suffix function_suffix s) s (has_suffix function_suffix t) t,
)

one_of_iff :
    (options : List Text) (t : Text) → (one_of options t ≡ true) ↔ Memᴰ t (map trim_space options)
unfolding one_of
one_of_iff [] t = (λ h. cc, λ m. absurd (not-nil m))
one_of_iff (o ∷ options) t = (
  λ h. elim (Bool-cases (text_eq (trim_space o) t)) [
    | inl e ↦ head (sym ((text_eq_iff (trim_space o) t).0 e))
    | inr e ↦ tail ((one_of_iff options t).0 (ground (arith, e)))
  ],
  λ m. elim (cases_cons m) [
    | inl e ↦
        subst (λ (u : Text). (text_eq (trim_space o) u || one_of options u) ≡ true) (sym e)
          (rw (text_eq_refl (trim_space o)) refl)
    | inr n ↦ ground (arith, (one_of_iff options t).1 n)
  ],
)

call_closed : (p s : Text) → has_suffix function_suffix (p ++ s ++ function_suffix) ≡ true
call_closed p s = has_suffix-append (p ++ s) function_suffix

strip_call-append : (p s : Text) → strip_call p true (p ++ (s ++ function_suffix)) ≡ s
unfolding strip_call
strip_call-append p s = ground (
  arith,
  has_prefix-append p (s ++ function_suffix),
  trim_prefix-append p (s ++ function_suffix),
  trim_suffix-append s function_suffix,
)

any-one_of :
    (go : Library) (options t : Text)
    → has_suffix function_suffix t ≡ false
    → is_equal go (any_function_prefix ++ options ++ function_suffix) t
      ≡ one_of (split (codes ",") options) t
unfolding is_equal is_equal_closed is_equal_any strip_call has_prefix
any-one_of go options t open_end =
    ground (
      arith,
      call_closed any_function_prefix options,
      strip_call-append any_function_prefix options,
    )

-- A value that does not end with a parenthesis is equal to a call of any(), on whichever side of
-- the operator the call stands, exactly where it is one of the options of the call without the white
-- space around them.
pub any_iff :
    (go : Library) (options t : Text)
    → has_suffix function_suffix t ≡ false
    → let call = any_function_prefix ++ options ++ function_suffix in
      let chosen = Memᴰ t (map trim_space (split (codes ",") options)) in
      ((is_equal go call t ≡ true) ↔ chosen) × ((is_equal go t call ≡ true) ↔ chosen)
any_iff go options t open_end =
    let left = any-one_of go options t open_end in
    let right = is_equal_comm go t (any_function_prefix ++ options ++ function_suffix) ∙ left in
    (
      rw left (one_of_iff (split (codes ",") options) t),
      rw right (one_of_iff (split (codes ",") options) t),
    )
