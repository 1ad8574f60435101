-- ===== src/Condition/Outcome.antt =====
-- What evaluate and Validate of config/endpoint/condition.go do to a result, whatever the condition.
use gatus.Prelude.{
  ℕ, suc, ◌≤◌, ◌<◌, ◌≡◌, ◌≢◌, ◌⊎◌, refl, ap, subst, Bool, true, false, Option-cases, inl, inr,
  Option, none, some, List, [], ◌∷◌, ◌++◌, Text, codes, length, contains, split, length-split,
  trim_space, if◌then◌else◌, arith,
}
use gatus.Endpoint.{Result, add_error}
use gatus.Gontext.{Fields}
use mathlib.Core.List.{Memᴰ}
use mathlib.Core.List.Memᴰ.{head, tail}
use gatus.JsonPath.{Json}
use gatus.Placeholder.{
  Resolution, resolved, resolution_error, resolution_panics, resolve_placeholder, invalid,
}
use gatus.Placeholder.Errors.{resolve_placeholder-ne-error, resolve_placeholder-panics, PathPanics}
use gatus.Condition.{Library, put_first, Sanitized, sanitize_and_resolve}
use gatus.Condition.Evaluation.{
  Comparator, equal, not_equal, at_most, at_least, above, below, separator, comparator_of,
  compare_values, conclude, evaluate_with, evaluate_comparator, evaluate, should_resolve,
  show_values,
}

-- The parameters are as many as the parts of the condition, and no error is noted.
record Kept (n : ℕ) (result : Result) (s : Sanitized) : Type 0 where
  same_parameters : length s.parameters ≡ n
  same_resolved : length s.resolved_parameters ≡ n
  same_result : s.result ≡ result

abbrev KeptIf : ℕ → Result → Option Sanitized → Type 0
KeptIf n result none = Unit
KeptIf n result (some s) = Kept n result s

put_first-Kept :
    (n : ℕ) (result : Result) (p u : Text) (o : Option Sanitized)
    → KeptIf n result o
    → KeptIf (suc n) result (put_first p u o)
unfolding put_first
put_first-Kept n result p u none h = tt
put_first-Kept n result p u (some s) h = record {
  same_parameters = ap suc h.same_parameters;
  same_resolved = ap suc h.same_resolved;
  same_result = h.same_result;
}

sanitize-Kept :
    (go : Library) (elements : List Text) (result : Result) (context : Option Fields)
    → KeptIf (length elements) result (sanitize_and_resolve go elements result context)
unfolding sanitize_and_resolve
sanitize-Kept go [] result context = record {
  same_parameters = refl;
  same_resolved = refl;
  same_result = refl;
}
sanitize-Kept go (e ∷ elements) result context =
    step (resolve_placeholder go.json (trim_space e) result context)
      (resolve_placeholder-ne-error go.json (trim_space e) result context)
      (sanitize-Kept go elements result context)
  where
    step :
        (r : Resolution)
        → ((e : Text) → r ≢ resolution_error e)
        → KeptIf (length elements) result (sanitize_and_resolve go elements result context)
        → KeptIf (suc (length elements)) result (elim r [
          | resolved t ↦
              put_first (trim_space e) t (sanitize_and_resolve go elements result context)
          | resolution_error f ↦
              put_first
                (trim_space e)
                (invalid (trim_space e))
                (sanitize_and_resolve go elements (add_error result f) context)
          | resolution_panics ↦ none
        ])
    step (resolved t) h k =
        put_first-Kept (length elements) result (trim_space e) t
          (sanitize_and_resolve go elements result context) k
    step (resolution_error f) h k = absurd (h f refl)
    step resolution_panics h k = tt

-- The result with one more condition result.
abbrev pub noted : Result → Text → Bool → Result
noted result display success = record result {
  condition_results =
      result.condition_results ++ record { condition = display; success = success } ∷ [];
}

-- What evaluate returns for a valid condition: a panic, or one more condition result.
abbrev pub Noted : Result → Option (Result × Bool) → Type 0
Noted result none = ⊥
Noted result (some (after, success)) = (display : Text) × (after ≡ noted result display success)

conclude-Noted :
    (go : Library) (condition : Text) (c : Comparator) (p q : Bool) (us vs : List Text)
    (result : Result)
    → 2 ≤ length us
    → 2 ≤ length vs
    → Noted result (conclude go condition c p q us vs result)
unfolding conclude
conclude-Noted go condition c p q [] vs result h k = absurd (omega arith)
conclude-Noted go condition c p q (l ∷ []) vs result h k = absurd (omega arith)
conclude-Noted go condition c p q (l ∷ (r ∷ us)) [] result h k = absurd (omega arith)
conclude-Noted go condition c p q (l ∷ (r ∷ us)) (u ∷ []) result h k = absurd (omega arith)
conclude-Noted go condition c p q (l ∷ (r ∷ us)) (u ∷ (v ∷ vs)) result h k = (
  if should_resolve p q (compare_values go c u v) then show_values go c l r u v else condition,
  refl,
)

separator_pos : (c : Comparator) → 0 < length (separator c)
unfolding separator
separator_pos c = omega arith

comparator-contains :
    (condition : Text) (c : Comparator)
    → comparator_of condition ≡ some c
    → contains (separator c) condition ≡ true
unfolding comparator_of
comparator-contains condition equal h = ground arith
comparator-contains condition not_equal h = ground arith
comparator-contains condition at_most h = ground arith
comparator-contains condition at_least h = ground arith
comparator-contains condition above h = ground arith
comparator-contains condition below h = ground arith

evaluate_with-Noted :
    (go : Library) (condition : Text) (c : Comparator) (p q : Bool) (n : ℕ) (result : Result)
    (o : Option Sanitized)
    → 2 ≤ n
    → KeptIf n result o
    → (o ≡ none) ⊎ Noted result (evaluate_with go condition c p q o)
unfolding evaluate_with
evaluate_with-Noted go condition c p q n result none h k = inl refl
evaluate_with-Noted go condition c p q n result (some s) h k = inr (
    subst
      (λ (r : Result).
        Noted r (conclude go condition c p q s.parameters s.resolved_parameters s.result))
      k.same_result
      (conclude-Noted go condition c p q s.parameters s.resolved_parameters s.result
        (omega (arith, k.same_parameters)) (omega (arith, k.same_resolved))))

put_first-none : (p u : Text) (o : Option Sanitized) → put_first p u o ≡ none → o ≡ none
unfolding put_first
put_first-none p u none h = refl
put_first-none p u (some s) h = absurd (ground arith)

sanitize-panics :
    (go : Library) (elements : List Text) (result : Result) (context : Option Fields)
    → sanitize_and_resolve go elements result context ≡ none
    → (part : Text) × Memᴰ part elements × PathPanics go.json result.body (trim_space part)
unfolding sanitize_and_resolve
sanitize-panics go [] result context h = absurd (ground arith)
sanitize-panics go (e ∷ elements) result context h =
    step (resolve_placeholder go.json (trim_space e) result context)
      (resolve_placeholder-ne-error go.json (trim_space e) result context)
      (resolve_placeholder-panics go.json (trim_space e) result context)
      (λ m.
        let (part, there, bad) = sanitize-panics go elements result context m in
        (part, tail there, bad))
      h
  where
    Panic : Type 0
    Panic =
        (part : Text) × Memᴰ part (e ∷ elements) × PathPanics go.json result.body (trim_space part)

    step :
        (r : Resolution)
        → ((e : Text) → r ≢ resolution_error e)
        → (r ≡ resolution_panics → PathPanics go.json result.body (trim_space e))
        → (sanitize_and_resolve go elements result context ≡ none → Panic)
        → (elim r [
          | resolved t ↦
              put_first (trim_space e) t (sanitize_and_resolve go elements result context)
          | resolution_error f ↦
              put_first
                (trim_space e)
                (invalid (trim_space e))
                (sanitize_and_resolve go elements (add_error result f) context)
          | resolution_panics ↦ none
        ])
          ≡ none
        → Panic
    step (resolved t) h k l m =
        l (put_first-none (trim_space e) t (sanitize_and_resolve go elements result context) m)
    step (resolution_error f) h k l m = absurd (h f refl)
    step resolution_panics h k l m = (e, head refl, k refl)

-- The branches of evaluate of a valid condition.
valid-Noted :
    (go : Library) (condition : Text) (result : Result) (p q : Bool) (context : Option Fields)
    (c : Comparator)
    → comparator_of condition ≡ some c
    → (sanitize_and_resolve go (split (separator c) condition) result context ≡ none)
      ⊎ Noted result (evaluate go condition result p q context)
unfolding evaluate evaluate_comparator
valid-Noted go condition result p q context c valid = rw valid (
    evaluate_with-Noted go condition c p q (length (split (separator c) condition)) result
      (sanitize_and_resolve go (split (separator c) condition) result context)
      (length-split (separator c) condition (separator_pos c)
        (comparator-contains condition c valid))
      (sanitize-Kept go (split (separator c) condition) result context))

-- Where evaluate returns, it notes one condition result with the success that it returns and no
-- error, unless the condition is invalid: then it notes an error and returns false.
pub evaluate-notes :
    (go : Library) (condition : Text) (result : Result) (p q : Bool) (context : Option Fields)
    (after : Result) (success : Bool)
    → evaluate go condition result p q context ≡ some (after, success)
    → ((display : Text) × (comparator_of condition ≢ none) × (after ≡ noted result display success))
      ⊎ ((comparator_of condition ≡ none)
          × (success ≡ false)
          × (after ≡ add_error result (codes "invalid condition: " ++ condition)))
unfolding evaluate evaluate_comparator evaluate_with
evaluate-notes go condition result p q context after success h =
    elim (Option-cases (comparator_of condition)) [
      | inl missing ↦ inr (missing, ground (arith, missing), ground (arith, missing))
      | inr (c, valid) ↦ elim (valid-Noted go condition result p q context c valid) [
        | inl stuck ↦ absurd (ground (arith, valid, stuck))
        | inr n ↦
            let (display, same) = subst (λ (o : Option (Result × Bool)). Noted result o) h n in
            inl (display, (λ missing. ground (arith, valid, missing)), same)
      ]
    ]

-- One of the condition's operands is a placeholder whose JSON path makes the walk of the body panic.
abbrev pub OperandPanics : Json → Text → Text → Type 0
OperandPanics j body condition =
    (c : Comparator) × (comparator_of condition ≡ some c)
    × (operand : Text) × Memᴰ operand (split (separator c) condition)
    × PathPanics j body (trim_space operand)

-- evaluate panics only where the walk of the body for one of the condition's operands does.
pub evaluate-panics :
    (go : Library) (condition : Text) (result : Result) (p q : Bool) (context : Option Fields)
    → evaluate go condition result p q context ≡ none
    → OperandPanics go.json result.body condition
unfolding evaluate evaluate_comparator evaluate_with
evaluate-panics go condition result p q context h = elim (Option-cases (comparator_of condition)) [
  | inl missing ↦ absurd (ground (arith, missing))
  | inr (c, valid) ↦ elim (valid-Noted go condition result p q context c valid) [
    | inl stuck ↦
        let (operand, there, bad) =
          sanitize-panics go (split (separator c) condition) result context stuck in
        (c, valid, operand, there, bad)
    | inr n ↦ absurd (subst (λ (o : Option (Result × Bool)). Noted result o) h n)
  ]
]
