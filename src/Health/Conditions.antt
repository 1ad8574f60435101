-- ===== src/Health/Conditions.antt =====
-- What the loop over the conditions of an endpoint does to its result (config/endpoint/endpoint.go).
use gatus.Prelude.{
  suc, ◌≡◌, ◌≢◌, ◌↔◌, refl, ap, ◌∙◌, subst, Bool, true, false, Option-cases, inl, inr, Option, none,
  some, List, [], ◌∷◌, ◌++◌, All, Text, length, arith,
}
use gatus.Settings.{Ui}
use gatus.Endpoint.{ConditionResult, Result}
use gatus.Gontext.{Fields}
use gatus.Condition.{Library}
use gatus.Condition.Evaluation.{comparator_of, evaluate}
use gatus.Condition.Outcome.{noted, evaluate-notes}
use gatus.Health.Evaluation.{evaluate_conditions, after_condition}

abbrev pub IsMet : ConditionResult → Type 0
IsMet r = r.success ≡ true

-- What a run of the conditions adds to a result.
pub record Judged (conditions : List Text) (before after : Result) : Type 0 where
  pub added : List ConditionResult
  pub one_each : length added ≡ length conditions
  pub results_grow : after.condition_results ≡ before.condition_results ++ added
  pub same_errors : after.errors ≡ before.errors
  pub success_iff : (after.success ≡ true) ↔ ((before.success ≡ true) × All IsMet added)

append_nil : (xs : List ConditionResult) → xs ≡ xs ++ []
append_nil [] = refl
append_nil (x ∷ xs) = ap (λ t. x ∷ t) (append_nil xs)

append_one :
    (xs : List ConditionResult) (x : ConditionResult) (ys : List ConditionResult)
    → (xs ++ x ∷ []) ++ ys ≡ xs ++ x ∷ ys
append_one [] x ys = refl
append_one (y ∷ xs) x ys = ap (λ t. y ∷ t) (append_one xs x ys)

no_success : false ≡ true → ⊥
no_success h = ground arith

the_same : (r s : Result) → ◌≡◌ {A = Option Result} (some r) (some s) → r ≡ s
the_same r s h = ap (λ (o : Option Result). elim o [ none ↦ r | some t ↦ t ]) h

-- One condition in front of those that are judged.
judge_first :
    (c : Text) (conditions : List Text) (before : Result) (display : Text) (success : Bool)
    (after : Result)
    → Judged conditions (after_condition (noted before display success) success) after
    → Judged (c ∷ conditions) before after
judge_first c conditions before display true after j = record {
  added = record { condition = display; success = true } ∷ j.added;
  one_each = ap suc j.one_each;
  results_grow =
      j.results_grow
      ∙ append_one before.condition_results (record { condition = display; success = true })
          j.added;
  same_errors = j.same_errors;
  success_iff =
      (λ h. (let (p, q) = j.success_iff.0 h in (p, (refl, q))), λ h. j.success_iff.1 (h.0, h.1.1));
}
judge_first c conditions before display false after j = record {
  added = record { condition = display; success = false } ∷ j.added;
  one_each = ap suc j.one_each;
  results_grow =
      j.results_grow
      ∙ append_one before.condition_results (record { condition = display; success = false })
          j.added;
  same_errors = j.same_errors;
  success_iff = (λ h. absurd (no_success (j.success_iff.0 h).0), λ h. absurd (no_success h.1.0));
}

module _ (go : Library) (ui : Ui) (context : Option Fields) where
  -- Where the loop over valid conditions returns, it has noted one result for each condition and no
  -- error, and the result is successful exactly where it was so before and every condition is met.
  pub evaluate_conditions_lem :
      (conditions : List Text) (before after : Result)
      → All (λ c. comparator_of c ≢ none) conditions
      → evaluate_conditions go ui context conditions before ≡ some after
      → Judged conditions before after
  unfolding evaluate_conditions
  evaluate_conditions_lem [] before after v h =
      subst (λ (r : Result). Judged [] before r) (the_same before after h)
        (record {
          added = [];
          one_each = refl;
          results_grow = append_nil before.condition_results;
          same_errors = refl;
          success_iff = (λ k. (k, tt), λ k. k.0);
        })
  evaluate_conditions_lem (c ∷ conditions) before after v h =
      elim (Option-cases (
        evaluate go c before ui.dont_resolve_failed_conditions ui.resolve_successful_conditions
          context)) [
            | inl stuck ↦ absurd (ground (arith, stuck))
            | inr ((next, success), there) ↦
                elim (evaluate-notes go c before ui.dont_resolve_failed_conditions
                  ui.resolve_successful_conditions context next success there) [
                    | inl (display, valid, same) ↦
                        judge_first c conditions before display success after (
                          evaluate_conditions_lem conditions
                            (after_condition (noted before display success) success) after v.1
                            (ground (arith, there, same)))
                    | inr (missing, failure, same) ↦ absurd (v.0 missing)
                  ]
          ]
