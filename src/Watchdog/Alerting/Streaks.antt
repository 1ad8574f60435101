-- ===== src/Watchdog/Alerting/Streaks.antt =====
-- Runs of results and an endpoint's counters (watchdog/alerting.go).
use gatus.Prelude.{
  ℕ, suc, ◌+◌, ◌<◌, ◌≡◌, refl, sym, ap, ◌∙◌, Bool, true, false, not, ◌&&◌, some, List, [], ◌∷◌, pos,
  add_64, add_64-one, arith, length, if◌then◌else◌, half_64, Bool-cases, inl, inr,
}
use gatus.Endpoint.{Endpoint, Result}
use gatus.Provider.{Config}
use gatus.Watchdog.Alerting.{Services, handle_alerting}
use gatus.Watchdog.Alerting.Transitions.{success_lem, failure_lem}

-- HandleAlerting on one result after the other, as the monitoring loops call it.
unfoldable pub run :
    {W P : Type 0} → Services W P → Config P → List Result → Endpoint → W → Endpoint × W
run s config [] ep w = (ep, w)
run s config (result ∷ results) ep w =
    let (ep', w') = handle_alerting s (some config) result ep w in run s config results ep' w'

same : Bool → Bool → Bool
same true b = b
same false b = not b

all_are : Bool → List Result → Bool
unfolding same
all_are b [] = true
all_are b (r ∷ rs) = same b r.success && all_are b rs

-- How many results at the end of the list have the outcome `b`, in a row.
unfoldable pub in_a_row : Bool → List Result → ℕ
unfolding all_are
in_a_row b [] = 0
in_a_row b (r ∷ rs) =
    let rest = in_a_row b rs in if all_are b (r ∷ rs) then suc (length rs) else rest

-- The same on top of a streak of `n` that stands before the list.
streak : Bool → ℕ → List Result → ℕ
streak b n rs = if all_are b rs then n + length rs else in_a_row b rs

in_a_row-all : (b : Bool) (rs : List Result) → all_are b rs ≡ true → in_a_row b rs ≡ length rs
unfolding in_a_row
in_a_row-all b [] h = refl
in_a_row-all b (r ∷ rs) h = ground arith

streak-cons :
    (b : Bool) (n : ℕ) (r : Result) (rs : List Result)
    → streak b n (r ∷ rs) ≡ streak b (if same b r.success then suc n else 0) rs
unfolding streak in_a_row
streak-cons b n r rs = ground (arith, in_a_row-all b rs)

streak-zero : (b : Bool) (rs : List Result) → streak b 0 rs ≡ in_a_row b rs
unfolding streak
streak-zero b rs = ground (arith, in_a_row-all b rs)

streak-nil : (b : Bool) (n : ℕ) → n ≡ streak b n []
unfolding streak all_are
streak-nil b n = omega arith

module _ {W P : Type 0} (s : Services W P) (config : Config P) where
  -- Both counters after one result.
  step-streaks :
      (r : Result) (ep : Endpoint) (w : W) (f n : ℕ)
      → ep.number_of_failures_in_a_row ≡ pos f
      → ep.number_of_successes_in_a_row ≡ pos n
      → suc f < half_64
      → suc n < half_64
      → let out = (handle_alerting s (some config) r ep w).0 in
        (out.number_of_failures_in_a_row ≡ pos (if same false r.success then suc f else 0))
        × (out.number_of_successes_in_a_row ≡ pos (if same true r.success then suc n else 0))
  unfolding same
  step-streaks r ep w f n hf hn bf bn = elim (Bool-cases r.success) [
    | inl pass ↦
        (let after = (success_lem s config r ep w pass).0 in
          simp pass (
            ap (λ (e : Endpoint). e.number_of_failures_in_a_row) after,
            ap (λ (e : Endpoint). e.number_of_successes_in_a_row) after
                ∙ (ap (λ z. add_64 z (pos 1)) hn ∙ add_64-one n bn),
          ))
    | inr fail ↦
        (let after = (failure_lem s config r ep w fail).0 in
          simp fail (
            ap (λ (e : Endpoint). e.number_of_failures_in_a_row) after
                ∙ (ap (λ z. add_64 z (pos 1)) hf ∙ add_64-one f bf),
            ap (λ (e : Endpoint). e.number_of_successes_in_a_row) after,
          ))
  ]

  -- Both counters after a run that starts at `f` and `n`.
  run-streaks :
      (results : List Result) (ep : Endpoint) (w : W) (f n : ℕ)
      → ep.number_of_failures_in_a_row ≡ pos f
      → ep.number_of_successes_in_a_row ≡ pos n
      → f + length results < half_64
      → n + length results < half_64
      → let out = (run s config results ep w).0 in
        (out.number_of_failures_in_a_row ≡ pos (streak false f results))
        × (out.number_of_successes_in_a_row ≡ pos (streak true n results))
  unfolding run
  run-streaks [] ep w f n hf hn bf bn =
      (hf ∙ ap pos (streak-nil false f), hn ∙ ap pos (streak-nil true n))
  run-streaks (r ∷ rs) ep w f n hf hn bf bn =
      let (hf', hn') = step-streaks r ep w f n hf hn (omega arith) (omega arith) in
      let out = handle_alerting s (some config) r ep w in
      let rest =
        run-streaks rs out.0 out.1 (if same false r.success then suc f else 0)
          (if same true r.success then suc n else 0) hf' hn' (ground arith) (ground arith) in
      (
        rest.0 ∙ ap pos (sym (streak-cons false f r rs)),
        rest.1 ∙ ap pos (sym (streak-cons true n r rs)),
      )

  -- With alerting configured, for an endpoint that starts with both counters at 0, the counters after any list of results
  -- (shorter than 2^63) are the number of failures, and of successes, that the list ends in.
  pub run-in_a_row :
      (results : List Result) (ep : Endpoint) (w : W)
      → ep.number_of_failures_in_a_row ≡ pos 0
      → ep.number_of_successes_in_a_row ≡ pos 0
      → length results < half_64
      → let out = (run s config results ep w).0 in
        (out.number_of_failures_in_a_row ≡ pos (in_a_row false results))
        × (out.number_of_successes_in_a_row ≡ pos (in_a_row true results))
  run-in_a_row results ep w hf hn b =
      let (f, n) = run-streaks results ep w 0 0 hf hn (omega arith) (omega arith) in
      (f ∙ ap pos (streak-zero false results), n ∙ ap pos (streak-zero true results))
