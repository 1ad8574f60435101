-- ===== src/Suite/Order.antt =====
-- Which endpoints of a suite run, and when the suite is a success.
use mathlib.Core.List.{append_assoc, append-nil}
use gatus.Prelude.{
  ◌≡◌, refl, sym, ap, ◌∙◌, subst, Bool, true, false, not, ◌&&◌, ◌||◌, Bool-cases, inl, inr, Option,
  none, some, List, [], ◌∷◌, ◌++◌, Text, if◌then◌else◌, arith, ◌↔◌, All,
}
use gatus.Clock.{Duration}
use gatus.Endpoint
use gatus.Endpoint.{Endpoint}
use gatus.Suite.{Suite}
use gatus.Suite.Results.{Result, add_error, calculate_success, calculate_success_iff}
use gatus.Suite.Execution.{
  Runner, Running, evaluate_endpoint, run_endpoint, run_endpoints, execute, note_result,
  with_failure, check_timeout,
}

-- The results that endpoints leave, of a suite that has failed or not: an endpoint is skipped
-- exactly if an endpoint before it has failed and it is not to run always.
pub data Ran : Bool → List Endpoint → List Endpoint.Result → Type 0 where
  finished : {failed : Bool} → Ran failed [] []
  skipped :
      {ep : Endpoint} {eps : List Endpoint} {rs : List Endpoint.Result}
      → ep.always_run ≡ false
      → Ran true eps rs
      → Ran true (ep ∷ eps) rs
  ran :
      {failed : Bool} {ep : Endpoint} {eps : List Endpoint} {rs : List Endpoint.Result}
      (result : Endpoint.Result)
      → (failed && not ep.always_run) ≡ false
      → result.name ≡ ep.name
      → Ran (failed || not result.success) eps rs
      → Ran failed (ep ∷ eps) (result ∷ rs)

with_failure-name :
    (failure : Option Text) (result : Endpoint.Result)
    → (with_failure failure result).name ≡ result.name
unfolding with_failure Endpoint.add_error
with_failure-name none result = refl
with_failure-name (some e) result = ground arith

note_result-adds :
    {W : Type 0} (running : Running W) (result : Endpoint.Result)
    → let after = note_result running result in
      (after.result.endpoint_results ≡ running.result.endpoint_results ++ result ∷ [])
      × (after.suite_has_failed ≡ (running.suite_has_failed || not result.success))
unfolding note_result
note_result-adds running result = ground arith

module _ {W : Type 0} (r : Runner W) (timeout : Duration) where
  check_timeout-results :
      (result : Result) (w : W)
      → (check_timeout r timeout result w).0.endpoint_results ≡ result.endpoint_results
  unfolding check_timeout add_error
  check_timeout-results result w = ground arith

  evaluate_endpoint-keeps :
      (ep : Endpoint) (running : Running W)
      → let (running', ep_result) = evaluate_endpoint r timeout ep running in
        (running'.result.endpoint_results ≡ running.result.endpoint_results)
        × (running'.suite_has_failed ≡ running.suite_has_failed)
        × (ep_result.name ≡ ep.name)
  unfolding evaluate_endpoint
  evaluate_endpoint-keeps ep running =
      (check_timeout-results running.result running.world, refl, with_failure-name _ _)

  -- What a turn of the loop adds: one result, with the endpoint's name.
  pub run_endpoint-adds :
      (ep : Endpoint) (running : Running W)
      → let after = run_endpoint r timeout ep running in
        let result = (evaluate_endpoint r timeout ep running).1 in
        (after.result.endpoint_results ≡ running.result.endpoint_results ++ result ∷ [])
        × (after.suite_has_failed ≡ (running.suite_has_failed || not result.success))
  unfolding run_endpoint
  run_endpoint-adds ep running =
      let (running', result) = evaluate_endpoint r timeout ep running in
      let (results, failed, name) = evaluate_endpoint-keeps ep running in
      let (adds, fails) = note_result-adds running' result in
      (
        adds ∙ ap (λ (l : List Endpoint.Result). l ++ result ∷ []) results,
        fails ∙ ap (λ (b : Bool). b || not result.success) failed,
      )

  -- The end, if the test of the skipping gives `skip`.
  abbrev turn : Endpoint → List Endpoint → Running W → Bool → Running W
  turn ep eps running skip =
      run_endpoints r timeout eps (if skip then running else run_endpoint r timeout ep running)

  run_endpoints-Ran :
      (eps : List Endpoint) (running : Running W)
      → (rs : List Endpoint.Result) × ((run_endpoints r timeout eps running).result.endpoint_results
          ≡ running.result.endpoint_results ++ rs)
        × Ran running.suite_has_failed eps rs
  unfolding run_endpoints
  run_endpoints-Ran [] running = ([], sym (append-nil running.result.endpoint_results), finished)
  run_endpoints-Ran (ep ∷ eps) running =
      elim (Bool-cases (running.suite_has_failed && not ep.always_run)) [
        | inl skip ↦
            let (rs, e, tail) = run_endpoints-Ran eps running in
            let failed : running.suite_has_failed ≡ true = ground arith in
            (
              rs,
              ap (λ b. (turn ep eps running b).result.endpoint_results) skip ∙ e,
              subst (λ f. Ran f (ep ∷ eps) rs) (sym failed)
                  (skipped (ground arith) (subst (λ f. Ran f eps rs) failed tail)),
            )
        | inr go ↦
            let result = (evaluate_endpoint r timeout ep running).1 in
            let (adds, fails) = run_endpoint-adds ep running in
            let (rs, e, tail) = run_endpoints-Ran eps (run_endpoint r timeout ep running) in
            (
              result ∷ rs,
              ap (λ b. (turn ep eps running b).result.endpoint_results) go
                  ∙ (e
                      ∙ (ap (λ (l : List Endpoint.Result). l ++ rs) adds
                          ∙ append_assoc running.result.endpoint_results (result ∷ []) rs)),
              ran result go (evaluate_endpoint-keeps ep running).2
                  (subst (λ f. Ran f eps rs) fails tail),
            )
      ]

calculate_success-results :
    (result : Result) → (calculate_success result).endpoint_results ≡ result.endpoint_results
unfolding calculate_success
calculate_success-results result = ground arith

calculate_success-errors : (result : Result) → (calculate_success result).errors ≡ result.errors
unfolding calculate_success
calculate_success-errors result = ground arith

abbrev AllPassed : List Endpoint.Result → Type 0
AllPassed = All (λ e. e.success ≡ true)

calculate_success_own :
    (result : Result)
    → let counted = calculate_success result in
      (counted.success ≡ true) ↔ (AllPassed counted.endpoint_results × (counted.errors ≡ []))
calculate_success_own result =
    let results = calculate_success-results result in
    let errors = calculate_success-errors result in
    (
      λ h.
          let both = (calculate_success_iff result).0 h in
          (subst AllPassed (sym results) both.0, errors ∙ both.1),
      λ h. (calculate_success_iff result).1 (subst AllPassed results h.0, sym errors ∙ h.1),
    )

Ran-at :
    {failed : Bool} {eps : List Endpoint} {rs : List Endpoint.Result} (result : Result)
    → result.endpoint_results ≡ rs
    → Ran failed eps rs
    → Ran failed eps (calculate_success result).endpoint_results
Ran-at {failed} {eps} result e h =
    subst (λ l. Ran failed eps l) (sym (calculate_success-results result ∙ e)) h

module _ {W : Type 0} (r : Runner W) where
  -- The results of a suite's execution are, in order and each with its endpoint's name, those of
  -- all endpoints but the ones that stand behind a failure and are not to run always, whatever the
  -- evaluations, the extractions, the clock and the timer give.
  pub execute-Ran : (s : Suite) (w : W) → Ran false s.endpoints (execute r s w).0.endpoint_results
  unfolding execute
  execute-Ran s w = let (rs, e, h) = run_endpoints-Ran r s.timeout s.endpoints _ in Ran-at _ e h

  -- A suite's execution is a success exactly if every endpoint that ran passed and no error was
  -- noted (which only a timeout does): also the endpoints that ran after the timeout count.
  pub execute-success_iff :
      (s : Suite) (w : W)
      → let result = (execute r s w).0 in
        (result.success ≡ true)
        ↔ (All (λ e. e.success ≡ true) result.endpoint_results × (result.errors ≡ []))
  unfolding execute
  execute-success_iff s w = calculate_success_own _
