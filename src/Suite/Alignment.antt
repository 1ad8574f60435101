-- ===== src/Suite/Alignment.antt =====
-- Which result stands at which index of a suite's results (config/suite/suite.go).
use mathlib.Core.List.{append_assoc, append-nil}
use mathlib.Core.List.{Memᴰ}
use mathlib.Core.List.Memᴰ.{head as here, tail as there_behind}
use gatus.Prelude.{
  ◌≡◌, refl, sym, ap, ◌∙◌, subst, Bool, true, false, not, ◌&&◌, ◌||◌, Bool-cases, inl, inr, ◌≤◌,
  List, [], ◌∷◌, ◌++◌, arith, length, All2, if◌then◌else◌,
}
use gatus.Clock.{Duration}
use gatus.Endpoint
use gatus.Endpoint.{Endpoint}
use gatus.Suite.{Suite}
use gatus.Suite.Results.{Result, calculate_success}
use gatus.Suite.Execution.{Runner, Running, evaluate_endpoint, run_endpoint, run_endpoints, execute}
use gatus.Suite.Order.{Ran, finished, skipped, ran, execute-Ran, run_endpoint-adds}

-- The results of endpoints, of a suite that has failed or not, with what is known of each result
-- and its endpoint.
pub data RanBy (P : Endpoint → Endpoint.Result → Type 0)
    : Bool → List Endpoint → List Endpoint.Result → Type 0 where
  nothing_left : {failed : Bool} → RanBy P failed [] []
  left_out :
      {ep : Endpoint} {eps : List Endpoint} {rs : List Endpoint.Result}
      → ep.always_run ≡ false
      → RanBy P true eps rs
      → RanBy P true (ep ∷ eps) rs
  judged :
      {failed : Bool} {ep : Endpoint} {eps : List Endpoint} {rs : List Endpoint.Result}
      (result : Endpoint.Result)
      → (failed && not ep.always_run) ≡ false
      → P ep result
      → RanBy P (failed || not result.success) eps rs
      → RanBy P failed (ep ∷ eps) (result ∷ rs)

-- The result is what the endpoint's evaluation gave at some point of a suite's execution.
abbrev pub Evaluated : {W : Type 0} → Runner W → Duration → Endpoint → Endpoint.Result → Type 0
Evaluated {W} r timeout ep result =
    (running : Running W) × (result ≡ (evaluate_endpoint r timeout ep running).1)

module _ {W : Type 0} (r : Runner W) (timeout : Duration) where
  abbrev turn : Endpoint → List Endpoint → Running W → Bool → Running W
  turn ep eps running skip =
      run_endpoints r timeout eps (if skip then running else run_endpoint r timeout ep running)

  run_endpoints-RanBy :
      (eps : List Endpoint) (running : Running W)
      → (rs : List Endpoint.Result) × ((run_endpoints r timeout eps running).result.endpoint_results
          ≡ running.result.endpoint_results ++ rs)
        × RanBy (Evaluated r timeout) running.suite_has_failed eps rs
  unfolding run_endpoints
  run_endpoints-RanBy [] running =
      ([], sym (append-nil running.result.endpoint_results), nothing_left)
  run_endpoints-RanBy (ep ∷ eps) running =
      elim (Bool-cases (running.suite_has_failed && not ep.always_run)) [
        | inl skip ↦
            let (rs, e, tail) = run_endpoints-RanBy eps running in
            let failed : running.suite_has_failed ≡ true = ground arith in
            (
              rs,
              ap (λ b. (turn ep eps running b).result.endpoint_results) skip ∙ e,
              subst (λ f. RanBy (Evaluated r timeout) f (ep ∷ eps) rs) (sym failed)
                  (left_out (ground arith)
                    (subst (λ f. RanBy (Evaluated r timeout) f eps rs) failed tail)),
            )
        | inr go ↦
            let result = (evaluate_endpoint r timeout ep running).1 in
            let (adds, fails) = run_endpoint-adds r timeout ep running in
            let (rs, e, tail) = run_endpoints-RanBy eps (run_endpoint r timeout ep running) in
            (
              result ∷ rs,
              ap (λ b. (turn ep eps running b).result.endpoint_results) go
                  ∙ (e
                      ∙ (ap (λ (l : List Endpoint.Result). l ++ rs) adds
                          ∙ append_assoc running.result.endpoint_results (result ∷ []) rs)),
              judged result go (running, refl)
                  (subst (λ f. RanBy (Evaluated r timeout) f eps rs) fails tail),
            )
      ]

-- An endpoint of the list that is to run always gave the result.
abbrev pub Behind : (Endpoint → Endpoint.Result → Type 0) → List Endpoint → Endpoint.Result → Type 0
Behind P eps result = (c : Endpoint) × Memᴰ c eps × (c.always_run ≡ true) × P c result

later :
    (P : Endpoint → Endpoint.Result → Type 0) {b : Endpoint} {eps : List Endpoint}
    (result : Endpoint.Result)
    → Behind P eps result
    → Behind P (b ∷ eps) result
later P result (c, there, always, known) = (c, there_behind there, always, known)

-- In a suite that has failed.
behind :
    (P : Endpoint → Endpoint.Result → Type 0) (eps : List Endpoint)
    (front rest : List Endpoint.Result) (result : Endpoint.Result)
    → RanBy P true eps (front ++ result ∷ rest)
    → Behind P eps result
behind P [] [] rest result h = elim h [ ]
behind P [] (x ∷ front) rest result h = elim h [ ]
behind P (ep ∷ eps) [] rest result (left_out h t) = later P result (behind P eps [] rest result t)
behind P (ep ∷ eps) (x ∷ front) rest result (left_out h t) =
    later P result (behind P eps (x ∷ front) rest result t)
behind P (ep ∷ eps) [] rest result (judged x go known t) = (ep, here refl, ground arith, known)
behind P (ep ∷ eps) (x ∷ front) rest result (judged y go known t) =
    later P result (behind P eps front rest result t)

-- As many results as endpoints stand in front, or more.
behind_skipped :
    (P : Endpoint → Endpoint.Result → Type 0) (pre : List Endpoint) (b : Endpoint)
    (post : List Endpoint) (front rest : List Endpoint.Result) (result : Endpoint.Result)
    → b.always_run ≡ false
    → length pre ≤ length front
    → RanBy P true (pre ++ b ∷ post) (front ++ result ∷ rest)
    → Behind P post result
behind_skipped P [] b post [] rest result hb le (left_out h t) = behind P post [] rest result t
behind_skipped P [] b post (x ∷ front) rest result hb le (left_out h t) =
    behind P post (x ∷ front) rest result t
behind_skipped P [] b post [] rest result hb le (judged x go known t) = absurd (ground arith)
behind_skipped P [] b post (x ∷ front) rest result hb le (judged y go known t) =
    absurd (ground arith)
behind_skipped P (e ∷ pre) b post [] rest result hb le h = absurd (omega arith)
behind_skipped P (e ∷ pre) b post (x ∷ front) rest result hb le (left_out h t) =
    behind_skipped P pre b post (x ∷ front) rest result hb (omega arith) t
behind_skipped P (e ∷ pre) b post (x ∷ front) rest result hb le (judged y go known t) =
    behind_skipped P pre b post front rest result hb (omega arith) t

-- Whether a result is no success.
abbrev pub any_failure : List Endpoint.Result → Bool
any_failure [] = false
any_failure (x ∷ results) = not x.success || any_failure results

at_skipped :
    (P : Endpoint → Endpoint.Result → Type 0) (failed : Bool) (pre : List Endpoint) (b : Endpoint)
    (post : List Endpoint) (front rest : List Endpoint.Result) (result : Endpoint.Result)
    → b.always_run ≡ false
    → length front ≡ length pre
    → (failed || any_failure front) ≡ true
    → RanBy P failed (pre ++ b ∷ post) (front ++ result ∷ rest)
    → Behind P post result
at_skipped P true pre b post front rest result hb same f h =
    behind_skipped P pre b post front rest result hb (omega arith) h
at_skipped P false [] b post [] rest result hb same f h = absurd (ground arith)
at_skipped P false [] b post (x ∷ front) rest result hb same f h = absurd (omega arith)
at_skipped P false (e ∷ pre) b post [] rest result hb same f h = absurd (omega arith)
at_skipped P false (e ∷ pre) b post (x ∷ front) rest result hb same f (judged y go known t) =
    at_skipped P (not y.success) pre b post front rest result hb (omega arith) f t

RanBy-at :
    {P : Endpoint → Endpoint.Result → Type 0} {eps : List Endpoint} {rs : List Endpoint.Result}
    (result : Result)
    → result.endpoint_results ≡ rs
    → RanBy P false eps rs
    → RanBy P false eps (calculate_success result).endpoint_results
unfolding calculate_success
RanBy-at {P} {eps} result e h = subst (λ l. RanBy P false eps l) (sym (kept ∙ e)) h
  where
    kept : (calculate_success result).endpoint_results ≡ result.endpoint_results
    kept = ground arith

execute-RanBy :
    {W : Type 0} (r : Runner W) (s : Suite) (w : W)
    → RanBy (Evaluated r s.timeout) false s.endpoints (execute r s w).0.endpoint_results
unfolding execute
execute-RanBy r s w =
    let (rs, e, h) = run_endpoints-RanBy r s.timeout s.endpoints _ in RanBy-at _ e h

-- Where the endpoints in front of one that is not to run always have all left a result, one of them
-- a failure, the next result is that of an endpoint behind it, which is to run always.
pub execute-behind :
    {W : Type 0} (r : Runner W) (s : Suite) (w : W) (pre post : List Endpoint) (b : Endpoint)
    (front rest : List Endpoint.Result) (result : Endpoint.Result)
    → s.endpoints ≡ pre ++ b ∷ post
    → b.always_run ≡ false
    → (execute r s w).0.endpoint_results ≡ front ++ result ∷ rest
    → length front ≡ length pre
    → any_failure front ≡ true
    → Behind (Evaluated r s.timeout) post result
execute-behind r s w pre post b front rest result eps hb results same failure =
    at_skipped (Evaluated r s.timeout) false pre b post front rest result hb same failure (
      subst (λ l. RanBy (Evaluated r s.timeout) false l (front ++ result ∷ rest)) eps
        (subst (λ l. RanBy (Evaluated r s.timeout) false s.endpoints l) results
          (execute-RanBy r s w)))

Ran-length :
    {failed : Bool} {eps : List Endpoint} {rs : List Endpoint.Result}
    → Ran failed eps rs
    → length rs ≤ length eps
Ran-length finished = omega arith
Ran-length (skipped h tail) = omega (arith, Ran-length tail)
Ran-length (ran r go name tail) = omega (arith, Ran-length tail)

Ran-All2 :
    {failed : Bool} {eps : List Endpoint} {rs : List Endpoint.Result}
    → Ran failed eps rs
    → length rs ≡ length eps
    → All2 (λ (ep : Endpoint) (x : Endpoint.Result). x.name ≡ ep.name) eps rs
Ran-All2 finished e = tt
Ran-All2 (skipped h tail) e = absurd (omega (arith, Ran-length tail))
Ran-All2 (ran r go name tail) e = (name, Ran-All2 tail (omega arith))

-- If an execution leaves as many results as the suite has endpoints, the result at every index is
-- that of the endpoint at this index.
pub execute-aligned :
    {W : Type 0} (r : Runner W) (s : Suite) (w : W)
    → length (execute r s w).0.endpoint_results ≡ length s.endpoints
    → All2
        (λ (ep : Endpoint) (x : Endpoint.Result). x.name ≡ ep.name)
        s.endpoints
        (execute r s w).0.endpoint_results
execute-aligned r s w e = Ran-All2 (execute-Ran r s w) e
