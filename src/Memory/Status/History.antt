-- ===== src/Memory/Status/History.antt =====
-- The results that a status keeps, and its shallow copy (storage/store/memory/util.go).
use gatus.Prelude.{
  ℕ, ◌+◌, ◌-◌, ◌≤◌, ◌<◌, ◌≡◌, ◌≢◌, refl, sym, ap, ◌∙◌, none, some, List, [], ◌∷◌, ◌++◌, length,
  length-append, length-drop, drop, drop-drop, drop-append_lt, ltb, Bool-cases, inl, inr, arith,
  half_64, Is64, false,
}
use mathlib.Core.List.{append_assoc, append-nil}
use gatus.Clock.{Time}
use gatus.Endpoint.{Result}
use gatus.Memory.Paging.{EndpointStatusParams}
use gatus.Memory.Paging.Bounds.{page_slice-ne-none}
use gatus.Memory.Status.{Status, keep_last, add_result, shallow_copy_endpoint_status}

module _ {ℓ} {A : Type ℓ} where
  pub length-keep_last : (n : ℕ) (xs : List A) → length (keep_last n xs) ≤ n
  unfolding keep_last
  length-keep_last n xs = ground (arith, length-drop (length xs - n) xs)

  pub keep_last_lem : (n : ℕ) (xs : List A) → keep_last n xs ≡ drop (length xs - n) xs
  unfolding keep_last
  keep_last_lem n xs = elim (Bool-cases (ltb n (length xs))) [
    | inl over ↦ rw over
    | inr fits ↦ rw fits (ap (λ k. drop k xs) (fitting n (length xs) fits))
  ]
    where
      fitting : (a b : ℕ) → ltb a b ≡ false → 0 ≡ b - a
      fitting a b h = ground arith

  cut_once :
      (n : ℕ) (xs : List A) (zs : List A)
      → length xs - n + (length (drop (length xs - n) xs ++ zs) - n) ≡ length (xs ++ zs) - n
  cut_once n xs zs = omega (
    arith,
    length-append (drop (length xs - n) xs) zs,
    length-append xs zs,
    length-drop (length xs - n) xs,
  )

  -- Cutting, adding more and cutting again is adding and cutting.
  pub keep_last-append :
      (n : ℕ) (xs : List A) (zs : List A)
      → keep_last n (keep_last n xs ++ zs) ≡ keep_last n (xs ++ zs)
  keep_last-append n xs zs =
      let old = length xs - n in
      let ys : List A = drop old xs in
      let new = length (ys ++ zs) - n in
      ap (λ l. keep_last n (l ++ zs)) (keep_last_lem n xs)
      ∙ (keep_last_lem n (ys ++ zs)
          ∙ (ap (λ l. drop new l) (sym (drop-append_lt old xs zs (omega arith)))
              ∙ (drop-drop new old (xs ++ zs)
                  ∙ (ap (λ k. drop k (xs ++ zs)) (cut_once n xs zs)
                      ∙ sym (keep_last_lem n (xs ++ zs))))))

  pub keep_last_self : (n : ℕ) (xs : List A) → length xs ≤ n → keep_last n xs ≡ xs
  unfolding keep_last
  keep_last_self n xs h = ground arith

-- AddResult for one result after the other, each with its clock.
pub add_results : ℕ → ℕ → Status → List (Time × Result) → Status
add_results max_results max_events ss [] = ss
add_results max_results max_events ss ((now, r) ∷ rest) =
    add_results max_results max_events (add_result now ss r max_results max_events) rest

unfoldable pub results_of : List (Time × Result) → List Result
results_of [] = []
results_of ((now, r) ∷ rest) = r ∷ results_of rest

results-add_result :
    (now : Time) (ss : Status) (r : Result) (m e : ℕ)
    → (add_result now ss r m e).results ≡ keep_last m (ss.results ++ r ∷ [])
unfolding add_result
results-add_result now ss r m e = refl

results-add_result_le :
    (now : Time) (ss : Status) (r : Result) (m e : ℕ) → length (add_result now ss r m e).results ≤ m
unfolding add_result
results-add_result_le now ss r m e = length-keep_last m (ss.results ++ r ∷ [])

-- However many results are added to a status that keeps no more than the maximum, it keeps the
-- newest of them, at most the maximum, in the order in which they came.
pub results-add_results :
    (max_results max_events : ℕ) (ss : Status) (l : List (Time × Result))
    → length ss.results ≤ max_results
    → (add_results max_results max_events ss l).results
      ≡ keep_last max_results (ss.results ++ results_of l)
unfolding add_results results_of
results-add_results m e ss [] h =
    sym (ap (keep_last m) (append-nil ss.results) ∙ keep_last_self m ss.results h)
results-add_results m e ss ((now, r) ∷ rest) h =
    results-add_results m e (add_result now ss r m e) rest (results-add_result_le now ss r m e)
    ∙ (ap (λ l. keep_last m (l ++ results_of rest)) (results-add_result now ss r m e)
        ∙ (keep_last-append m (ss.results ++ r ∷ []) (results_of rest)
            ∙ ap (keep_last m) (append_assoc ss.results (r ∷ []) (results_of rest))))

-- The parameters of a page, as ints.
pub record Are64 (p : EndpointStatusParams) : Type 0 where
  pub results_page_fits : Is64 p.results_page
  pub results_page_size_fits : Is64 p.results_page_size
  pub events_page_fits : Is64 p.events_page
  pub events_page_size_fits : Is64 p.events_page_size

-- A shallow copy never panics, whatever the page parameters.
pub shallow_copy-ne-none :
    (ss : Status) (params : EndpointStatusParams)
    → length ss.results < half_64
    → length ss.events < half_64
    → Are64 params
    → shallow_copy_endpoint_status ss (some params) ≢ none
unfolding shallow_copy_endpoint_status
shallow_copy-ne-none ss params hr he fits h = ground (
  arith,
  page_slice-ne-none ss.results params.results_page params.results_page_size hr
      fits.results_page_fits fits.results_page_size_fits,
  page_slice-ne-none ss.events params.events_page params.events_page_size he fits.events_page_fits
      fits.events_page_size_fits,
)
