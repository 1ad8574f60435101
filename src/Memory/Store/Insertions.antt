-- ===== src/Memory/Store/Insertions.antt =====
-- What the memory store holds after any sequence of InsertEndpointResult
-- (storage/store/memory/memory.go).
use gatus.Prelude.{
  ℕ, ◌-◌, ◌≤◌, ◌≡◌, refl, sym, ap, ◌∙◌, Bool-cases, inl, inr, true, false, Option, none, some, List,
  [], ◌∷◌, ◌++◌, length, drop, Text, text_eq, text_eq_iff, if◌then◌else◌, arith,
}
use mathlib.Core.List.{append_assoc, append-nil}
use gatus.Clock.{Time}
use gatus.Endpoint.{Endpoint, Result, key}
use gatus.Suite.Results
use gatus.Memory.Cache.{Cache}
use gatus.Memory.Status.{Status, new_status, keep_last, add_result}
use gatus.Memory.Status.History.{length-keep_last, keep_last_lem, keep_last-append, keep_last_self}
use gatus.Memory.Store.{Store, new_store, status_or_new, insert_endpoint_result}
use gatus.Memory.Store.Endpoints.{get-insert}

-- A call of InsertEndpointResult, with what the clock says when a status is created and when hours
-- are cleaned up.
pub record Insertion : Type 0 where
  pub start : Time
  pub now : Time
  pub endpoint : Endpoint
  pub result : Result

-- The results of those insertions whose endpoint has the key.
abbrev pub results_with : Text → List Insertion → List Result
results_with k [] = []
results_with k (i ∷ insertions) =
    if text_eq (key i.endpoint) k
    then i.result ∷ results_with k insertions
    else results_with k insertions

-- The results of a status, if there is one.
abbrev pub results_in : Option Status → List Result
results_in none = []
results_in (some status) = status.results

new-results :
    (start : Time) (ep : Endpoint) (o : Option Status)
    → (status_or_new start ep o).results ≡ results_in o
unfolding status_or_new new_status
new-results start ep none = refl
new-results start ep (some status) = refl

added-results :
    (now : Time) (ss : Status) (r : Result) (m e : ℕ)
    → (add_result now ss r m e).results ≡ keep_last m (ss.results ++ r ∷ [])
unfolding add_result
added-results now ss r m e = refl

module _ (E : Cache Status) (S : Cache Results.Status) where
  -- One insertion after the other.
  pub insert_all : Store E.C S.C → List Insertion → Store E.C S.C
  insert_all s [] = s
  insert_all s (i ∷ insertions) =
      insert_all (insert_endpoint_result E S i.start i.now s i.endpoint i.result) insertions

  abbrev pub results_at : Store E.C S.C → Text → List Result
  results_at s k = results_in (E.get s.endpoint_cache k)

  limit_kept :
      (s : Store E.C S.C) (i : Insertion)
      → (insert_endpoint_result E S i.start i.now s i.endpoint i.result).maximum_number_of_results
        ≡ s.maximum_number_of_results
  unfolding insert_endpoint_result
  limit_kept s i = refl

  inserted_here :
      (s : Store E.C S.C) (i : Insertion) (k : Text)
      → text_eq (key i.endpoint) k ≡ true
      → results_at (insert_endpoint_result E S i.start i.now s i.endpoint i.result) k
        ≡ keep_last s.maximum_number_of_results (results_at s k ++ i.result ∷ [])
  inserted_here s i k same =
      ap results_in (get-insert E S i.start i.now s i.endpoint i.result k)
      ∙ rw same (
          added-results i.now
            (status_or_new i.start i.endpoint (E.get s.endpoint_cache (key i.endpoint))) i.result
            s.maximum_number_of_results s.maximum_number_of_events
          ∙ ap (λ l. keep_last s.maximum_number_of_results (l ++ i.result ∷ []))
              (new-results i.start i.endpoint (E.get s.endpoint_cache (key i.endpoint))
                ∙ ap (λ j. results_at s j) ((text_eq_iff (key i.endpoint) k).0 same)))

  inserted_elsewhere :
      (s : Store E.C S.C) (i : Insertion) (k : Text)
      → text_eq (key i.endpoint) k ≡ false
      → results_at (insert_endpoint_result E S i.start i.now s i.endpoint i.result) k
        ≡ results_at s k
  inserted_elsewhere s i k other =
      ap results_in (get-insert E S i.start i.now s i.endpoint i.result k) ∙ rw other refl

  -- From a store whose results under the key are within the limit.
  results-insert_all :
      (s : Store E.C S.C) (insertions : List Insertion) (k : Text)
      → length (results_at s k) ≤ s.maximum_number_of_results
      → results_at (insert_all s insertions) k
        ≡ keep_last s.maximum_number_of_results (results_at s k ++ results_with k insertions)
  unfolding insert_all
  results-insert_all s [] k h = sym (
      ap (keep_last s.maximum_number_of_results) (append-nil (results_at s k))
      ∙ keep_last_self s.maximum_number_of_results (results_at s k) h)
  results-insert_all s (i ∷ insertions) k h =
      let s' = insert_endpoint_result E S i.start i.now s i.endpoint i.result in
      let m = s.maximum_number_of_results in
      let old = results_at s k in
      let rest = results_with k insertions in
      elim (Bool-cases (text_eq (key i.endpoint) k)) [
        | inl same ↦
            let here = inserted_here s i k same in
            let kept = length-keep_last m (old ++ i.result ∷ []) in
            rw same (
              results-insert_all s' insertions k
                (omega (arith, ap (λ (l : List Result). length l) here, kept, limit_kept s i))
              ∙ ap (λ n. keep_last n (results_at s' k ++ rest)) (limit_kept s i)
              ∙ ap (λ l. keep_last m (l ++ rest)) here
              ∙ keep_last-append m (old ++ i.result ∷ []) rest
              ∙ ap (keep_last m) (append_assoc old (i.result ∷ []) rest))
        | inr other ↦
            let elsewhere = inserted_elsewhere s i k other in
            rw other (
              results-insert_all s' insertions k
                (omega (arith, ap (λ (l : List Result). length l) elsewhere, limit_kept s i, h))
              ∙ ap (λ n. keep_last n (results_at s' k ++ rest)) (limit_kept s i)
              ∙ ap (λ l. keep_last m (l ++ rest)) elsewhere)
      ]

  nothing_stored : (m e : ℕ) (k : Text) → results_at (new_store E S m e) k ≡ []
  unfolding new_store
  nothing_stored m e k = ap results_in (E.get-new_cache k)

  -- Of all results that were inserted into a new store, in any order over any endpoints, the status
  -- under a key holds those of the endpoints with that key, in the order in which they came: the
  -- newest of them, as many as the store keeps, and none of another endpoint's.
  pub results-inserted :
      (m e : ℕ) (insertions : List Insertion) (k : Text)
      → let results = results_with k insertions in
        results_at (insert_all (new_store E S m e) insertions) k ≡ drop (length results - m) results
  unfolding new_store
  results-inserted m e insertions k =
      let results = results_with k insertions in
      let empty = nothing_stored m e k in
      results-insert_all (new_store E S m e) insertions k
        (omega (arith, ap (λ (l : List Result). length l) empty))
      ∙ ap (λ l. keep_last m (l ++ results)) empty
      ∙ keep_last_lem m results
