-- ===== src/Memory/Store/Suites.antt =====
-- The operations of the memory store on suites (storage/store/memory/memory.go and util.go), and
-- what it holds after each.
use mathlib.Core.Path.{subst₂}
use gatus.Prelude.{
  ℕ, ◌≤◌, ◌<◌, ◌≡◌, ◌≢◌, refl, sym, ◌∙◌, ◌&&◌, inl, inr, Option, none, some, List, [], ◌∷◌, ◌++◌,
  Option-cases, pos, eq_ℤ, length, half_64, Is64, Text, text_eq, text_eq_iff, if◌then◌else◌, arith,
}
use gatus.Endpoint.{contains_text}
use gatus.Suite.{Suite, suite_key}
use gatus.Suite.Results
use gatus.Memory.Cache.{Cache, keys_of}
use gatus.Memory.Paging.{SuiteStatusParams, page_slice}
use gatus.Memory.Paging.Bounds.{page_slice-ne-none}
use gatus.Memory.Status.{Status, keep_last}
use gatus.Memory.Status.History.{length-keep_last}
use gatus.Memory.Store.{Store, Reply, err_suite_not_found, keys_to_delete, copied}
use gatus.Memory.Store.Endpoints.{found_where, contains-keys_to_delete, after_delete}

-- A copy with the results of a slice, unless that panics.
with_results : Results.Status → Option (List Results.Result) → Option Results.Status
with_results ss none = none
with_results ss (some results) = some (record ss { results = results })

-- ShallowCopySuiteStatus; the outer `none` is a panic, `none` parameters are nil.
unfoldable pub shallow_copy_suite_status :
    Results.Status → Option SuiteStatusParams → Option Results.Status
unfolding with_results
shallow_copy_suite_status ss none = some ss
shallow_copy_suite_status ss (some params) =
    if eq_ℤ params.page (pos 0) && eq_ℤ params.page_size (pos 0)
    then some ss
    else with_results ss (page_slice ss.results params.page params.page_size)

-- A shallow copy of a suite's status never panics, whatever the page parameters.
pub shallow_copy_suite-ne-none :
    (ss : Results.Status) (params : SuiteStatusParams)
    → length ss.results < half_64
    → Is64 params.page
    → Is64 params.page_size
    → shallow_copy_suite_status ss (some params) ≢ none
unfolding shallow_copy_suite_status with_results
shallow_copy_suite-ne-none ss params h fits fits' e =
    ground (arith, page_slice-ne-none ss.results params.page params.page_size h fits fits')

-- The status that InsertSuiteResult starts from.
unfoldable pub suite_status_or_new : Suite → Option Results.Status → Results.Status
suite_status_or_new su none = record {
  name = su.name;
  group = su.group;
  key = suite_key su;
  results = [];
}
suite_status_or_new su (some status) = status

-- The status with the new result, and no more than the maximum.
unfoldable pub add_suite_result : ℕ → Results.Result → Results.Status → Results.Status
add_suite_result maximum result status = record status {
  results = keep_last maximum (status.results ++ result ∷ []);
}

module _ (E : Cache Status) (S : Cache Results.Status) where
  -- GetSuiteStatusByKey.
  unfoldable pub get_suite_status_by_key :
      Store E.C S.C → Text → Option SuiteStatusParams → Reply Results.Status
  unfolding copied
  get_suite_status_by_key s key params = elim (S.get s.suite_cache key) [
    | none ↦ err_suite_not_found
    | some status ↦ copied (shallow_copy_suite_status status params)
  ]

  -- InsertSuiteResult.
  unfoldable pub insert_suite_result : Store E.C S.C → Suite → Results.Result → Store E.C S.C
  insert_suite_result s su result =
      let key = suite_key su in
      let status = suite_status_or_new su (S.get s.suite_cache key) in
      record s {
        suite_cache =
            S.put s.suite_cache key (add_suite_result s.maximum_number_of_results result status);
      }

  -- DeleteAllSuiteStatusesNotInKeys; the set of the keys to keep is their list.
  unfoldable pub delete_all_suite_statuses_not_in_keys :
      Store E.C S.C → List Text → Store E.C S.C × ℕ
  delete_all_suite_statuses_not_in_keys s keys =
      let (cache, deleted) =
        S.delete_all s.suite_cache (keys_to_delete keys (keys_of (S.get_all s.suite_cache))) in
      (record s { suite_cache = cache }, deleted)

  -- Deleting the suites that are not in the keys leaves exactly those whose keys are given, and
  -- every endpoint.
  pub get-delete_all_suites_not_in_keys :
      (s : Store E.C S.C) (keys : List Text) (k : Text)
      → let s' = (delete_all_suite_statuses_not_in_keys s keys).0 in
        (S.get s'.suite_cache k ≡ (if contains_text keys k then S.get s.suite_cache k else none))
        × (E.get s'.endpoint_cache k ≡ E.get s.endpoint_cache k)
  unfolding delete_all_suite_statuses_not_in_keys
  get-delete_all_suites_not_in_keys s keys k = (
    S.get-delete_all s.suite_cache (keys_to_delete keys (keys_of (S.get_all s.suite_cache))) k
        ∙ after_delete (contains_text keys k) (S.get s.suite_cache k)
            (contains-keys_to_delete keys (keys_of (S.get_all s.suite_cache)) k)
            (S.contains-keys_of-get_all s.suite_cache k),
    refl,
  )

  -- Every suite's status is stored under its own key, with no more results than configured.
  pub record AreSoundSuites (s : Store E.C S.C) : Type 0 where
    pub at_suite_key :
        (k : Text) (status : Results.Status)
        → S.get s.suite_cache k ≡ some status
        → (status.key ≡ k) × (length status.results ≤ s.maximum_number_of_results)

  added_suite :
      (s : Store E.C S.C) (su : Suite) (result : Results.Result)
      → AreSoundSuites s
      → (suite_status_or_new su (S.get s.suite_cache (suite_key su))).key ≡ suite_key su
  unfolding suite_status_or_new
  added_suite s su result h = elim (Option-cases (S.get s.suite_cache (suite_key su))) [
    | inl e ↦ rw e refl
    | inr (old, e) ↦ rw e ((h.at_suite_key (suite_key su) old e).0)
  ]

  -- Inserting a suite's result keeps every suite's status under its own key and within the
  -- configured number of results, and leaves the endpoints alone.
  pub insert_suite-AreSoundSuites :
      (s : Store E.C S.C) (su : Suite) (result : Results.Result)
      → AreSoundSuites s
      → AreSoundSuites (insert_suite_result s su result)
        × ((insert_suite_result s su result).endpoint_cache ≡ s.endpoint_cache)
  unfolding insert_suite_result add_suite_result
  insert_suite-AreSoundSuites s su result h = (
    record {
      at_suite_key = λ k status e.
          elim (found_where (text_eq (suite_key su) k)
            (sym (S.get-put s.suite_cache (suite_key su) k _) ∙ e)) [
              | inl (same, new) ↦
                  subst₂
                    (λ j (x : Results.Status).
                      (x.key ≡ j) × (length x.results ≤ s.maximum_number_of_results))
                    ((text_eq_iff (suite_key su) k).0 same) new
                    (added_suite s su result h, length-keep_last s.maximum_number_of_results _)
              | inr (other, old) ↦ h.at_suite_key k status old
            ];
    },
    refl,
  )
