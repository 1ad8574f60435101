-- ===== src/Memory/Store/Endpoints.antt =====
-- What the store holds: every endpoint's status after an insertion and after a deletion.
use mathlib.Core.Path.{subst₂}
use gatus.Prelude.{
  ℕ, ◌≤◌, ◌<◌, ◌≡◌, refl, sym, ap, ◌∙◌, Bool, true, false, not, ◌&&◌, Bool-cases, inl, inr, ◌⊎◌,
  Option, none, some, List, [], ◌∷◌, ◌++◌, Option-cases, length, Text, text_eq, text_eq_iff,
  if◌then◌else◌, arith,
}
use gatus.Clock.{Time}
use gatus.Endpoint.{Endpoint, Result, contains_text, key}
use gatus.Suite.Results
use gatus.Memory.Cache.{Cache, is_some}
use gatus.Memory.Status.{Status, new_status, add_result}
use gatus.Memory.Status.Events.{Tracks, add_result-Tracks}
use gatus.Memory.Status.History.{length-keep_last}
use gatus.Memory.Store.{
  Store, new_store, status_or_new, insert_endpoint_result, keys_to_delete,
  delete_all_endpoint_statuses_not_in_keys,
}

-- What a sound status has: the key that it is stored under, at most the configured results, and
-- events that track the health.
pub record IsSound (max_results max_events : ℕ) (k : Text) (status : Status) : Type 0 where
  pub key_kept : status.key ≡ k
  pub results_bounded : length status.results ≤ max_results
  pub tracks : Tracks max_events status

-- Where a value that is found comes from.
pub found_where :
    {A : Type 0} (b : Bool) {new v : A} {o : Option A}
    → (if b then some new else o) ≡ some v
    → ((b ≡ true) × (new ≡ v)) ⊎ ((b ≡ false) × (o ≡ some v))
found_where true h = inl (refl, ground arith)
found_where false h = inr (refl, h)

new-IsSound :
    (start : Time) (ep : Endpoint) (m e : ℕ) → IsSound m e (key ep) (status_or_new start ep none)
unfolding status_or_new new_status
new-IsSound start ep m e = record {
  key_kept = refl;
  results_bounded = omega arith;
  tracks = record {
    alternates = tt;
    latest = refl;
    bounded = omega arith;
    starts_short = λ h. omega arith;
  };
}

add_result-IsSound :
    (now : Time) (k : Text) (status : Status) (r : Result) (m e : ℕ)
    → 0 < m
    → 0 < e
    → IsSound m e k status
    → IsSound m e k (add_result now status r m e)
unfolding add_result
add_result-IsSound now k status r m e hm he h = record {
  key_kept = h.key_kept;
  results_bounded = length-keep_last m (status.results ++ r ∷ []);
  tracks = add_result-Tracks now status r m e hm he h.tracks;
}

pub contains-keys_to_delete :
    (keys l : List Text) (k : Text)
    → contains_text (keys_to_delete keys l) k ≡ (not (contains_text keys k) && contains_text l k)
unfolding keys_to_delete contains_text
contains-keys_to_delete keys [] k = ground arith
contains-keys_to_delete keys (j ∷ l) k = elim (Bool-cases (text_eq j k)) [
  | inl same ↦
      let e = ap (λ (x : Text). contains_text keys x) ((text_eq_iff j k).0 same) in
      ground (arith, contains-keys_to_delete keys l k, same, e)
  | inr other ↦ ground (arith, contains-keys_to_delete keys l k, other)
]

pub after_delete :
    {V : Type 0} (wanted : Bool) (o : Option V) {gone known : Bool}
    → gone ≡ (not wanted && known)
    → known ≡ is_some o
    → (if gone then none else o) ≡ (if wanted then o else none)
after_delete wanted o p q = ground arith

module _ (E : Cache Status) (S : Cache Results.Status) where
  -- An insertion into an endpoint's status leaves every other key as it was, and under its own key
  -- the result is added to the status that was there, or to a new one if there was none.
  pub get-insert :
      (start now : Time) (s : Store E.C S.C) (ep : Endpoint) (result : Result) (k : Text)
      → let s' = insert_endpoint_result E S start now s ep result in
        E.get s'.endpoint_cache k ≡ (
          if text_eq (key ep) k
          then some (
              add_result now
                (status_or_new start ep (E.get s.endpoint_cache (key ep)))
                result
                s.maximum_number_of_results
                s.maximum_number_of_events)
          else E.get s.endpoint_cache k)
  unfolding insert_endpoint_result
  get-insert start now s ep result k = E.get-put s.endpoint_cache (key ep) k _

  -- Every status of the store is sound.
  pub record IsSoundStore (s : Store E.C S.C) : Type 0 where
    pub results_positive : 0 < s.maximum_number_of_results
    pub events_positive : 0 < s.maximum_number_of_events
    pub at_key :
        (k : Text) (status : Status)
        → E.get s.endpoint_cache k ≡ some status
        → IsSound s.maximum_number_of_results s.maximum_number_of_events k status

  pub new_store-IsSoundStore : (m e : ℕ) → 0 < m → 0 < e → IsSoundStore (new_store E S m e)
  unfolding new_store
  new_store-IsSoundStore m e hm he = record {
    results_positive = hm;
    events_positive = he;
    at_key = λ k status h. cc (E.get-new_cache k);
  }

  added-IsSound :
      (start now : Time) (s : Store E.C S.C) (ep : Endpoint) (result : Result)
      → IsSoundStore s
      → IsSound s.maximum_number_of_results s.maximum_number_of_events (key ep) (
          add_result now
            (status_or_new start ep (E.get s.endpoint_cache (key ep)))
            result
            s.maximum_number_of_results
            s.maximum_number_of_events)
  unfolding status_or_new
  added-IsSound start now s ep result h =
      add_result-IsSound now (key ep) _ result s.maximum_number_of_results
        s.maximum_number_of_events h.results_positive h.events_positive
        (elim (Option-cases (E.get s.endpoint_cache (key ep))) [
          | inl e ↦ rw e (new-IsSound start ep _ _)
          | inr (old, e) ↦ rw e (h.at_key (key ep) old e)
        ])

  -- Inserting a result keeps the store sound: every status is stored under its own key, holds no
  -- more results than configured, and its events alternate, tell the health of its last result and
  -- stay within the configured number (or two).
  pub insert-IsSoundStore :
      (start now : Time) (s : Store E.C S.C) (ep : Endpoint) (result : Result)
      → IsSoundStore s
      → IsSoundStore (insert_endpoint_result E S start now s ep result)
  unfolding insert_endpoint_result
  insert-IsSoundStore start now s ep result h = record {
    results_positive = h.results_positive;
    events_positive = h.events_positive;
    at_key = λ k status e.
        let m = s.maximum_number_of_results in
        let n = s.maximum_number_of_events in
        elim (found_where (text_eq (key ep) k) (sym (get-insert start now s ep result k) ∙ e)) [
          | inl (same, new) ↦
              subst₂ (λ j x. IsSound m n j x) ((text_eq_iff (key ep) k).0 same) new
                (added-IsSound start now s ep result h)
          | inr (other, old) ↦ h.at_key k status old
        ];
  }

  -- Deleting the statuses that are not in the keys leaves exactly those whose keys are given.
  pub get-delete_all_not_in_keys :
      (s : Store E.C S.C) (keys : List Text) (k : Text)
      → E.get (delete_all_endpoint_statuses_not_in_keys E S s keys).0.endpoint_cache k
        ≡ (if contains_text keys k then E.get s.endpoint_cache k else none)
  unfolding delete_all_endpoint_statuses_not_in_keys
  get-delete_all_not_in_keys s keys k =
      E.get-delete_all s.endpoint_cache (keys_to_delete keys (E.keys s.endpoint_cache)) k
      ∙ after_delete (contains_text keys k) (E.get s.endpoint_cache k)
          (contains-keys_to_delete keys (E.keys s.endpoint_cache) k)
          (E.contains-keys s.endpoint_cache k)
