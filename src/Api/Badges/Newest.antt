-- ===== src/Api/Badges/Newest.antt =====
-- The newest result is the one that the badges of health show (api/badge.go).
use gatus.Prelude.{
  ◌≡◌, refl, ap, ◌∙◌, ℕ, suc, ◌-◌, ◌<◌, Option, some, List, [], ◌∷◌, ◌++◌, pos, length,
  length-append, length-drop, take, drop, drop-append_lt, text_eq_refl, half_64, Text,
  if◌then◌else◌, arith,
}
use gatus.Clock.{Time}
use gatus.Endpoint.{Endpoint, Result, key}
use gatus.Suite.Results
use gatus.Memory.Cache.{Cache}
use gatus.Memory.Paging.{page_slice, new_endpoint_status_params, with_results}
use gatus.Memory.Paging.Cover.{page_slice_lem}
use gatus.Memory.Status.{Status, keep_last, add_result, shallow_copy_endpoint_status}
use gatus.Memory.Status.History.{keep_last_lem}
use gatus.Memory.Store.{Store, status_or_new, insert_endpoint_result, get_endpoint_status_by_key}
use gatus.Memory.Store.Endpoints.{get-insert}
use gatus.Api.Badges.{sent, status_up, status_down, serve_health}

drop-take_last :
    {A : Type 0} (zs : List A) (r : A)
    → drop (length zs) (take (suc (length zs)) (zs ++ r ∷ [])) ≡ r ∷ []
drop-take_last [] r = refl
drop-take_last (z ∷ zs) r = drop-take_last zs r

-- The page of one of a list.
newest_page :
    {A : Type 0} (zs : List A) (r : A)
    → suc (length zs) < half_64
    → page_slice (zs ++ r ∷ []) (pos 1) (pos 1) ≡ some (r ∷ [])
newest_page {A} zs r h =
    let one_more = length-append zs (r ∷ []) in
    let start : length (zs ++ r ∷ []) - 1 ≡ length zs = omega (arith, one_more) in
    let end : length (zs ++ r ∷ []) - 0 ≡ suc (length zs) = omega (arith, one_more) in
    page_slice_lem 0 1 (zs ++ r ∷ []) (omega (arith, one_more)) (omega arith) (omega arith)
    ∙ ap some (
        ap (λ n. drop n (take (length (zs ++ r ∷ []) - 0) (zs ++ r ∷ []))) start
        ∙ (ap (λ n. drop (length zs) (take n (zs ++ r ∷ []))) end ∙ drop-take_last zs r))

-- The page of one of what is kept when a result is added.
newest_kept :
    {A : Type 0} (m : ℕ) (xs : List A) (r : A)
    → 0 < m
    → m < half_64
    → page_slice (keep_last m (xs ++ r ∷ [])) (pos 1) (pos 1) ≡ some (r ∷ [])
newest_kept {A} m xs r hm h =
    let over = length (xs ++ r ∷ []) - m in
    let zs : List A = drop over xs in
    ap (λ l. page_slice l (pos 1) (pos 1))
      (keep_last_lem m (xs ++ r ∷ [])
        ∙ drop-append_lt over xs (r ∷ []) (omega (arith, length-append xs (r ∷ []))))
    ∙ newest_page zs r (omega (arith, length-append xs (r ∷ []), length-drop over xs))

module _ (E : Cache Status) (S : Cache Results.Status) (query_unescape : Text → Option Text) where
  get-inserted :
      (start now : Time) (s : Store E.C S.C) (ep : Endpoint) (result : Result)
      → E.get (insert_endpoint_result E S start now s ep result).endpoint_cache (key ep)
        ≡ some (
            add_result now
              (status_or_new start ep (E.get s.endpoint_cache (key ep)))
              result
              s.maximum_number_of_results
              s.maximum_number_of_events)
  get-inserted start now s ep result =
      get-insert E S start now s ep result (key ep) ∙ rw (text_eq_refl (key ep)) refl

  -- Once a result of an endpoint is inserted into a store that keeps at least one result, and at
  -- most as many as an int can hold, a badge of health that is asked for under the endpoint's key
  -- is sent, and shows whether that result is a success. This holds for the badge as a document and
  -- for that in JSON, however the badge is generated from the status.
  pub serve_health-insert :
      {B : Type 0} (generate : Text → B) (start now : Time) (s : Store E.C S.C) (ep : Endpoint)
      (result : Result) (parameter : Text)
      → 0 < s.maximum_number_of_results
      → s.maximum_number_of_results < half_64
      → query_unescape parameter ≡ some (key ep)
      → serve_health E S query_unescape generate
          (insert_endpoint_result E S start now s ep result)
          parameter
        ≡ sent (generate (if result.success then status_up else status_down))
  unfolding serve_health get_endpoint_status_by_key shallow_copy_endpoint_status add_result
      with_results page_slice new_endpoint_status_params
  serve_health-insert generate start now s ep result parameter hm h named =
      rw (serve_health, named, get_endpoint_status_by_key, get-inserted start now s ep result)
        (rw
          (newest_kept s.maximum_number_of_results
            (status_or_new start ep (E.get s.endpoint_cache (key ep))).results result hm h)
          refl)
