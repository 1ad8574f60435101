-- ===== src/Memory/Paging.antt =====
-- Paging: getStartAndEndIndex (storage/store/memory/util.go) and the parameters of
-- storage/store/common/paging. An int keeps its 64 bits.
pub mod Bounds
pub mod Cover
use gatus.Prelude.{
  ℕ, ◌-◌, Bool, true, false, ◌&&◌, ◌||◌, Option, none, some, List, ℤ, pos, negsuc, ltb_ℤ, leb_ℤ,
  mul_64, sub_64, length, take, drop, ltb, leb, if◌then◌else◌, neg_part, pos_part,
}

-- EndpointStatusParams.
pub record EndpointStatusParams : Type 0 where
  pub events_page : ℤ
  pub events_page_size : ℤ
  pub results_page : ℤ
  pub results_page_size : ℤ
  pub include_results_count : Bool

-- NewEndpointStatusParams and its With methods.
unfoldable pub new_endpoint_status_params : EndpointStatusParams
new_endpoint_status_params = record {
  events_page = pos 0;
  events_page_size = pos 0;
  results_page = pos 0;
  results_page_size = pos 0;
  include_results_count = false;
}

unfoldable pub with_events : ℤ → ℤ → EndpointStatusParams → EndpointStatusParams
with_events page page_size params = record params {
  events_page = page;
  events_page_size = page_size;
}

unfoldable pub with_results : ℤ → ℤ → EndpointStatusParams → EndpointStatusParams
with_results page page_size params = record params {
  results_page = page;
  results_page_size = page_size;
}

unfoldable pub with_results_count : EndpointStatusParams → EndpointStatusParams
with_results_count params = record params { include_results_count = true }

-- SuiteStatusParams, NewSuiteStatusParams and WithPagination.
pub record SuiteStatusParams : Type 0 where
  pub page : ℤ
  pub page_size : ℤ

unfoldable pub new_suite_status_params : SuiteStatusParams
new_suite_status_params = record { page = pos 1; page_size = pos 20 }

unfoldable pub with_pagination : ℤ → ℤ → SuiteStatusParams → SuiteStatusParams
with_pagination page page_size params = record params { page = page; page_size = page_size }

-- getStartAndEndIndex.
unfoldable pub get_start_and_end_index : ℕ → ℤ → ℤ → ℤ × ℤ
get_start_and_end_index number_of_results page page_size =
    if ltb_ℤ page (pos 1) || ltb_ℤ page_size (pos 0)
    then (negsuc 0, negsuc 0)
    else (let start = sub_64 (pos number_of_results) (mul_64 page page_size) in
        let end = sub_64 (pos number_of_results) (mul_64 (sub_64 page (pos 1)) page_size) in
        (
          if ltb_ℤ (pos number_of_results) start
              then negsuc 0
              else if ltb_ℤ start (pos 0)
              then pos 0
              else start,
          if ltb_ℤ (pos number_of_results) end then pos number_of_results else end,
        ))

module _ {ℓ} {A : Type ℓ} where
  -- xs[start:end]; `none` is a panic.
  unfoldable pub slice : List A → ℤ → ℤ → Option (List A)
  slice xs (pos start) (pos end) =
      if leb start end && leb end (length xs) then some (drop start (take end xs)) else none
  slice xs start end = none

  -- The slice for a page, as both shallow copies take it: empty where an index is negative.
  unfoldable pub page_slice : List A → ℤ → ℤ → Option (List A)
  unfolding get_start_and_end_index slice
  page_slice xs page page_size =
      let (start, end) = get_start_and_end_index (length xs) page page_size in
      if ltb_ℤ start (pos 0) || ltb_ℤ end (pos 0) then some List.[] else slice xs start end
