-- ===== src/Api/Pages.antt =====
-- The bounds of the page that a request asks for.
use gatus.Prelude.{◌≡◌, Option, ℤ, pos, ◌≤ℤ◌, Text, arith, eq_ℤ_iff}
use gatus.Api.{read_page, extract_page_and_page_size_from_request}

module _ (atoi : Text → Option ℤ) where
  read_page_positive : (parameter : Text) → pos 1 ≤ℤ read_page atoi parameter
  unfolding read_page
  read_page_positive parameter = ground arith

  -- With a maximum of at least the default size, every request, also one with parameters
  -- that are not numbers, gets a page and a page size of at least 1, and a first page of at most
  -- the maximum.
  pub extract_page_bounds :
      (page_parameter page_size_parameter : Text) (maximum : ℤ)
      → pos 50 ≤ℤ maximum
      → let (page, page_size) =
          extract_page_and_page_size_from_request atoi page_parameter page_size_parameter maximum in
        (pos 1 ≤ℤ page) × (pos 1 ≤ℤ page_size) × (page ≡ pos 1 → page_size ≤ℤ maximum)
  unfolding extract_page_and_page_size_from_request
  extract_page_bounds p q maximum h =
      ground (arith, read_page_positive p, eq_ℤ_iff (read_page atoi p) (pos 1))
