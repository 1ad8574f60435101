-- ===== src/Tests/Pages.antt =====
-- A request with a page that is not a number.
use gatus.Prelude.{◌≡◌, Option, none, ℤ, pos, ◌≤ℤ◌, Text, codes, arith}
use gatus.Api.{extract_page_and_page_size_from_request}
use gatus.Api.Pages.{extract_page_bounds}

abbrev no_number : Text → Option ℤ
no_number t = none

extract_page_bounds_example :
    let (page, page_size) =
      extract_page_and_page_size_from_request no_number (codes "x") (codes "y") (pos 100) in
    (pos 1 ≤ℤ page) × (pos 1 ≤ℤ page_size) × (page ≡ pos 1 → page_size ≤ℤ pos 100)
extract_page_bounds_example =
    extract_page_bounds no_number (codes "x") (codes "y") (pos 100) (omega arith)
