-- ===== src/Api.antt =====
-- The page that a request asks for: extractPageAndPageSizeFromRequest of api/util.go. The query
-- parameters are texts, empty where they are missing; strconv.Atoi is a parameter, `none` an error.
pub mod Pages
pub mod External
pub mod Badges
pub mod Authorization
use gatus.Prelude.{
  ℕ, Bool, true, false, ◌&&◌, Option, none, some, List, [], ◌∷◌, ℤ, pos, ltb_ℤ, eq_ℤ, length, ◌==◌,
  Text, if◌then◌else◌,
}

abbrev pub default_page : ℤ
default_page = pos 1

abbrev pub default_page_size : ℤ
default_page_size = pos 50

module _ (atoi : Text → Option ℤ) where
  unfoldable pub read_page : Text → ℤ
  read_page parameter = if length parameter == 0 then default_page else elim (atoi parameter) [
    | none ↦ default_page
    | some page ↦ if ltb_ℤ page (pos 1) then default_page else page
  ]

  unfoldable pub read_page_size : Text → ℤ
  read_page_size parameter =
      if length parameter == 0
      then default_page_size
      else elim (atoi parameter) [ none ↦ default_page_size | some page_size ↦ page_size ]

  -- extractPageAndPageSizeFromRequest.
  unfoldable pub extract_page_and_page_size_from_request : Text → Text → ℤ → ℤ × ℤ
  extract_page_and_page_size_from_request page_parameter page_size_parameter maximum =
      let page = read_page page_parameter in
      let page_size = read_page_size page_size_parameter in
      if eq_ℤ page (pos 1) && ltb_ℤ maximum page_size
      then (page, maximum)
      else if ltb_ℤ page_size (pos 1)
      then (page, default_page_size)
      else (page, page_size)
