-- ===== src/Suite/Results.antt =====
-- The result and the status of a suite: config/suite/{result,suite_status}.go.
use gatus.Prelude.{
  ◌≡◌, ◌↔◌, refl, Bool, true, false, List, [], ◌∷◌, ◌++◌, ltb, length, Text, All, arith,
  if◌then◌else◌,
}
use gatus.Clock.{Time, Duration}
use gatus.Endpoint
use gatus.Gontext.{Fields}

-- Result of config/suite/result.go.
pub record Result : Type 0 where
  pub name : Text
  pub group : Text
  pub success : Bool
  pub timestamp : Time
  pub duration : Duration
  pub endpoint_results : List Endpoint.Result
  pub context : Fields
  pub errors : List Text

-- result.AddError of a suite's result, which keeps duplicates.
unfoldable pub add_error : Result → Text → Result
add_error r err = record r { errors = r.errors ++ err ∷ [] }

unfoldable pub all_passed : List Endpoint.Result → Bool
all_passed [] = true
all_passed (r ∷ rest) = let later = all_passed rest in if r.success then later else false

-- result.CalculateSuccess.
unfoldable pub calculate_success : Result → Result
calculate_success r =
    let passed = record r { success = all_passed r.endpoint_results } in
    if ltb 0 (length passed.errors) then record passed { success = false } else passed

all_passed-All : (l : List Endpoint.Result) → all_passed l ≡ true → All (λ e. e.success ≡ true) l
unfolding all_passed
all_passed-All [] h = tt
all_passed-All (r ∷ rest) h = (ground arith, all_passed-All rest (ground arith))

All-all_passed : (l : List Endpoint.Result) → All (λ e. e.success ≡ true) l → all_passed l ≡ true
unfolding all_passed
All-all_passed [] h = refl
All-all_passed (r ∷ rest) h = ground (arith, All-all_passed rest h.1)

-- A suite's result is a success exactly if every endpoint result is one and there are no errors.
pub calculate_success_iff :
    (r : Result)
    → ((calculate_success r).success ≡ true)
      ↔ (All (λ e. e.success ≡ true) r.endpoint_results × (r.errors ≡ []))
unfolding calculate_success
calculate_success_iff r = (
  λ h. (all_passed-All r.endpoint_results (ground arith), ground arith),
  λ h. ground (arith, All-all_passed r.endpoint_results h.0),
)

-- Status of config/suite/suite_status.go.
pub record Status : Type 0 where
  pub name : Text
  pub group : Text
  pub key : Text
  pub results : List Result
