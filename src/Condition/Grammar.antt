-- ===== src/Condition/Grammar.antt =====
-- What evaluate of config/endpoint/condition.go does with a condition of the documented form
-- <VALUE> <COMPARATOR> <VALUE>.
use gatus.Prelude.{◌≢◌, Bool, Option, none, some, All, Text}
use gatus.Placeholder.{Resolution, resolved}
use gatus.Condition.{Library}
use gatus.Condition.Evaluation.{Comparator, compare_values}

-- A text without spaces.
abbrev pub IsWord : Text → Type 0
IsWord s = All (λ c. c ≢ b' ') s

-- What a comparison is to return for its two resolved values.
abbrev pub meaning : Library → Comparator → Resolution → Resolution → Option Bool
meaning go c (resolved u) (resolved v) = some (compare_values go c u v)
meaning go c r s = none
