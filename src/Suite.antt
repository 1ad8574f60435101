-- ===== src/Suite.antt =====
-- Suites of endpoints: Suite, with its accessors, of config/suite/suite.go.
pub mod Results
pub mod Execution
pub mod Extraction
pub mod Order
pub mod Storing
pub mod Alignment
pub mod Validation
use gatus.Prelude.{Bool, true, false, Option, none, some, List, Text}
use gatus.Clock.{Duration}
use gatus.Endpoint.{Endpoint}
use gatus.Gontext.{Fields}
use gatus.Key.{convert_group_and_name_to_key}

-- Suite; an initial context that is nil is `none`.
pub record Suite : Type 0 where
  pub name : Text
  pub group : Text
  pub enabled : Option Bool
  pub interval : Duration
  pub timeout : Duration
  pub initial_context : Option Fields
  pub endpoints : List Endpoint

-- suite.IsEnabled.
unfoldable pub is_enabled : Suite → Bool
is_enabled s = elim s.enabled [ none ↦ true | some enabled ↦ enabled ]

-- suite.Key.
unfoldable pub suite_key : Suite → Text
suite_key s = convert_group_and_name_to_key s.group s.name
