-- ===== src/Watchdog/Alerting/Counters.antt =====
-- What one turn of either loop leaves unchanged, and what the loops do to the counters.
use gatus.Prelude.{◌≡◌, arith}
use gatus.Clock.{Time}
use gatus.Alert.{Alert}
use gatus.Endpoint.{Endpoint, Result}
use gatus.Provider.{Config}
use gatus.Watchdog.Alerting.{Services, trigger_alert, resolve_alert}

-- Only the time of the last reminder may change.
abbrev pub SameButReminder : Endpoint → Endpoint → Type 0
SameButReminder ep ep' = ep' ≡ record ep { last_reminder_sent = ep'.last_reminder_sent }

-- Only the alert's state may change, not its configuration.
abbrev pub SameConfig : Alert → Alert → Type 0
SameConfig a a' = a' ≡ record a { triggered = a'.triggered; resolve_key = a'.resolve_key }

module _ {W P : Type 0} (s : Services W P) (config : Config P) (result : Result) where
  pub trigger_alert-SameConfig :
      (last : Time) (with_alert : Alert → Endpoint → Endpoint) (a : Alert) (ep : Endpoint) (w : W)
      → SameConfig a (trigger_alert s config result last with_alert a ep w).alert
  unfolding trigger_alert
  trigger_alert-SameConfig last with_alert a ep w = ground arith

  pub trigger_alert-endpoint :
      (last : Time) (with_alert : Alert → Endpoint → Endpoint) (a : Alert) (ep : Endpoint) (w : W)
      → SameButReminder ep (trigger_alert s config result last with_alert a ep w).endpoint
  unfolding trigger_alert
  trigger_alert-endpoint last with_alert a ep w = ground arith

  pub resolve_alert-SameConfig :
      (with_alert : Alert → Endpoint → Endpoint) (a : Alert) (ep : Endpoint) (w : W)
      → SameConfig a (resolve_alert s config result with_alert a ep w).alert
  unfolding resolve_alert
  resolve_alert-SameConfig with_alert a ep w = ground arith

  pub resolve_alert-endpoint :
      (with_alert : Alert → Endpoint → Endpoint) (a : Alert) (ep : Endpoint) (w : W)
      → (resolve_alert s config result with_alert a ep w).endpoint ≡ ep
  unfolding resolve_alert
  resolve_alert-endpoint with_alert a ep w = ground arith
