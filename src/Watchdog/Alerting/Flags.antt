-- ===== src/Watchdog/Alerting/Flags.antt =====
-- How one turn of either loop moves an alert's triggered flag, and what the loops make of it.
use gatus.Prelude.{
  ◌≡◌, Bool, true, false, not, ◌&&◌, ◌||◌, none, some, ℤ, arith, leb_ℤ, text_eq, codes,
  Option-cases, inl, inr,
}
use gatus.Clock.{Time}
use gatus.Alert
use gatus.Alert.{Alert}
use gatus.Endpoint.{Endpoint, Result}
use gatus.Provider.{Config, get_alerting_provider_by_alert_type}
use gatus.Watchdog.Alerting.{Services, trigger_alert, resolve_alert}

-- A provider is configured for the alert's type.
abbrev pub is_configured : {P : Type 0} → Config P → Alert → Bool
is_configured config a = elim (get_alerting_provider_by_alert_type config a.alert_type) [
  | none ↦ false
  | some p ↦ true
]

-- The alert is enabled, its provider configured, and its failures (successes) are enough.
unfoldable pub is_reached : {P : Type 0} → Config P → ℤ → Alert → Bool
is_reached config failures a =
    Alert.is_enabled a && (leb_ℤ a.failure_threshold failures && is_configured config a)

unfoldable pub is_recovered : ℤ → Alert → Bool
is_recovered successes a = Alert.is_enabled a && leb_ℤ a.success_threshold successes

-- Providers that never return an error.
pub record IsReliable {W P : Type 0} (s : Services W P) : Type 0 where
  pub delivers :
      (p : P) (ep : Endpoint) (a : Alert) (r : Result) (resolved : Bool) (w : W)
      → (s.send p ep a r resolved w).0.error ≡ none
  pub no_mock : (w : W) → text_eq (s.getenv (codes "MOCK_ALERT_PROVIDER") w) (codes "true") ≡ false

module _ {W P : Type 0} (s : Services W P) (config : Config P) (result : Result) where
  module _ (last : Time) (with_alert : Alert → Endpoint → Endpoint) (a : Alert) (ep : Endpoint)
      (w : W) where
    -- Whatever the provider answers, a flag is never lowered by a failure,
    pub trigger_alert-keeps :
        a.triggered ≡ true
        → (trigger_alert s config result last with_alert a ep w).alert.triggered ≡ true
    unfolding trigger_alert
    trigger_alert-keeps h = ground arith

    -- and is raised only where the alert is reached.
    pub trigger_alert-needs :
        (trigger_alert s config result last with_alert a ep w).alert.triggered ≡ true
        → (a.triggered || is_reached config ep.number_of_failures_in_a_row a) ≡ true
    unfolding trigger_alert is_reached
    trigger_alert-needs h = ground arith

    -- With providers that deliver it is raised there at once.
    pub trigger_alert-flag :
        IsReliable s
        → (trigger_alert s config result last with_alert a ep w).alert.triggered
          ≡ (a.triggered || is_reached config ep.number_of_failures_in_a_row a)
    unfolding trigger_alert is_reached
    trigger_alert-flag h =
        elim (Option-cases (get_alerting_provider_by_alert_type config a.alert_type)) [
          | inl e ↦ ground arith
          | inr (p, e) ↦ ground (
            arith,
            h.delivers p (with_alert a ep) a result false w,
            h.delivers p (with_alert a ep) a result false (s.now w).1,
            h.no_mock w,
            h.no_mock (s.now w).1,
          )
        ]

  module _ (with_alert : Alert → Endpoint → Endpoint) (a : Alert) (ep : Endpoint) (w : W) where
    -- A success lowers the flag exactly where the successes are enough, whatever the provider or
    -- the store answers.
    pub resolve_alert-flag :
        (resolve_alert s config result with_alert a ep w).alert.triggered
        ≡ (a.triggered && not (is_recovered ep.number_of_successes_in_a_row a))
    unfolding resolve_alert is_recovered
    resolve_alert-flag = ground arith
