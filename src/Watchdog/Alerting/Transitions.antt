-- ===== src/Watchdog/Alerting/Transitions.antt =====
-- HandleAlerting on one result: what a failure and a success do to the endpoint and its alerts.
use gatus.Prelude.{
  ◌≡◌, refl, sym, ap, subst, Bool, true, false, not, ◌&&◌, ◌||◌, some, ℤ, pos, add_64, All2,
  if◌then◌else◌,
}
use gatus.Clock.{Time}
use gatus.Alert.{Alert}
use gatus.Endpoint.{Endpoint, Result}
use gatus.Provider.{Config}
use gatus.Watchdog.Alerting.{
  Services, handle_alerting, handle_alerts_to_trigger, handle_alerts_to_resolve, trigger_alert,
  resolve_alert,
}
use gatus.Watchdog.Alerting.Counters.{
  SameConfig, trigger_alert-SameConfig, resolve_alert-SameConfig,
}
use gatus.Watchdog.Alerting.Flags.{
  IsReliable, is_reached, is_recovered, trigger_alert-keeps, trigger_alert-needs,
  trigger_alert-flag, resolve_alert-flag,
}
use gatus.Watchdog.Alerting.Loops.{handle_alerts_to_trigger-All2, handle_alerts_to_resolve-All2}

-- A failure, whatever the provider answers.
pub record MayFire {P : Type 0} (config : Config P) (failures : ℤ) (a a' : Alert) : Type 0 where
  pub config_kept : SameConfig a a'
  pub never_lowered : a.triggered ≡ true → a'.triggered ≡ true
  pub only_reached : a'.triggered ≡ true → (a.triggered || is_reached config failures a) ≡ true

-- A failure, with providers that deliver.
pub record Fires {P : Type 0} (config : Config P) (failures : ℤ) (a a' : Alert) : Type 0 where
  pub config_kept : SameConfig a a'
  pub flag : a'.triggered ≡ (a.triggered || is_reached config failures a)

-- A success.
pub record Recovers (successes : ℤ) (a a' : Alert) : Type 0 where
  pub config_kept : SameConfig a a'
  pub flag : a'.triggered ≡ (a.triggered && not (is_recovered successes a))

-- The endpoint after a failure: only these fields can differ.
abbrev pub AfterFailure : Endpoint → Endpoint → Type 0
AfterFailure ep ep' = ep' ≡ record ep {
  alerts = ep'.alerts;
  number_of_failures_in_a_row = add_64 ep.number_of_failures_in_a_row (pos 1);
  number_of_successes_in_a_row = pos 0;
  last_reminder_sent = ep'.last_reminder_sent;
}

abbrev pub AfterSuccess : Endpoint → Endpoint → Type 0
AfterSuccess ep ep' = ep' ≡ record ep {
  alerts = ep'.alerts;
  number_of_failures_in_a_row = pos 0;
  number_of_successes_in_a_row = add_64 ep.number_of_successes_in_a_row (pos 1);
}

module _ {W P : Type 0} (s : Services W P) (config : Config P) (result : Result) (ep : Endpoint)
    (w : W) where
  abbrev after : Endpoint
  after = (handle_alerting s (some config) result ep w).0

  -- The branch that the result takes.
  pub on_failure :
      result.success ≡ false
      → handle_alerts_to_trigger s config result ep w ≡ handle_alerting s (some config) result ep w
  unfolding handle_alerting
  on_failure h =
      ap
        (λ (b : Bool).
          if b
          then handle_alerts_to_resolve s config result ep w
          else handle_alerts_to_trigger s config result ep w)
        (sym h)

  pub on_success :
      result.success ≡ true
      → handle_alerts_to_resolve s config result ep w ≡ handle_alerting s (some config) result ep w
  unfolding handle_alerting
  on_success h =
      ap
        (λ (b : Bool).
          if b
          then handle_alerts_to_resolve s config result ep w
          else handle_alerts_to_trigger s config result ep w)
        (sym h)

  MayFire-turn :
      {failures : ℤ} (last : Time) (with_alert : Alert → Endpoint → Endpoint) (a : Alert)
      (e : Endpoint) (v : W)
      → e.number_of_failures_in_a_row ≡ failures
      → MayFire config failures a (trigger_alert s config result last with_alert a e v).alert
  MayFire-turn last with_alert a e v h =
      subst (λ n. MayFire config n a (trigger_alert s config result last with_alert a e v).alert) h
        (record {
          config_kept = trigger_alert-SameConfig s config result last with_alert a e v;
          never_lowered = trigger_alert-keeps s config result last with_alert a e v;
          only_reached = trigger_alert-needs s config result last with_alert a e v;
        })

  Fires-turn :
      {failures : ℤ}
      → IsReliable s
      → (last : Time) (with_alert : Alert → Endpoint → Endpoint) (a : Alert) (e : Endpoint) (v : W)
      → e.number_of_failures_in_a_row ≡ failures
      → Fires config failures a (trigger_alert s config result last with_alert a e v).alert
  Fires-turn r last with_alert a e v h =
      subst (λ n. Fires config n a (trigger_alert s config result last with_alert a e v).alert) h
        (record {
          config_kept = trigger_alert-SameConfig s config result last with_alert a e v;
          flag = trigger_alert-flag s config result last with_alert a e v r;
        })

  Recovers-turn :
      {successes : ℤ} (with_alert : Alert → Endpoint → Endpoint) (a : Alert) (e : Endpoint) (v : W)
      → e.number_of_successes_in_a_row ≡ successes
      → Recovers successes a (resolve_alert s config result with_alert a e v).alert
  Recovers-turn with_alert a e v h =
      subst (λ n. Recovers n a (resolve_alert s config result with_alert a e v).alert) h
        (record {
          config_kept = resolve_alert-SameConfig s config result with_alert a e v;
          flag = resolve_alert-flag s config result with_alert a e v;
        })

  -- On a failing result the failures in a row go up by one and the successes to 0, and nothing
  -- else of the endpoint changes but its alerts and the time of the last reminder. No alert's
  -- configuration changes; no triggered flag is lowered, and a flag is raised only for an enabled
  -- alert that has a configured provider and whose failure threshold has been reached. This holds
  -- whatever the providers, the store, the clock and the environment answer.
  pub failure_lem :
      result.success ≡ false
      → AfterFailure ep after
        × All2
            (MayFire config (add_64 ep.number_of_failures_in_a_row (pos 1)))
            ep.alerts
            after.alerts
  failure_lem h =
      let (alerts, same) =
        handle_alerts_to_trigger-All2 s config result (MayFire config _) _ MayFire-turn ep w refl in
      subst
        (λ (out : Endpoint × W).
          AfterFailure ep out.0
          × All2 (MayFire config (add_64 ep.number_of_failures_in_a_row (pos 1))) ep.alerts
              out.0.alerts)
        (on_failure h) (same, alerts)

  -- With providers that deliver, an alert's flag after a failing result is up exactly if it was up
  -- before or the alert is enabled, has a configured provider and has reached its threshold.
  pub failure-reliable :
      result.success ≡ false
      → IsReliable s
      → AfterFailure ep after
        × All2 (Fires config (add_64 ep.number_of_failures_in_a_row (pos 1))) ep.alerts after.alerts
  failure-reliable h r =
      let (alerts, same) =
        handle_alerts_to_trigger-All2 s config result (Fires config _) _ (Fires-turn r) ep w refl in
      subst
        (λ (out : Endpoint × W).
          AfterFailure ep out.0
          × All2 (Fires config (add_64 ep.number_of_failures_in_a_row (pos 1))) ep.alerts
              out.0.alerts)
        (on_failure h) (same, alerts)

  -- On a passing result the successes in a row go up by one and the failures to 0, and an alert's
  -- flag is up afterwards exactly if it was up before and the alert is disabled or its success
  -- threshold not yet reached: an error of the provider or of the store does not keep it up.
  pub success_lem :
      result.success ≡ true
      → AfterSuccess ep after
        × All2 (Recovers (add_64 ep.number_of_successes_in_a_row (pos 1))) ep.alerts after.alerts
  success_lem h =
      let (alerts, same) =
        handle_alerts_to_resolve-All2 s config result (Recovers _) _ Recovers-turn ep w refl in
      subst
        (λ (out : Endpoint × W).
          AfterSuccess ep out.0
          × All2 (Recovers (add_64 ep.number_of_successes_in_a_row (pos 1))) ep.alerts out.0.alerts)
        (on_success h) (same, alerts)
