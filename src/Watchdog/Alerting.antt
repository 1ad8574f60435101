-- ===== src/Watchdog/Alerting.antt =====
-- HandleAlerting: watchdog/alerting.go. The outside world (the clock, the environment variables,
-- the providers and the store) is a parameter; the alerts, which the source reaches by pointers of
-- the endpoint, are the endpoint's list, and every call is given the list as it stands then.
-- Log lines are not modelled.
pub mod Counters
pub mod Flags
pub mod Loops
pub mod Transitions
pub mod Streaks
pub mod Incidents
pub mod Notices
pub mod External
use gatus.Prelude.{
  ℕ, Bool, true, false, not, ◌&&◌, ◌||◌, Option, none, some, List, [], ◌∷◌, ◌++◌, ℤ, pos, ltb_ℤ,
  leb_ℤ, add_64, Text, text_eq, codes, if◌then◌else◌,
}
use gatus.Clock.{Time, Duration, sub}
use gatus.Alert.{Alert, is_sending_on_resolved}
use gatus.Alert
use gatus.Endpoint.{Endpoint, Result}
use gatus.Provider.{Config, get_alerting_provider_by_alert_type}

-- What provider.Send leaves: its error and the alert's resolve key, which it may set.
pub record Sent : Type 0 where
  pub error : Option Text
  pub resolve_key : Text

-- time.Now, os.Getenv, provider.Send, and the store's UpsertTriggeredEndpointAlert and
-- DeleteTriggeredEndpointAlert, over a world of which nothing is assumed.
pub record Services (W P : Type 0) : Type 0 where
  pub now : W → Time × W
  pub getenv : Text → W → Text
  pub send : P → Endpoint → Alert → Result → Bool → W → Sent × W
  pub upsert : Endpoint → Alert → W → Option Text × W
  pub delete : Endpoint → Alert → W → Option Text × W

-- What one turn of a loop leaves: the alert, the endpoint's other fields, and the world.
pub record Turn (W : Type 0) : Type 0 where
  pub alert : Alert
  pub endpoint : Endpoint
  pub world : W

module _ {W P : Type 0} (s : Services W P) (config : Config P) (result : Result) where
  -- sendReminder; the clock is read only behind the two other tests.
  unfoldable pub reminder_due : Time → Alert → W → Bool × W
  reminder_due last_reminder_sent a w =
      if a.triggered && ltb_ℤ (pos 0) a.minimum_reminder_interval
      then (let (t, w') = s.now w in
          (leb_ℤ a.minimum_reminder_interval (sub t last_reminder_sent), w'))
      else (false, w)

  -- The call of the provider, or its replacement in tests.
  unfoldable pub deliver : P → Endpoint → Alert → W → Sent × W
  deliver p ep a w =
      if text_eq (s.getenv (codes "MOCK_ALERT_PROVIDER") w) (codes "true")
      then (
        record {
          error =
              if text_eq (s.getenv (codes "MOCK_ALERT_PROVIDER_ERROR") w) (codes "true")
              then some (codes "error")
              else none;
          resolve_key = a.resolve_key;
        },
        w,
      )
      else s.send p ep a result false w

  -- After the call: an error leaves the alert for the next failure to retry.
  unfoldable pub note_sent :
      Bool → (Alert → Endpoint → Endpoint) → Alert → Endpoint → Sent × W → Turn W
  note_sent send_initial_alert with_alert a ep (sent, w) =
      let a' = record a { resolve_key = sent.resolve_key } in
      elim sent.error [
        | some err ↦ record { alert = a'; endpoint = ep; world = w }
        | none ↦
            (let a'' = (if send_initial_alert then record a' { triggered = true } else a') in
              let (t, w') = s.now w in
              let ep' = record ep { last_reminder_sent = t } in
              let (err, w'') = s.upsert (with_alert a'' ep') a'' w' in
              record { alert = a''; endpoint = ep'; world = w'' })
      ]

  -- The provider for the alert's type, if there is one, is called.
  unfoldable pub notify : Bool → (Alert → Endpoint → Endpoint) → Alert → Endpoint → W → Turn W
  unfolding deliver note_sent
  notify send_initial_alert with_alert a ep w =
      elim (get_alerting_provider_by_alert_type config a.alert_type) [
        | none ↦ record { alert = a; endpoint = ep; world = w }
        | some p ↦ note_sent send_initial_alert with_alert a ep (deliver p (with_alert a ep) a w)
      ]

  -- The body of the loop of handleAlertsToTrigger.
  unfoldable pub trigger_alert :
      Time → (Alert → Endpoint → Endpoint) → Alert → Endpoint → W → Turn W
  unfolding reminder_due notify
  trigger_alert last_reminder_sent with_alert a ep w =
      if not (Alert.is_enabled a) || ltb_ℤ ep.number_of_failures_in_a_row a.failure_threshold
      then record { alert = a; endpoint = ep; world = w }
      else (let send_initial_alert = not a.triggered in
          let (send_reminder, w') = reminder_due last_reminder_sent a w in
          if not send_initial_alert && not send_reminder
          then record { alert = a; endpoint = ep; world = w' }
          else notify send_initial_alert with_alert a ep w')

  -- The loop over ep.Alerts; `done` are the alerts behind it.
  unfoldable pub trigger_alerts : Time → List Alert → List Alert → Endpoint → W → Endpoint × W
  trigger_alerts last_reminder_sent done [] ep w = (record ep { alerts = done }, w)
  trigger_alerts last_reminder_sent done (a ∷ rest) ep w =
      let turn =
        trigger_alert last_reminder_sent (λ a' ep'. record ep' { alerts = done ++ a' ∷ rest }) a ep
          w in
      trigger_alerts last_reminder_sent (done ++ turn.alert ∷ []) rest turn.endpoint turn.world

  unfoldable pub handle_alerts_to_trigger : Endpoint → W → Endpoint × W
  handle_alerts_to_trigger ep w =
      let ep' = record ep {
        number_of_successes_in_a_row = pos 0;
        number_of_failures_in_a_row = add_64 ep.number_of_failures_in_a_row (pos 1);
      } in
      trigger_alerts ep'.last_reminder_sent [] ep'.alerts ep' w

  -- The end of the loop's body of handleAlertsToResolve: the alert is no longer triggered.
  unfoldable pub notify_resolved : (Alert → Endpoint → Endpoint) → Alert → Endpoint → W → Turn W
  notify_resolved with_alert a ep w =
      if not (is_sending_on_resolved a)
      then record { alert = a; endpoint = ep; world = w }
      else elim (get_alerting_provider_by_alert_type config a.alert_type) [
        | none ↦ record { alert = a; endpoint = ep; world = w }
        | some p ↦
            (let (sent, w') = s.send p (with_alert a ep) a result true w in
              record {
                alert = record a { resolve_key = sent.resolve_key };
                endpoint = ep;
                world = w';
              })
      ]

  -- The body of the loop of handleAlertsToResolve.
  unfoldable pub resolve_alert : (Alert → Endpoint → Endpoint) → Alert → Endpoint → W → Turn W
  unfolding notify_resolved
  resolve_alert with_alert a ep w =
      let below = ltb_ℤ ep.number_of_successes_in_a_row a.success_threshold in
      let (err, w') =
        (if below && (Alert.is_enabled a && a.triggered)
          then s.upsert (with_alert a ep) a w
          else (none, w)) in
      if not (Alert.is_enabled a) || (not a.triggered || below)
      then record { alert = a; endpoint = ep; world = w' }
      else (let a' = record a { triggered = false } in
          let (err', w'') = s.delete (with_alert a' ep) a' w' in
          notify_resolved with_alert a' ep w'')

  unfoldable pub resolve_alerts : List Alert → List Alert → Endpoint → W → Endpoint × W
  resolve_alerts done [] ep w = (record ep { alerts = done }, w)
  resolve_alerts done (a ∷ rest) ep w =
      let turn = resolve_alert (λ a' ep'. record ep' { alerts = done ++ a' ∷ rest }) a ep w in
      resolve_alerts (done ++ turn.alert ∷ []) rest turn.endpoint turn.world

  unfoldable pub handle_alerts_to_resolve : Endpoint → W → Endpoint × W
  handle_alerts_to_resolve ep w =
      let ep' = record ep {
        number_of_successes_in_a_row = add_64 ep.number_of_successes_in_a_row (pos 1);
      } in
      let (ep'', w') = resolve_alerts [] ep'.alerts ep' w in
      (record ep'' { number_of_failures_in_a_row = pos 0 }, w')

-- HandleAlerting; `none` is a nil alerting configuration.
unfoldable pub handle_alerting :
    {W P : Type 0} → Services W P → Option (Config P) → Result → Endpoint → W → Endpoint × W
handle_alerting s none result ep w = (ep, w)
handle_alerting s (some config) result ep w =
    if result.success
    then handle_alerts_to_resolve s config result ep w
    else handle_alerts_to_trigger s config result ep w
