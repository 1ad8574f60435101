-- ===== src/Watchdog/Monitoring.antt =====
-- One round of the monitoring: executeEndpoint of watchdog/endpoint.go,
-- executeExternalEndpointHeartbeat of watchdog/external_endpoint.go and executeSuite of
-- watchdog/suite.go. The semaphore, the connectivity checker, the evaluation of an endpoint, the
-- execution of a suite, the metrics, the store and the maintenance windows are parameters over a
-- world of which nothing is assumed; the tickers and log lines are not modelled.
pub mod Rounds
pub mod Suites
use gatus.Prelude.{
  ℕ, ◌+◌, ◌-◌, Bool, true, false, not, ◌&&◌, ◌||◌, Option, none, some, List, [], ◌∷◌, ◌++◌, ℤ, pos,
  negsuc, Text, codes, if◌then◌else◌,
}
use gatus.Clock.{Time, Duration}
use gatus.Endpoint.{
  Endpoint, Result, empty_result, ExternalEndpoint, to_endpoint, key, external_key,
}
use gatus.Provider.{Config}
use gatus.Suite.{Suite}
use gatus.Suite.Results
use gatus.Watchdog.Alerting.{Services, handle_alerting}

-- What a round uses of the configuration and of the other parts, for a type of windows.
pub record Site (W P Window : Type 0) : Type 0 where
  -- cfg.Alerting
  pub alerting : Option (Config P)
  -- cfg.Metrics
  pub metrics : Bool
  pub services : Services W P
  -- whether the semaphore is acquired; releasing it does nothing else
  pub acquire : W → Bool × W
  -- cfg.Connectivity.Checker.IsConnected, if there is a checker
  pub is_connected : Option (W → Bool × W)
  -- EvaluateHealth
  pub evaluate_health : Endpoint → W → Result × W
  -- Execute
  pub execute : Suite → W → Results.Result × W
  pub publish_endpoint : Endpoint → Result → W → W
  pub publish_suite : Suite → Results.Result → W → W
  -- UpdateEndpointStatus and UpdateSuiteStatus, which only log an error
  pub update_endpoint_status : Endpoint → Result → W → W
  pub update_suite_status : Suite → Results.Result → W → W
  -- the store's HasEndpointStatusNewerThan; `none` is an error
  pub has_newer : Text → Time → W → Option Bool × W
  pub show_duration : Duration → Text
  -- cfg.Maintenance, and an endpoint's MaintenanceWindows by its key
  pub maintenance : Window
  pub windows : Text → List Window
  pub is_under_maintenance : Window → W → Bool × W

-- t.Add(-d).
unfoldable pub earlier : Time → Duration → Time
earlier t (pos n) = t - n
earlier t (negsuc n) = t + (n + 1)

module _ {W P Window : Type 0} (site : Site W P Window) where
  -- Whether a round goes on: the semaphore, then the connectivity.
  unfoldable pub may_run : W → Bool × W
  may_run w =
      let (acquired, w') = site.acquire w in
      if not acquired
      then (false, w')
      else elim site.is_connected [ none ↦ (true, w') | some check ↦ check w' ]

  -- The loop over an endpoint's windows, which looks at all of them.
  unfoldable pub any_window : List Window → W → Bool × W
  any_window [] w = (false, w)
  any_window (window ∷ rest) w =
      let (here, w') = site.is_under_maintenance window w in
      let (there, w'') = any_window rest w' in (here || there, w'')

  -- !cfg.Maintenance.IsUnderMaintenance() && !inEndpointMaintenanceWindow, the windows first.
  unfoldable pub is_quiet : Text → W → Bool × W
  unfolding any_window
  is_quiet k w =
      let (in_window, w') = any_window (site.windows k) w in
      let (under, w'') = site.is_under_maintenance site.maintenance w' in (under || in_window, w'')

  -- executeEndpoint.
  unfoldable pub execute_endpoint : Endpoint → W → Endpoint × W
  unfolding may_run is_quiet
  execute_endpoint ep w =
      let (go, w1) = may_run w in
      if not go
      then (ep, w1)
      else (let (result, w2) = site.evaluate_health ep w1 in
          let w3 = (if site.metrics then site.publish_endpoint ep result w2 else w2) in
          let w4 = site.update_endpoint_status ep result w3 in
          let (quiet, w5) = is_quiet (key ep) w4 in
          if quiet then (ep, w5) else handle_alerting site.services site.alerting result ep w5)

  -- The result of a missed heartbeat.
  unfoldable pub missed_heartbeat : Time → Duration → Result
  missed_heartbeat t interval = record empty_result {
    timestamp = t;
    errors = (codes "heartbeat: no update received within " ++ site.show_duration interval) ∷ [];
  }

  -- HandleAlerting for a converted endpoint, the counters copied back; the alerts are shared.
  unfoldable pub alert_external : ExternalEndpoint → Result → W → ExternalEndpoint × W
  alert_external ee result w =
      let (ep, w') = handle_alerting site.services site.alerting result (to_endpoint ee) w in
      (
        record ee {
          alerts = ep.alerts;
          number_of_successes_in_a_row = ep.number_of_successes_in_a_row;
          number_of_failures_in_a_row = ep.number_of_failures_in_a_row;
        },
        w',
      )

  -- The part of a heartbeat's round after a missed heartbeat.
  unfoldable pub note_missed : ExternalEndpoint → W → ExternalEndpoint × W
  unfolding alert_external is_quiet
  note_missed ee w =
      let (t, w1) = site.services.now w in
      let result = missed_heartbeat t ee.heartbeat_interval in
      let w2 = (if site.metrics then site.publish_endpoint (to_endpoint ee) result w1 else w1) in
      let w3 = site.update_endpoint_status (to_endpoint ee) result w2 in
      let (quiet, w4) = is_quiet (external_key ee) w3 in
      if quiet then (ee, w4) else alert_external ee result w4

  -- The rest of a heartbeat's round, from the question to the store on.
  unfoldable pub check_heartbeat : ExternalEndpoint → W → ExternalEndpoint × W
  unfolding note_missed
  check_heartbeat ee w =
      let (t, w1) = site.services.now w in
      let (newer, w2) = site.has_newer (external_key ee) (earlier t ee.heartbeat_interval) w1 in
      elim newer [
        | none ↦ (ee, w2)
        | some received ↦ if received then (ee, w2) else note_missed ee w2
      ]

  -- executeExternalEndpointHeartbeat.
  unfoldable pub execute_external_endpoint_heartbeat : ExternalEndpoint → W → ExternalEndpoint × W
  unfolding check_heartbeat may_run
  execute_external_endpoint_heartbeat ee w =
      let (go, w') = may_run w in if not go then (ee, w') else check_heartbeat ee w'

  -- The loop over a suite endpoint's windows, which stops at the first.
  unfoldable pub first_window : List Window → W → Bool × W
  first_window [] w = (false, w)
  first_window (window ∷ rest) w =
      let (here, w') = site.is_under_maintenance window w in
      let later = first_window rest w' in if here then (true, w') else later

  -- The body of executeSuite's loop for an endpoint and the result at its index.
  unfoldable pub alert_for_suite : Config P → Endpoint → Result → W → Endpoint × W
  unfolding first_window
  alert_for_suite config ep result w =
      let (under, w1) = site.is_under_maintenance site.maintenance w in
      if under
      then (ep, w1)
      else (let (in_window, w2) = first_window (site.windows (key ep)) w1 in
          if in_window then (ep, w2) else handle_alerting site.services (some config) result ep w2)

  -- The body with cfg.Alerting, which may be nil.
  unfoldable pub alert_if_configured : Endpoint → Result → W → Endpoint × W
  unfolding alert_for_suite
  alert_if_configured ep result w = elim site.alerting [
    | none ↦ (ep, w)
    | some config ↦ alert_for_suite config ep result w
  ]

  -- The loop of executeSuite: the i-th endpoint with the i-th result, while there are results.
  unfoldable pub alert_each : List Endpoint → List Result → W → List Endpoint × W
  alert_each [] results w = ([], w)
  alert_each (ep ∷ eps) [] w = (ep ∷ eps, w)
  alert_each (ep ∷ eps) (result ∷ results) w =
      let (ep', w') = alert_if_configured ep result w in
      let (eps', w'') = alert_each eps results w' in (ep' ∷ eps', w'')

  -- executeSuite.
  unfoldable pub execute_suite : Suite → W → Suite × W
  unfolding may_run
  execute_suite s w =
      let (go, w1) = may_run w in
      if not go
      then (s, w1)
      else (let (result, w2) = site.execute s w1 in
          let w3 = (if site.metrics then site.publish_suite s result w2 else w2) in
          let w4 = site.update_suite_status s result w3 in
          let (eps, w5) = alert_each s.endpoints result.endpoint_results w4 in
          (record s { endpoints = eps }, w5))
