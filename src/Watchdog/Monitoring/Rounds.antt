-- ===== src/Watchdog/Monitoring/Rounds.antt =====
-- What a heartbeat's round changes of an external endpoint.
use gatus.Prelude.{
  ◌≡◌, ◌⊎◌, refl, ap, Bool, not, true, false, inl, inr, Option, some, none, pos, add_64, All2,
  if◌then◌else◌,
}
use gatus.Endpoint.{Endpoint, ExternalEndpoint, Result, to_endpoint, external_key}
use gatus.Provider.{Config}
use gatus.Watchdog.Alerting.{handle_alerting}
use gatus.Watchdog.Alerting.Transitions.{MayFire, failure_lem}
use gatus.Watchdog.Monitoring.{
  Site, earlier, may_run, check_heartbeat, alert_external, note_missed, missed_heartbeat,
  execute_external_endpoint_heartbeat,
}

-- The external endpoint after a missed heartbeat: only these fields can differ.
abbrev pub AfterMissed : ExternalEndpoint → ExternalEndpoint → Type 0
AfterMissed ee ee' = ee' ≡ record ee {
  alerts = ee'.alerts;
  number_of_failures_in_a_row = add_64 ee.number_of_failures_in_a_row (pos 1);
  number_of_successes_in_a_row = pos 0;
}

module _ {W P Window : Type 0} (site : Site W P Window) (config : Config P)
    (configured : site.alerting ≡ some config) (ee : ExternalEndpoint) where
  -- An external endpoint is as it was, or has missed a heartbeat.
  abbrev pub Round : ExternalEndpoint → Type 0
  Round ee' =
      (ee' ≡ ee)
      ⊎ (AfterMissed ee ee'
          × All2 (MayFire config (add_64 ee.number_of_failures_in_a_row (pos 1))) ee.alerts
              ee'.alerts)

  alert_external-Round :
      (result : Result) (w : W) → result.success ≡ false → Round (alert_external site ee result w).0
  unfolding alert_external to_endpoint
  alert_external-Round result w h =
      let (same, alerts) = failure_lem site.services config result (to_endpoint ee) w h in
      rw configured (
        inr (
          ap
              (λ (e : Endpoint). record ee {
                alerts =
                    (handle_alerting site.services (some config) result (to_endpoint ee)
                      w).0.alerts;
                number_of_failures_in_a_row = e.number_of_failures_in_a_row;
                number_of_successes_in_a_row = e.number_of_successes_in_a_row;
              })
              same,
          alerts,
        ))

  Round-if :
      (b : Bool) (x y : ExternalEndpoint × W) → Round x.0 → Round y.0 → Round (if b then x else y).0
  Round-if true x y hx hy = hx
  Round-if false x y hx hy = hy

  note_missed-Round : (w : W) → Round (note_missed site ee w).0
  unfolding note_missed missed_heartbeat
  note_missed-Round w = Round-if _ _ _ (inl refl) (alert_external-Round _ _ refl)

  Round-received :
      (newer : Option Bool) (w : W)
      → Round
          (elim newer as (λ x. ExternalEndpoint × W) [
            | none ↦ (ee, w)
            | some received ↦ if received then (ee, w) else note_missed site ee w
          ]).0
  Round-received none w = inl refl
  Round-received (some received) w =
      Round-if received (ee, w) (note_missed site ee w) (inl refl) (note_missed-Round w)

  check_heartbeat-Round : (w : W) → Round (check_heartbeat site ee w).0
  unfolding check_heartbeat
  check_heartbeat-Round w =
      let (t, w1) = site.services.now w in
      let (newer, w2) = site.has_newer (external_key ee) (earlier t ee.heartbeat_interval) w1 in
      Round-received newer w2

  -- With alerting configured, the round of an external endpoint's heartbeat leaves it as it was, or
  -- adds one to its failures in a row and takes its successes to 0: then no flag is lowered, and a
  -- flag is raised only for an enabled alert with a configured provider that has reached its
  -- failure threshold. A heartbeat never resolves an alert, whatever the other parts answer.
  pub heartbeat-Round : (w : W) → Round (execute_external_endpoint_heartbeat site ee w).0
  unfolding execute_external_endpoint_heartbeat
  heartbeat-Round w =
      let (go, w') = may_run site w in
      Round-if (not go) (ee, w') (check_heartbeat site ee w') (inl refl) (check_heartbeat-Round w')
