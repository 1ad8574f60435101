-- ===== src/Tests/Heartbeats.antt =====
-- A missed heartbeat of an external endpoint.
use gatus.Prelude.{
  ℕ, ◌+◌, ◌*◌, ◌≡◌, ◌⊎◌, refl, true, false, none, some, [], ◌∷◌, pos, codes, add_64, All2,
}
use gatus.Clock.{minute}
use gatus.Alert.{Alert}
use gatus.Endpoint.{ExternalEndpoint, empty_result}
use gatus.Gontext
use gatus.Provider.{Config}
use gatus.Watchdog.Alerting.Transitions.{MayFire}
use gatus.Watchdog.Monitoring.{Site, execute_external_endpoint_heartbeat}
use gatus.Watchdog.Monitoring.Rounds.{AfterMissed, heartbeat-Round}

abbrev config : Config ℕ
config = (codes "slack", some 7) ∷ []

-- A site where no heartbeat has arrived and no window is active.
abbrev pub silent : Site ℕ ℕ ℕ
silent = record {
  alerting = some config;
  metrics = false;
  services = record {
    now = λ w. (w, w + 1);
    getenv = λ name w. [];
    send = λ p ep a r b w. (record { error = none; resolve_key = a.resolve_key }, w);
    upsert = λ ep a w. (none, w);
    delete = λ ep a w. (none, w);
  };
  acquire = λ w. (true, w);
  is_connected = none;
  evaluate_health = λ ep w. (empty_result, w);
  execute = λ s w. (
    record {
      name = s.name;
      group = s.group;
      success = true;
      timestamp = w;
      duration = pos 0;
      endpoint_results = [];
      context = Gontext.last;
      errors = [];
    },
    w,
  );
  publish_endpoint = λ ep r w. w;
  publish_suite = λ s r w. w;
  update_endpoint_status = λ ep r w. w;
  update_suite_status = λ s r w. w;
  has_newer = λ k t w. (some false, w);
  show_duration = λ d. codes "5m0s";
  maintenance = 0;
  windows = λ k. [];
  is_under_maintenance = λ window w. (false, w);
}

abbrev slack : Alert
slack = record {
  alert_type = codes "slack";
  enabled = none;
  failure_threshold = pos 1;
  success_threshold = pos 1;
  minimum_reminder_interval = pos 0;
  description = none;
  send_on_resolved = some true;
  resolve_key = [];
  triggered = false;
}

abbrev pub backup : ExternalEndpoint
backup = record {
  enabled = none;
  name = codes "backup";
  group = codes "jobs";
  custom_key = [];
  token = codes "secret";
  alerts = slack ∷ [];
  heartbeat_interval = pos (5 * minute);
  number_of_failures_in_a_row = pos 0;
  number_of_successes_in_a_row = pos 4;
}

heartbeat-Round_example :
    ((execute_external_endpoint_heartbeat silent backup 9).0 ≡ backup)
    ⊎ (AfterMissed backup (execute_external_endpoint_heartbeat silent backup 9).0
        × All2
            (MayFire config (add_64 (pos 0) (pos 1)))
            (slack ∷ [])
            (execute_external_endpoint_heartbeat silent backup 9).0.alerts)
heartbeat-Round_example = heartbeat-Round silent config refl backup 9
