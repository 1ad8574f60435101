-- ===== src/Tests/Alerts.antt =====
-- An endpoint with two alerts through an outage.
use gatus.Prelude.{
  ℕ, ◌+◌, ◌*◌, ◌≡◌, ◌↔◌, ◌⊎◌, refl, true, false, none, some, List, [], ◌∷◌, ◌++◌, pos, ◌≤ℤ◌, codes,
  add_64, All2, arith, text_eq,
}
use gatus.Clock.{minute}
use gatus.Alert
use gatus.Alert.{Alert, validate_and_set_defaults, contains_quote_or_backslash, get_description}
use gatus.Alert.Validation.{validate-ok_iff}
use gatus.Endpoint.{Endpoint, Result, ExternalEndpoint, empty_result, to_endpoint}
use gatus.Provider.{Config, merge_provider_default_alert_into_endpoint_alert as merge_default}
use gatus.Watchdog.Alerting.{
  Services, handle_alerting, reminder_due, handle_alerts_to_trigger, trigger_alerts, trigger_alert,
}
use gatus.Watchdog.Alerting.Flags.{IsReliable}
use gatus.Watchdog.Alerting.Transitions.{
  MayFire, Recovers, AfterFailure, AfterSuccess, failure_lem, success_lem,
}
use gatus.Watchdog.Alerting.Streaks.{run, in_a_row, run-in_a_row}
use gatus.Watchdog.Alerting.Incidents.{Raised, Lowered, run-raises, run-lowers}
use gatus.Watchdog.Alerting.Notices.{
  recorded, notices, resolve_notice, trigger_notice, success-notices, failure-notices,
}
use gatus.Watchdog.Alerting.External.{external_reminder_due}

-- The clock stands still, the providers deliver, and the store answers nothing.
abbrev noon : ℕ
noon = 63745056000000000000

abbrev calm : Services ℕ ℕ
calm = record {
  now = λ w. (noon, w);
  getenv = λ name w. [];
  send = λ p ep a r b w. (record { error = none; resolve_key = a.resolve_key }, w + 1);
  upsert = λ ep a w. (none, w);
  delete = λ ep a w. (none, w);
}

calm-IsReliable : IsReliable calm
unfolding text_eq
calm-IsReliable = record { delivers = λ p ep a r b w. refl; no_mock = λ w. refl }

abbrev config : Config ℕ
config = (codes "slack", some 7) ∷ (codes "teams", none) ∷ []

abbrev slack : Alert
slack = record {
  alert_type = codes "slack";
  enabled = none;
  failure_threshold = pos 2;
  success_threshold = pos 2;
  minimum_reminder_interval = pos (5 * minute);
  description = none;
  send_on_resolved = some true;
  resolve_key = [];
  triggered = false;
}

abbrev teams : Alert
teams = record slack { alert_type = codes "teams"; failure_threshold = pos 1 }

abbrev site : Endpoint
site = record {
  enabled = none;
  name = codes "site";
  group = [];
  url = codes "https://example.org";
  method = codes "GET";
  body = [];
  graphql = false;
  headers = [];
  interval = pos minute;
  dns_config = none;
  ssh_config = none;
  ui_config = none;
  key_override = [];
  alerts = slack ∷ teams ∷ [];
  number_of_failures_in_a_row = pos 0;
  number_of_successes_in_a_row = pos 0;
  last_reminder_sent = 0;
  conditions = [];
  store = [];
  always_run = false;
}

-- The same, as an incident of slack's alert stands after one failure.
abbrev burning : Endpoint
burning = record site {
  alerts = record slack { triggered = true } ∷ teams ∷ [];
  number_of_failures_in_a_row = pos 1;
}

abbrev failed : Result
failed = empty_result

abbrev passed : Result
passed = record empty_result { success = true }

-- Two failures in a row trigger slack's alert; teams has no provider.
outage :
    (run calm config (failed ∷ failed ∷ []) site 0).0.alerts
    ≡ record slack { triggered = true } ∷ teams ∷ []
unfolding run handle_alerting handle_alerts_to_trigger trigger_alerts trigger_alert
    gatus.Alert.is_enabled gatus.Provider.get_alerting_provider_by_alert_type text_eq add_64
outage = refl

validate-ok_iff_example : ((validate_and_set_defaults slack).1 ≡ none) ↔ (
    ((slack.minimum_reminder_interval ≡ pos 0)
      ⊎ (pos (5 * minute) ≤ℤ slack.minimum_reminder_interval))
    × (contains_quote_or_backslash (get_description slack) ≡ false))
validate-ok_iff_example = validate-ok_iff slack

abbrev bare : Alert
bare = record slack { failure_threshold = pos 0; success_threshold = pos 7 }

failure_lem_example :
    let out = (handle_alerting calm (some config) failed burning 0).0 in
    AfterFailure burning out
    × All2 (MayFire config (add_64 (pos 1) (pos 1))) burning.alerts out.alerts
failure_lem_example = failure_lem calm config failed burning 0 refl

success_lem_example :
    let out = (handle_alerting calm (some config) passed burning 0).0 in
    AfterSuccess burning out × All2 (Recovers (add_64 (pos 0) (pos 1))) burning.alerts out.alerts
success_lem_example = success_lem calm config passed burning 0 refl

abbrev flaps : List Result
flaps = failed ∷ passed ∷ failed ∷ failed ∷ []

run-in_a_row_example :
    let out = (run calm config flaps site 0).0 in
    (out.number_of_failures_in_a_row ≡ pos (in_a_row false flaps))
    × (out.number_of_successes_in_a_row ≡ pos (in_a_row true flaps))
run-in_a_row_example = run-in_a_row calm config flaps site 0 refl refl (omega arith)

run-raises_example :
    All2 (Raised config 0 2) site.alerts (run calm config (failed ∷ failed ∷ []) site 0).0.alerts
run-raises_example =
    run-raises calm config (failed ∷ failed ∷ []) site 0 0 calm-IsReliable (refl, (refl, tt)) refl
      (omega arith)

run-lowers_example :
    All2 (Lowered 0 2) burning.alerts (run calm config (passed ∷ passed ∷ []) burning 0).0.alerts
run-lowers_example =
    run-lowers calm config (passed ∷ passed ∷ []) burning 0 0 (refl, (refl, tt)) refl (omega arith)

success-notices_example :
    (handle_alerting (recorded calm) (some config) passed burning (0, [])).1.1
    ≡ [] ++ notices (resolve_notice config (add_64 (pos 0) (pos 1))) burning.alerts
success-notices_example = success-notices calm config passed burning 0 [] refl

failure-notices_example :
    (handle_alerting (recorded calm) (some config) failed burning (0, [])).1.1
    ≡ [] ++ notices (trigger_notice config (add_64 (pos 1) (pos 1)) noon 0) burning.alerts
unfolding text_eq
failure-notices_example =
    failure-notices calm config failed noon (λ w. refl) (λ w. refl) burning 0 [] refl

abbrev pushed : ExternalEndpoint
pushed = record {
  enabled = none;
  name = codes "job";
  group = [];
  custom_key = [];
  token = codes "t";
  alerts = [];
  heartbeat_interval = pos 0;
  number_of_failures_in_a_row = pos 0;
  number_of_successes_in_a_row = pos 0;
}

external_reminder_due_example :
    (reminder_due calm config failed
      (to_endpoint pushed).last_reminder_sent
      (record slack { triggered = true })
      0).0
    ≡ true
external_reminder_due_example =
    external_reminder_due calm config failed pushed (record slack { triggered = true }) 0 refl
      (omega arith) (omega arith) (omega arith)
