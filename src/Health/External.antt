-- ===== src/Health/External.antt =====
-- externalEndpoint.ValidateAndSetDefaults of config/endpoint/external_endpoint.go. The pattern of
-- keys is a parameter.
use gatus.Prelude.{
  ◌*◌, Bool, not, ◌&&◌, List, pos, ltb_ℤ, eq_ℤ, Text, length, ltb, ◌==◌, if◌then◌else◌,
}
use gatus.Clock.{second}
use gatus.Alert.{Alert}
use gatus.Endpoint.{ExternalEndpoint}
use gatus.Health.Validation.{
  Checked, accepted, refused, check_panics, EndpointError, validate_endpoint_name_group_and_alerts,
}

-- The errors of the validation.
pub data ExternalError : Type 0 where
  err_external_endpoint_with_no_token err_invalid_external_endpoint_key
        err_external_endpoint_heartbeat_interval_too_low :
      ExternalError
  shared_error : EndpointError → ExternalError

pub data ExternalOutcome : Type 0 where
  external_accepted : ExternalEndpoint → ExternalOutcome
  external_refused : ExternalError → ExternalOutcome
  external_panics : ExternalOutcome

-- The part of the validation behind the name, the group and the alerts.
unfoldable pub check_external : (Text → Bool) → ExternalEndpoint → ExternalOutcome
check_external is_key ee =
    if length ee.token == 0
    then external_refused err_external_endpoint_with_no_token
    else if ltb 0 (length ee.custom_key) && not (is_key ee.custom_key)
    then external_refused err_invalid_external_endpoint_key
    else if not (eq_ℤ ee.heartbeat_interval (pos 0))
        && ltb_ℤ ee.heartbeat_interval (pos (10 * second))
    then external_refused err_external_endpoint_heartbeat_interval_too_low
    else external_accepted ee

unfoldable pub check_external_alerts :
    (Text → Bool) → ExternalEndpoint → Checked (List Alert) → ExternalOutcome
unfolding check_external
check_external_alerts is_key ee (accepted alerts) =
    check_external is_key (record ee { alerts = alerts })
check_external_alerts is_key ee (refused e) = external_refused (shared_error e)
check_external_alerts is_key ee check_panics = external_panics

-- ValidateAndSetDefaults: the external endpoint with its alerts' defaults.
unfoldable pub validate_external_endpoint : (Text → Bool) → ExternalEndpoint → ExternalOutcome
unfolding check_external_alerts
validate_external_endpoint is_key ee =
    check_external_alerts is_key ee
      (validate_endpoint_name_group_and_alerts ee.name ee.group ee.alerts)
