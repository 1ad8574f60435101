-- ===== src/Health/Validation.antt =====
-- ValidateAndSetDefaults of config/endpoint/endpoint.go and validateEndpointNameGroupAndAlerts of
-- config/endpoint/common.go. The validation of the client's settings, the DNS library's query types
-- and http.NewRequest are parameters. The endpoint with its defaults is returned only where it is
-- accepted, since the program does not go on otherwise.
use gatus.Prelude.{
  false, true, ◌*◌, Bool, not, ◌&&◌, ◌||◌, Option, none, some, List, [], ◌∷◌, pos, ltb_ℤ, eq_ℤ,
  Text, codes, length, ◌==◌, if◌then◌else◌,
}
use gatus.Clock.{Duration, minute}
use gatus.Alert.{Alert, AlertError, contains_quote_or_backslash}
use gatus.Alert
use gatus.Settings.{
  Dns, Ssh, Ui, default_ui, ui_valid, err_invalid_badge_response_time_config, ui_panics,
  validate_ui, DnsError, validate_dns, SshError, validate_ssh,
}
use gatus.Endpoint.{Endpoint}
use gatus.Maintenance
use gatus.Maintenance.{MaintenanceError}
use gatus.Condition.{Library}
use gatus.Condition.Evaluation.{validate, has_domain_expiration_placeholder}
use gatus.Health.{
  EndpointType, type_unknown, endpoint_type, has_header, add_header, user_agent_header,
  content_type_header,
}

-- The errors of the validation.
pub data EndpointError : Type 0 where
  err_endpoint_with_no_name err_endpoint_with_invalid_name_or_group err_endpoint_with_no_url
        err_endpoint_with_no_condition
        err_invalid_endpoint_interval_for_domain_expiration_placeholder err_unknown_endpoint_type
        err_invalid_badge :
      EndpointError
  alert_error : AlertError → EndpointError
  client_error : Text → EndpointError
  err_invalid_condition_format : Text → EndpointError
  dns_error : DnsError → EndpointError
  ssh_error : SshError → EndpointError
  window_error : MaintenanceError → EndpointError
  request_error : Text → EndpointError

-- What a check ends with.
pub data Checked {ℓ} (A : Type ℓ) : Type ℓ where
  accepted : A → Checked A
  refused : EndpointError → Checked A
  check_panics : Checked A

-- if err != nil { return err }.
unfoldable pub and_then {ℓ κ} : {A : Type ℓ} {B : Type κ} → Checked A → (A → Checked B) → Checked B
and_then (accepted a) go_on = go_on a
and_then (refused e) go_on = refused e
and_then check_panics go_on = check_panics

-- The loop over the alerts.
unfoldable pub check_alerts : List Alert → Checked (List Alert)
unfolding and_then
check_alerts [] = accepted []
check_alerts (a ∷ alerts) =
    let (a', failure) = Alert.validate_and_set_defaults a in
    elim failure [
      | some e ↦ refused (alert_error e)
      | none ↦ and_then (check_alerts alerts) (λ rest. accepted (a' ∷ rest))
    ]

-- validateEndpointNameGroupAndAlerts: the alerts with their defaults.
unfoldable pub validate_endpoint_name_group_and_alerts :
    Text → Text → List Alert → Checked (List Alert)
unfolding check_alerts
validate_endpoint_name_group_and_alerts name group alerts =
    if length name == 0
    then refused err_endpoint_with_no_name
    else if contains_quote_or_backslash name || contains_quote_or_backslash group
    then refused err_endpoint_with_invalid_name_or_group
    else check_alerts alerts

-- The UI settings with their defaults.
unfoldable pub check_ui : Option Ui → Checked Ui
check_ui none = accepted default_ui
check_ui (some ui) = elim (validate_ui ui) [
  | ui_valid ui' ↦ accepted ui'
  | err_invalid_badge_response_time_config ↦ refused err_invalid_badge
  | ui_panics ↦ check_panics
]

-- The headers with those that are added.
unfoldable pub with_user_agent : List (Text × Text) → List (Text × Text)
with_user_agent headers =
    if has_header headers user_agent_header
    then headers
    else add_header headers user_agent_header (codes "Gatus/1.0")

unfoldable pub with_content_type : Bool → List (Text × Text) → List (Text × Text)
with_content_type graphql headers =
    if not (has_header headers content_type_header) && graphql
    then add_header headers content_type_header (codes "application/json")
    else headers

-- The defaults of the interval, the method and the headers.
unfoldable pub with_defaults : Endpoint → List Alert → Ui → Endpoint
unfolding with_user_agent with_content_type
with_defaults e alerts ui = record e {
  alerts = alerts;
  ui_config = some ui;
  interval = if eq_ℤ e.interval (pos 0) then pos minute else e.interval;
  method = if length e.method == 0 then codes "GET" else e.method;
  headers = with_content_type e.graphql (with_user_agent e.headers);
}

-- The loop over the conditions.
unfoldable pub check_conditions : Library → Duration → List Text → Checked {0} Unit
check_conditions go interval [] = accepted tt
check_conditions go interval (c ∷ conditions) =
    let rest = check_conditions go interval conditions in
    if ltb_ℤ interval (pos (5 * minute)) && has_domain_expiration_placeholder c
    then refused err_invalid_endpoint_interval_for_domain_expiration_placeholder
    else elim (validate go c) [
      | none ↦ check_panics
      | some none ↦ rest
      | some (some e) ↦ refused (err_invalid_condition_format e)
    ]

unfoldable pub is_unknown : EndpointType → Bool
is_unknown type_unknown = true
is_unknown t = false

-- What the validation uses, for a type of locations.
pub record Validators (L : Type 0) : Type 0 where
  pub go : Library
  pub calendar : Maintenance.Calendar L
  -- the error of the validation of the endpoint's client settings
  pub client_failure : Endpoint → Option Text
  pub is_query_type : Text → Bool
  -- the error of http.NewRequest for a method and a URL
  pub request_failure : Text → Text → Option Text

module _ {L : Type 0} (validators : Validators L) where
  abbrev pub Window : Type 0
  Window = Maintenance.Config L

  -- The loop over the maintenance windows.
  unfoldable pub check_windows : List Window → Checked (List Window)
  unfolding and_then
  check_windows [] = accepted []
  check_windows (c ∷ windows) =
      let (c', failure) = Maintenance.validate_and_set_defaults validators.calendar c in
      elim failure [
        | some e ↦ refused (window_error e)
        | none ↦ and_then (check_windows windows) (λ rest. accepted (c' ∷ rest))
      ]

  -- The last check, of the request.
  unfoldable pub check_request :
      Option Text → Endpoint → List Window → Checked (Endpoint × List Window)
  check_request (some failure) e windows = refused (request_error failure)
  check_request none e windows = accepted (e, windows)

  -- The part of the validation behind the settings for SSH: whether the type is unknown.
  unfoldable pub check_type : Bool → Endpoint → List Window → Checked (Endpoint × List Window)
  unfolding check_windows check_request
  check_type true e windows = refused err_unknown_endpoint_type
  check_type false e windows =
      and_then (check_windows windows) (check_request (validators.request_failure e.method e.url) e)

  unfoldable pub check_ssh_failure :
      Option SshError → Endpoint → List Window → Checked (Endpoint × List Window)
  check_ssh_failure (some error) e windows = refused (ssh_error error)
  check_ssh_failure none e windows = accepted (e, windows)

  unfoldable pub check_ssh : Option Ssh → Endpoint → List Window → Checked (Endpoint × List Window)
  unfolding check_type check_ssh_failure is_unknown
  check_ssh (some ssh) e windows = check_ssh_failure (validate_ssh ssh) e windows
  check_ssh none e windows = check_type (is_unknown (endpoint_type e)) e windows

  unfoldable pub check_dns_failure :
      Option DnsError → Endpoint → List Window → Checked (Endpoint × List Window)
  check_dns_failure (some error) e windows = refused (dns_error error)
  check_dns_failure none e windows = accepted (e, windows)

  unfoldable pub check_dns : Option Dns → Endpoint → List Window → Checked (Endpoint × List Window)
  unfolding check_ssh check_dns_failure
  check_dns (some d) e windows =
      let (d', failure) = validate_dns validators.is_query_type d in
      check_dns_failure failure (record e { dns_config = some d' }) windows
  check_dns none e windows = check_ssh e.ssh_config e windows

  -- The part of the validation behind the conditions. The windows of an endpoint with settings for
  -- DNS or SSH are left as they are.
  unfoldable pub check_kind : Endpoint → List Window → Checked (Endpoint × List Window)
  unfolding check_dns
  check_kind e windows = check_dns e.dns_config e windows

  -- The part of the validation behind the defaults.
  unfoldable pub check_rest : Endpoint → List Window → Checked (Endpoint × List Window)
  unfolding and_then check_conditions check_kind
  check_rest e windows =
      if length e.conditions == 0
      then refused err_endpoint_with_no_condition
      else and_then (check_conditions validators.go e.interval e.conditions)
          (λ u. check_kind e windows)

  -- The UI settings and what is behind them.
  unfoldable pub check_client :
      Option Text → Endpoint → List Window → List Alert → Checked (Endpoint × List Window)
  unfolding and_then check_ui check_rest with_defaults
  check_client (some failure) e windows alerts = refused (client_error failure)
  check_client none e windows alerts =
      and_then (check_ui e.ui_config) (λ ui. check_rest (with_defaults e alerts ui) windows)

  -- The part of the validation behind the name, the group and the alerts.
  unfoldable pub check_settings :
      Endpoint → List Window → List Alert → Checked (Endpoint × List Window)
  unfolding check_client
  check_settings e windows alerts =
      if length e.url == 0
      then refused err_endpoint_with_no_url
      else check_client (validators.client_failure e) e windows alerts

  -- ValidateAndSetDefaults: the endpoint and its maintenance windows with their defaults.
  unfoldable pub validate_and_set_defaults :
      Endpoint → List Window → Checked (Endpoint × List Window)
  unfolding and_then validate_endpoint_name_group_and_alerts check_settings
  validate_and_set_defaults e windows =
      and_then (validate_endpoint_name_group_and_alerts e.name e.group e.alerts)
        (check_settings e windows)
