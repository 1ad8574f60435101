-- ===== src/Endpoint.antt =====
-- The data of an endpoint and of its results: config/endpoint/{endpoint,result,event,
-- condition_result,external_endpoint}.go. ExtraLabels are left out, and so are the settings of the
-- client, which belong to its calls over the network, and the maintenance windows, which the
-- watchdog has by the endpoint's key. Headers that are nil are no headers.
use gatus.Prelude.{
  Bool, true, false, ◌||◌, Option, none, some, List, [], ◌∷◌, ◌++◌, ℤ, pos, Text, text_eq, length,
  ltb, if◌then◌else◌, codes,
}
use gatus.Clock.{Time, Duration}
use gatus.Alert.{Alert}
use gatus.Settings.{Dns, Ssh, Ui}
use gatus.Key.{convert_group_and_name_to_key}

-- ConditionResult.
pub record ConditionResult : Type 0 where
  pub condition : Text
  pub success : Bool

-- Result.
pub record Result : Type 0 where
  pub http_status : ℤ
  pub dns_rcode : Text
  pub hostname : Text
  pub ip : Text
  pub connected : Bool
  pub duration : Duration
  pub errors : List Text
  pub condition_results : List ConditionResult
  pub success : Bool
  pub timestamp : Time
  pub certificate_expiration : Duration
  pub domain_expiration : Duration
  pub body : Text
  pub port : Text
  pub name : Text

-- The zero value of Result.
abbrev pub empty_result : Result
empty_result = record {
  http_status = pos 0;
  dns_rcode = [];
  hostname = [];
  ip = [];
  connected = false;
  duration = pos 0;
  errors = [];
  condition_results = [];
  success = false;
  timestamp = 0;
  certificate_expiration = pos 0;
  domain_expiration = pos 0;
  body = [];
  port = [];
  name = [];
}

-- slices.Contains on texts.
unfoldable pub contains_text : List Text → Text → Bool
contains_text [] t = false
contains_text (x ∷ xs) t = text_eq x t || contains_text xs t

-- result.AddError.
unfoldable pub add_error : Result → Text → Result
unfolding contains_text
add_error r error =
    if contains_text r.errors error then r else record r { errors = r.errors ++ error ∷ [] }

pub data EventType : Type 0 where
  event_start event_healthy event_unhealthy : EventType

-- Event.
pub record Event : Type 0 where
  pub event_type : EventType
  pub timestamp : Time

-- NewEventFromResult.
unfoldable pub new_event_from_result : Result → Event
new_event_from_result result = record {
  event_type = if result.success then event_healthy else event_unhealthy;
  timestamp = result.timestamp;
}

-- Endpoint.
pub record Endpoint : Type 0 where
  pub enabled : Option Bool
  pub name : Text
  pub group : Text
  pub url : Text
  pub method : Text
  pub body : Text
  pub graphql : Bool
  pub headers : List (Text × Text)
  pub interval : Duration
  pub dns_config : Option Dns
  pub ssh_config : Option Ssh
  pub ui_config : Option Ui
  pub key_override : Text
  pub alerts : List Alert
  pub number_of_failures_in_a_row : ℤ
  pub number_of_successes_in_a_row : ℤ
  pub last_reminder_sent : Time
  pub conditions : List Text
  pub store : List (Text × Text)
  pub always_run : Bool

-- endpoint.IsEnabled.
unfoldable pub is_enabled : Endpoint → Bool
is_enabled e = elim e.enabled [ none ↦ true | some enabled ↦ enabled ]

-- endpoint.DisplayName.
unfoldable pub display_name : Endpoint → Text
display_name e = if ltb 0 (length e.group) then e.group ++ codes "/" ++ e.name else e.name

-- endpoint.Key.
unfoldable pub key : Endpoint → Text
key e =
    if ltb 0 (length e.key_override)
    then e.key_override
    else convert_group_and_name_to_key e.group e.name

-- ExternalEndpoint.
pub record ExternalEndpoint : Type 0 where
  pub enabled : Option Bool
  pub name : Text
  pub group : Text
  pub custom_key : Text
  pub token : Text
  pub alerts : List Alert
  pub heartbeat_interval : Duration
  pub number_of_failures_in_a_row : ℤ
  pub number_of_successes_in_a_row : ℤ

-- externalEndpoint.ToEndpoint: what it does not set is the zero value.
unfoldable pub to_endpoint : ExternalEndpoint → Endpoint
to_endpoint ee = record {
  enabled = ee.enabled;
  name = ee.name;
  group = ee.group;
  url = [];
  method = [];
  body = [];
  graphql = false;
  headers = [];
  interval = pos 0;
  dns_config = none;
  ssh_config = none;
  ui_config = none;
  key_override = ee.custom_key;
  alerts = ee.alerts;
  number_of_failures_in_a_row = ee.number_of_failures_in_a_row;
  number_of_successes_in_a_row = ee.number_of_successes_in_a_row;
  last_reminder_sent = 0;
  conditions = [];
  store = [];
  always_run = false;
}

-- externalEndpoint.IsEnabled.
unfoldable pub is_external_enabled : ExternalEndpoint → Bool
is_external_enabled ee = elim ee.enabled [ none ↦ true | some enabled ↦ enabled ]

-- externalEndpoint.DisplayName.
unfoldable pub external_display_name : ExternalEndpoint → Text
external_display_name ee =
    if ltb 0 (length ee.group) then ee.group ++ codes "/" ++ ee.name else ee.name

-- externalEndpoint.Key.
unfoldable pub external_key : ExternalEndpoint → Text
external_key ee =
    if ltb 0 (length ee.custom_key)
    then ee.custom_key
    else convert_group_and_name_to_key ee.group ee.name
