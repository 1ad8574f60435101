-- ===== src/Provider.antt =====
-- The choice of an alert's provider (alerting/config.go) and its default alert
-- (alerting/provider/provider.go). The providers themselves are a parameter.
pub mod Defaults
pub mod Choice
use gatus.Prelude.{
  ℕ, Bool, true, false, ◌&&◌, Option, none, some, List, [], ◌∷◌, ℤ, pos, negsuc, ◌==◌, Text,
  text_eq, codes, if◌then◌else◌,
}
use gatus.Alert.{Alert}

-- The fields of alerting.Config in order: the tag of each and the provider, if it is not nil.
abbrev pub Config {ℓ} : Type ℓ → Type ℓ
Config P = List (Text × Option P)

-- The tags of the fields, in order.
unfoldable pub provider_tags : List Text
provider_tags =
    codes "aws-ses"
    ∷ codes "clickup"
    ∷ codes "custom"
    ∷ codes "datadog"
    ∷ codes "discord"
    ∷ codes "email"
    ∷ codes "github"
    ∷ codes "gitlab"
    ∷ codes "gitea"
    ∷ codes "googlechat"
    ∷ codes "gotify"
    ∷ codes "homeassistant"
    ∷ codes "ifttt"
    ∷ codes "ilert"
    ∷ codes "incident-io"
    ∷ codes "line"
    ∷ codes "matrix"
    ∷ codes "mattermost"
    ∷ codes "messagebird"
    ∷ codes "newrelic"
    ∷ codes "n8n"
    ∷ codes "ntfy"
    ∷ codes "opsgenie"
    ∷ codes "pagerduty"
    ∷ codes "plivo"
    ∷ codes "pushover"
    ∷ codes "rocketchat"
    ∷ codes "sendgrid"
    ∷ codes "signal"
    ∷ codes "signl4"
    ∷ codes "slack"
    ∷ codes "splunk"
    ∷ codes "squadcast"
    ∷ codes "teams"
    ∷ codes "teams-workflows"
    ∷ codes "telegram"
    ∷ codes "twilio"
    ∷ codes "vonage"
    ∷ codes "webex"
    ∷ codes "zapier"
    ∷ codes "zulip"
    ∷ []

unfoldable pub fields_of {ℓ} : {P : Type ℓ} → List Text → (Text → Option P) → Config P
fields_of [] field = []
fields_of (tag ∷ tags) field = (tag, field tag) ∷ fields_of tags field

-- The struct Config with the field of each tag.
unfoldable pub config_of {ℓ} : {P : Type ℓ} → (Text → Option P) → Config P
unfolding fields_of
config_of field = fields_of provider_tags field

-- GetAlertingProviderByAlertType: the first field with the tag decides.
unfoldable pub get_alerting_provider_by_alert_type {ℓ} : {P : Type ℓ} → Config P → Text → Option P
get_alerting_provider_by_alert_type [] alert_type = none
get_alerting_provider_by_alert_type ((tag, field) ∷ config) alert_type =
    if text_eq tag alert_type then field else get_alerting_provider_by_alert_type config alert_type

-- A set value wins over a default.
unfoldable pub or_default {ℓ} : {A : Type ℓ} → Option A → Option A → Option A
or_default none d = d
or_default (some a) d = some a

unfoldable pub nonzero_or : ℤ → ℤ → ℤ
nonzero_or (pos n) d = if n == 0 then d else pos n
nonzero_or (negsuc n) d = negsuc n

unfoldable pub merge : Alert → Alert → Alert
merge d a = record a {
  enabled = or_default a.enabled d.enabled;
  send_on_resolved = or_default a.send_on_resolved d.send_on_resolved;
  description = or_default a.description d.description;
  failure_threshold = nonzero_or a.failure_threshold d.failure_threshold;
  success_threshold = nonzero_or a.success_threshold d.success_threshold;
  minimum_reminder_interval = nonzero_or a.minimum_reminder_interval d.minimum_reminder_interval;
}

-- MergeProviderDefaultAlertIntoEndpointAlert: `none` is a nil provider default. The endpoint's
-- alert is never nil where it is called.
unfoldable pub merge_provider_default_alert_into_endpoint_alert : Option Alert → Alert → Alert
unfolding merge
merge_provider_default_alert_into_endpoint_alert none a = a
merge_provider_default_alert_into_endpoint_alert (some d) a = merge d a
