-- ===== src/Health/Accepted.antt =====
-- What holds of an endpoint that ValidateAndSetDefaults of config/endpoint/endpoint.go accepts.
use gatus.Prelude.{
  ◌≡◌, ◌≢◌, ◌⊎◌, refl, ap, subst, Bool, true, false, Option-cases, inl, inr, Option, none, some,
  List, [], All, Text, length, ◌==◌, arith,
}
use gatus.Alert.{Alert}
use gatus.Settings.{Ui, Dns, DnsError, Ssh, SshError, validate_ssh, validate_dns}
use gatus.Endpoint.{Endpoint, Result}
use gatus.Condition.Evaluation.{comparator_of}
use gatus.Health.{endpoint_type}
use gatus.Health.Validation.{
  err_endpoint_with_no_condition, err_endpoint_with_no_url, Checked, accepted, and_then,
  with_defaults, with_user_agent, check_conditions, Validators, Window, is_unknown, check_type,
  check_ssh, check_ssh_failure, check_dns, check_dns_failure, check_client, check_windows,
  check_request, check_kind, check_rest, check_settings, validate_and_set_defaults,
  validate_endpoint_name_group_and_alerts, check_ui,
}
use gatus.Health.Panics.{BodyPanics, evaluate_health-panics}
use gatus.Health.Evaluation.{Network, evaluate_health}
use gatus.Health.Readiness.{
  Ensures, Anything, anything, and_then-Ensures, refuse_if, check_conditions-Ensures, with_dns,
  known, user_agent_there, user_agent-kept, IsSettled, IsReady, Ready,
}

module _ {L : Type 0} (validators : Validators L) where
  check_request-Ready :
      (o : Option Text) (e : Endpoint) (windows : List (Window validators))
      → IsReady e
      → Ensures Ready (check_request validators o e windows)
  unfolding check_request
  check_request-Ready none e windows h = h
  check_request-Ready (some failure) e windows h = tt

  check_windows-Ready :
      (e : Endpoint) (windows : List (Window validators))
      → IsReady e
      → Ensures Ready (
          and_then
            (check_windows validators windows)
            (check_request validators (validators.request_failure e.method e.url) e))
  check_windows-Ready e windows h =
      and_then-Ensures Anything Ready (check_windows validators windows)
        (check_request validators (validators.request_failure e.method e.url) e)
        (anything (check_windows validators windows))
        (λ rest u. check_request-Ready (validators.request_failure e.method e.url) e rest h)

  check_ssh_failure-Ready :
      (f : Option SshError) (e : Endpoint) (windows : List (Window validators))
      → IsReady e
      → Ensures Ready (check_ssh_failure validators f e windows)
  unfolding check_ssh_failure
  check_ssh_failure-Ready none e windows h = h
  check_ssh_failure-Ready (some error) e windows h = tt

  check_dns_failure-Ready :
      (f : Option DnsError) (e : Endpoint) (windows : List (Window validators))
      → IsReady e
      → Ensures Ready (check_dns_failure validators f e windows)
  unfolding check_dns_failure
  check_dns_failure-Ready none e windows h = h
  check_dns_failure-Ready (some error) e windows h = tt

  check_type-Ready :
      (unknown : Bool) (e : Endpoint) (windows : List (Window validators))
      → (unknown ≡ false → IsReady e)
      → Ensures Ready (check_type validators unknown e windows)
  unfolding check_type
  check_type-Ready true e windows h = tt
  check_type-Ready false e windows h = check_windows-Ready e windows (h refl)

  check_ssh-Ready :
      (o : Option Ssh) (e : Endpoint) (windows : List (Window validators))
      → o ≡ e.ssh_config
      → IsSettled e
      → Ensures Ready (check_ssh validators o e windows)
  unfolding check_ssh
  check_ssh-Ready (some ssh) e windows same h =
      check_ssh_failure-Ready (validate_ssh ssh) e windows
        (record { settled = h; known_type = λ k. absurd (ground (arith, same)) })
  check_ssh-Ready none e windows same h =
      check_type-Ready (is_unknown (endpoint_type e)) e windows
        (λ k. record { settled = h; known_type = λ s. known (endpoint_type e) k })

  check_dns-Ready :
      (o : Option Dns) (e : Endpoint) (windows : List (Window validators))
      → IsSettled e
      → Ensures Ready (check_dns validators o e windows)
  unfolding check_dns
  check_dns-Ready (some d) e windows h =
      check_dns_failure-Ready (validate_dns validators.is_query_type d).1
        (record e { dns_config = some (validate_dns validators.is_query_type d).0 }) windows
        (with_dns e (validate_dns validators.is_query_type d).0 h)
  check_dns-Ready none e windows h = check_ssh-Ready e.ssh_config e windows refl h

no_conditions : (conditions : List Text) → (length conditions == 0) ≡ false → conditions ≢ []
no_conditions conditions h empty = ground (arith, ap (λ (l : List Text). length l) empty)

defaults-IsSettled :
    (e : Endpoint) (alerts : List Alert) (ui : Ui)
    → e.conditions ≢ []
    → All (λ c. comparator_of c ≢ none) e.conditions
    → IsSettled (with_defaults e alerts ui)
unfolding with_defaults
defaults-IsSettled e alerts ui ne valid = record {
  has_ui = λ h. ground arith;
  has_interval = λ h. ground arith;
  has_method = λ h. ground arith;
  has_user_agent =
      user_agent-kept e.graphql (with_user_agent e.headers) (user_agent_there e.headers);
  has_conditions = ne;
  valid_conditions = valid;
}

module _ {L : Type 0} (validators : Validators L)
    (refuses : validators.go.json.unmarshal [] ≡ none) where
  check_rest-Ready :
      (e : Endpoint) (windows : List (Window validators))
      → (e.conditions ≢ [] → All (λ c. comparator_of c ≢ none) e.conditions → IsSettled e)
      → Ensures Ready (check_rest validators e windows)
  unfolding check_rest check_kind
  check_rest-Ready e windows settle =
      refuse_if Ready (length e.conditions == 0) err_endpoint_with_no_condition
        (and_then (check_conditions validators.go e.interval e.conditions)
          (λ u. check_kind validators e windows))
        (λ some_there.
          and_then-Ensures (λ u. All (λ c. comparator_of c ≢ none) e.conditions) Ready
            (check_conditions validators.go e.interval e.conditions)
            (λ u. check_kind validators e windows)
            (check_conditions-Ensures validators.go refuses e.interval e.conditions)
            (λ u valid.
              check_dns-Ready validators e.dns_config e windows
                (settle (λ empty. no_conditions e.conditions some_there empty) valid)))

  check_client-Ready :
      (f : Option Text) (e : Endpoint) (windows : List (Window validators)) (alerts : List Alert)
      → Ensures Ready (check_client validators f e windows alerts)
  unfolding check_client with_defaults
  check_client-Ready (some failure) e windows alerts = tt
  check_client-Ready none e windows alerts =
      and_then-Ensures Anything Ready (check_ui e.ui_config)
        (λ ui. check_rest validators (with_defaults e alerts ui) windows)
        (anything (check_ui e.ui_config))
        (λ ui u.
          check_rest-Ready (with_defaults e alerts ui) windows (defaults-IsSettled e alerts ui))

  check_settings-Ready :
      (e : Endpoint) (windows : List (Window validators)) (alerts : List Alert)
      → Ensures Ready (check_settings validators e windows alerts)
  unfolding check_settings
  check_settings-Ready e windows alerts =
      refuse_if Ready (length e.url == 0) err_endpoint_with_no_url
        (check_client validators (validators.client_failure e) e windows alerts)
        (λ there. check_client-Ready (validators.client_failure e) e windows alerts)

  -- What the validation accepts is ready, if json.Unmarshal refuses the empty text.
  pub validate_and_set_defaults-IsReady :
      (e : Endpoint) (windows : List (Window validators)) (e' : Endpoint)
      (windows' : List (Window validators))
      → validate_and_set_defaults validators e windows ≡ accepted (e', windows')
      → IsReady e'
  unfolding validate_and_set_defaults
  validate_and_set_defaults-IsReady e windows e' windows' h =
      subst (λ (c : Checked (Endpoint × List (Window validators))). Ensures Ready c) h
        (and_then-Ensures Anything Ready
          (validate_endpoint_name_group_and_alerts e.name e.group e.alerts)
          (check_settings validators e windows)
          (anything (validate_endpoint_name_group_and_alerts e.name e.group e.alerts))
          (λ alerts u. check_settings-Ready e windows alerts))

-- The evaluation of an accepted endpoint that has no settings for SSH returns a result, unless an
-- operand of one of its conditions is a placeholder of the body whose JSON path makes the walk of
-- the body that its call received panic. Of json.Unmarshal is assumed that it refuses the empty text.
pub accepted-returns :
    {L W : Type 0} (validators : Validators L) (net : Network W)
    → validators.go.json.unmarshal [] ≡ none
    → (e : Endpoint) (windows : List (Window validators)) (e' : Endpoint)
      (windows' : List (Window validators)) (w : W)
    → validate_and_set_defaults validators e windows ≡ accepted (e', windows')
    → e'.ssh_config ≡ none
    → ((result : Result) × ((evaluate_health net e' w).0 ≡ some result)) ⊎ BodyPanics net e' w
accepted-returns validators net refuses e windows e' windows' w h s =
    let ready = validate_and_set_defaults-IsReady validators refuses e windows e' windows' h in
    elim (Option-cases (evaluate_health net e' w).0) [
      | inr (result, there) ↦ inl (result, there)
      | inl stuck ↦ elim (Option-cases e'.ui_config) [
        | inl missing ↦ absurd (ready.settled.has_ui missing)
        | inr (ui, u) ↦ elim (evaluate_health-panics net e' ui w u stuck) [
          | inl unknown ↦ absurd (ready.known_type s unknown)
          | inr bad ↦ inr bad
        ]
      ]
    ]
