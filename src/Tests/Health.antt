-- ===== src/Tests/Health.antt =====
-- The validation and the evaluation of an endpoint.
use gatus.Prelude.{
  join, has_prefix, ℕ, ◌≡◌, ◌≢◌, ◌⊎◌, refl, inl, inr, true, none, some, [], ◌∷◌, ◌++◌, pos, Text,
  codes, contains, split, text_eq, upper, trim_space, has_suffix, show_ℤ, atoi, equal_fold, arith,
}
use gatus.Settings.{default_ui}
use gatus.Endpoint.{Endpoint, Result}
use gatus.Gontext.{get, follow, split_at_dots, lookup, Fields, field, last, text}
use gatus.Alert.{contains_quote_or_backslash}
use gatus.Placeholder.{resolve_placeholder, basic_placeholder}
use gatus.Condition.{is_equal}
use gatus.Condition.Evaluation.{
  comparator_of, evaluate, validate, has_domain_expiration_placeholder,
}
use gatus.Health.{
  endpoint_type, has_header, context_marker, replace_context_placeholders, is_path_byte,
  context_failure, replace_matches, match_context, path_run, put_value,
}
use gatus.Health.Client.{Client, Answer, request_error}
use gatus.Health.Evaluation.{Network, evaluate_conditions, evaluate_health}
use gatus.Health.Conditions.{Judged, evaluate_conditions_lem}
use gatus.Health.Replacement.{replace_found}
use gatus.Health.Validation.{Validators, accepted, validate_and_set_defaults}
use gatus.Health.Readiness.{IsReady}
use gatus.Health.Panics.{BodyPanics}
use gatus.Health.Accepted.{validate_and_set_defaults-IsReady, accepted-returns}
use gatus.Condition.Outcome.{noted}
use gatus.Tests.Stores.{api}
use gatus.Tests.Conditions.{json, library, healthy}
use gatus.Tests.Windows.{utc}

is_valid : comparator_of (codes "[STATUS] == 200") ≢ none
unfolding comparator_of contains
is_valid h = ground arith

evaluate_conditions_lem_example :
    Judged (codes "[STATUS] == 200" ∷ []) healthy (noted healthy (codes "[STATUS] == 200") true)
unfolding evaluate_conditions evaluate contains split resolve_placeholder basic_placeholder text_eq
    upper trim_space is_equal has_suffix show_ℤ atoi
evaluate_conditions_lem_example =
    evaluate_conditions_lem library default_ui none (codes "[STATUS] == 200" ∷ []) healthy
      (noted healthy (codes "[STATUS] == 200") true) (is_valid, tt) refl

abbrev context : Fields
context = field (codes "token") (text (codes "abc")) last

-- Two placeholders behind other text, of which the context has the first.
replace_found_example :
    replace_context_placeholders json
      (codes "Bearer " ++ (context_marker ++ (codes "token" ++ codes "/[CONTEXT].user")))
      context
    ≡ (
      codes "Bearer " ++ (codes "abc" ++ codes "/[CONTEXT].user"),
      some (codes "context placeholder resolution failed: path 'user' not found"),
    )
unfolding is_path_byte contains get follow split_at_dots lookup text_eq replace_context_placeholders
    context_failure replace_matches match_context path_run put_value join has_prefix
replace_found_example =
    replace_found json context (codes "Bearer ") (codes "token") (codes "/[CONTEXT].user")
      (text (codes "abc")) refl (refl, (refl, (refl, (refl, (refl, tt))))) (λ h. ground arith) refl
      refl

abbrev validators : Validators Text
validators = record {
  go = library;
  calendar = utc;
  client_failure = λ e. none;
  is_query_type = λ t. true;
  request_failure = λ method url. none;
}

-- api with the defaults.
abbrev ready : Endpoint
ready = record api {
  ui_config = some default_ui;
  headers = (codes "User-Agent", codes "Gatus/1.0") ∷ [];
}

api_accepted : validate_and_set_defaults validators api [] ≡ accepted (ready, [])
unfolding validate_and_set_defaults contains_quote_or_backslash has_domain_expiration_placeholder
    contains validate split resolve_placeholder basic_placeholder text_eq upper trim_space
    endpoint_type has_header equal_fold
api_accepted = refl

validate_and_set_defaults-IsReady_example : IsReady ready
validate_and_set_defaults-IsReady_example =
    validate_and_set_defaults-IsReady validators refl api [] ready [] api_accepted

abbrev answer : Answer
answer = record {
  connected = true;
  succeeded = true;
  status = pos 0;
  label = [];
  content = [];
  duration = pos 0;
  certificate = 0;
  failure = none;
}

-- A client without a network.
abbrev client : Client ℕ
client = record {
  now = λ w. (w, w);
  fill_random = λ t w. (t, w);
  marshal_query = λ t. t;
  query_dns = λ t n u w. (answer, w);
  can_perform_start_tls = λ t w. (answer, w);
  can_perform_tls = λ t b w. (answer, w);
  can_create_network_connection = λ n t b w. (answer, w);
  can_create_sctp_connection = λ t w. (answer, w);
  ping = λ t w. (answer, w);
  query_web_socket = λ u b h w. (answer, w);
  check_ssh_banner = λ t w. (answer, w);
  can_create_ssh_connection = λ t u p k w. (answer, w);
  execute_ssh_command = λ t w. (answer, w);
  perform_grpc_health_check = λ t s w. (answer, w);
  perform = λ r w. (request_error (codes "timeout"), w);
}

abbrev offline : Network ℕ
offline = record {
  go = library;
  client = client;
  parse_url = λ u. inr (codes "example.org", []);
  lookup_ip = λ h w. (inl (codes "no such host"), w);
  get_domain_expiration = λ h w. ((pos 0, none), w);
}

accepted-returns_example :
    ((result : Result) × ((evaluate_health offline ready 7).0 ≡ some result))
    ⊎ BodyPanics offline ready 7
accepted-returns_example =
    accepted-returns validators offline refl api [] ready [] 7 api_accepted refl
