-- ===== src/Settings.antt =====
-- The settings of an endpoint and their validation: config/endpoint/ui/ui.go,
-- config/endpoint/dns/dns.go and config/endpoint/ssh/ssh.go. An error is a constructor for each of
-- the source's error values.
use gatus.Prelude.{
  Bool, true, false, not, ◌&&◌, Option, none, some, List, [], ◌∷◌, ◌++◌, ℤ, pos, ltb_ℤ, Text, codes,
  has_suffix, length, ◌==◌, if◌then◌else◌,
}

-- The thresholds of ResponseTime; the pointers Badge and ResponseTime are options.
pub record Ui : Type 0 where
  pub hide_conditions : Bool
  pub hide_hostname : Bool
  pub hide_url : Bool
  pub hide_port : Bool
  pub hide_errors : Bool
  pub dont_resolve_failed_conditions : Bool
  pub resolve_successful_conditions : Bool
  pub badge : Option (Option (List ℤ))

-- ui.GetDefaultConfig.
abbrev pub default_ui : Ui
default_ui = record {
  hide_conditions = false;
  hide_hostname = false;
  hide_url = false;
  hide_port = false;
  hide_errors = false;
  dont_resolve_failed_conditions = false;
  resolve_successful_conditions = false;
  badge = some (some (pos 50 ∷ pos 200 ∷ pos 300 ∷ pos 500 ∷ pos 750 ∷ []));
}

pub data UiOutcome : Type 0 where
  ui_valid : Ui → UiOutcome
  err_invalid_badge_response_time_config : UiOutcome
  -- a badge without a response time is a nil pointer that is followed
  ui_panics : UiOutcome

-- The loop over the thresholds: each is at least the one before it.
unfoldable pub is_ascending : List ℤ → Bool
is_ascending [] = true
is_ascending (t ∷ []) = true
is_ascending (t ∷ (u ∷ thresholds)) = not (ltb_ℤ u t) && is_ascending (u ∷ thresholds)

unfoldable pub validate_badge : Ui → Option (Option (List ℤ)) → UiOutcome
unfolding is_ascending
validate_badge ui none = ui_valid (record ui { badge = default_ui.badge })
validate_badge ui (some none) = ui_panics
validate_badge ui (some (some thresholds)) =
    if not (length thresholds == 5)
    then err_invalid_badge_response_time_config
    else if not (is_ascending thresholds)
    then err_invalid_badge_response_time_config
    else ui_valid ui

-- ui.ValidateAndSetDefaults.
unfoldable pub validate_ui : Ui → UiOutcome
unfolding validate_badge
validate_ui ui = validate_badge ui ui.badge

pub record Dns : Type 0 where
  pub query_type : Text
  pub query_name : Text

pub data DnsError : Type 0 where
  err_dns_with_no_query_name : DnsError
  err_dns_with_invalid_query_type : DnsError

-- dns.ValidateAndSetDefault, for the query types that the DNS library knows: the settings as they
-- are left, and the error.
unfoldable pub validate_dns : (Text → Bool) → Dns → Dns × Option DnsError
validate_dns is_query_type d =
    if length d.query_name == 0
    then (d, some err_dns_with_no_query_name)
    else (let absolute =
          (if has_suffix (codes ".") d.query_name
            then d
            else record d { query_name = d.query_name ++ codes "." }) in
        if is_query_type absolute.query_type
        then (absolute, none)
        else (absolute, some err_dns_with_invalid_query_type))

pub record Ssh : Type 0 where
  pub username : Text
  pub password : Text
  pub private_key : Text

pub data SshError : Type 0 where
  err_endpoint_without_ssh_username : SshError
  err_endpoint_without_ssh_auth : SshError

abbrev pub is_empty : Text → Bool
is_empty s = length s == 0

-- Whether only the banner is checked.
abbrev pub has_no_credentials : Ssh → Bool
has_no_credentials s = is_empty s.username && (is_empty s.password && is_empty s.private_key)

-- ssh.Validate.
unfoldable pub validate_ssh : Ssh → Option SshError
validate_ssh s =
    if has_no_credentials s
    then none
    else if is_empty s.username
    then some err_endpoint_without_ssh_username
    else if is_empty s.password && is_empty s.private_key
    then some err_endpoint_without_ssh_auth
    else none
