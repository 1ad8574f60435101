-- ===== src/Health/Evaluation.antt =====
-- EvaluateHealthWithContext of config/endpoint/endpoint.go. Parsing a URL and the lookups over the
-- network are parameters beside those of the call. A panic is `none`.
use gatus.Prelude.{
  Bool, true, false, ◌&&◌, Option, none, some, List, [], ◌∷◌, ◌++◌, map, ◌⊎◌, inl, inr, Text, codes,
  trim_prefix, trim_suffix, replace_all, length, ltb, if◌then◌else◌, ◌==◌,
}
use gatus.Clock.{Duration}
use gatus.Settings.{Ui}
use gatus.Endpoint.{Endpoint, Result, empty_result, add_error}
use gatus.Gontext.{Fields}
use gatus.Condition.{Library}
use gatus.Condition.Evaluation.{evaluate}
use gatus.Health.{
  EndpointType, type_icmp, endpoint_type, needs_to_retrieve_ip, needs_to_retrieve_domain_expiration,
  note_failure, preprocess_with_context,
}
use gatus.Health.Client.{Client}
use gatus.Health.Call.{call}

pub record Network (W : Type 0) : Type 0 where
  pub go : Library
  pub client : Client W
  -- url.Parse: the error, or the host name and the port
  pub parse_url : Text → Text ⊎ (Text × Text)
  -- net.LookupIP: the error, or the first address
  pub lookup_ip : Text → W → (Text ⊎ Text) × W
  -- client.GetDomainExpiration: the duration with the error
  pub get_domain_expiration : Text → W → (Duration × Option Text) × W

-- Whether a type of endpoint is ICMP.
unfoldable pub is_icmp : EndpointType → Bool
is_icmp type_icmp = true
is_icmp t = false

-- strings.ReplaceAll(error, secret, "<redacted>"): an empty text is found in front of every byte
-- and at the end.
unfoldable pub redact : Text → Text → Text
redact [] [] = codes "<redacted>"
redact [] (c ∷ error) = codes "<redacted>" ++ c ∷ redact [] error
redact (d ∷ secret) error = replace_all (d ∷ secret) (codes "<redacted>") error

abbrev pub redact_errors : Text → Result → Result
redact_errors secret result = record result { errors = map (redact secret) result.errors }

-- What is not to be shown, taken from the result in the order of the source.
unfoldable pub hide_url : Ui → Text → Result → Result
hide_url ui url result = if ui.hide_url then redact_errors url result else result

unfoldable pub hide_hostname : Ui → Result → Result
hide_hostname ui result =
    if ui.hide_hostname
    then record (redact_errors result.hostname result) { hostname = [] }
    else result

unfoldable pub hide_port : Ui → Result → Result
hide_port ui result =
    if ui.hide_port && ltb 0 (length result.port)
    then record (redact_errors result.port result) { port = [] }
    else result

unfoldable pub hide_errors : Ui → Result → Result
hide_errors ui result = if ui.hide_errors then record result { errors = [] } else result

unfoldable pub hide_conditions : Ui → Result → Result
hide_conditions ui result =
    if ui.hide_conditions then record result { condition_results = [] } else result

unfoldable pub clean_up : Ui → Text → Result → Result
unfolding hide_url hide_hostname hide_port hide_errors hide_conditions
clean_up ui url result =
    hide_conditions ui (hide_errors ui (hide_port ui (hide_hostname ui (hide_url ui url result))))

-- The result after a condition, which a failure makes unsuccessful.
abbrev pub after_condition : Result → Bool → Result
after_condition result success = if success then result else record result { success = false }

module _ (go : Library) (ui : Ui) (context : Option Fields) where
  -- The loop over the conditions.
  unfoldable pub evaluate_conditions : List Text → Result → Option Result
  evaluate_conditions [] result = some result
  evaluate_conditions (c ∷ conditions) result =
      elim (evaluate go c result ui.dont_resolve_failed_conditions ui.resolve_successful_conditions
        context) [
          | none ↦ none
          | some (after, success) ↦ evaluate_conditions conditions (after_condition after success)
        ]

module _ {W : Type 0} (net : Network W) where
  -- The host name of the endpoint.
  unfoldable pub note_host : Endpoint → Result → Result
  unfolding is_icmp
  note_host e result = elim e.dns_config [
    | some d ↦ record result { hostname = trim_suffix (codes ":53") e.url }
    | none ↦
        if is_icmp (endpoint_type e)
        then record result { hostname = trim_prefix (codes "icmp://") e.url }
        else elim (net.parse_url e.url) [
          | inl error ↦ add_error result error
          | inr (host, port) ↦ record result { hostname = host; port = port }
        ]
  ]

  -- getIP.
  unfoldable pub get_ip : Result → W → Result × W
  get_ip result w =
      let (answer, w') = net.lookup_ip result.hostname w in
      (elim answer [ inl error ↦ add_error result error | inr ip ↦ record result { ip = ip } ], w')

  unfoldable pub get_domain : Result → W → Result × W
  get_domain result w =
      let ((expiration, failure), w') = net.get_domain_expiration result.hostname w in
      (note_failure (record result { domain_expiration = expiration }) failure, w')

  -- What is looked up before the call.
  unfoldable pub look_up : Endpoint → Result → W → Result × W
  unfolding get_ip get_domain
  look_up e result w =
      let (r, w') = if needs_to_retrieve_ip e then get_ip result w else (result, w) in
      if needs_to_retrieve_domain_expiration e && ltb 0 (length r.hostname)
      then get_domain r w'
      else (r, w')

  -- The call, if there are no errors.
  unfoldable pub call_if_clean : Endpoint → Result → W → Option Result × W
  call_if_clean e result w =
      if length result.errors == 0
      then call net.client e result w
      else (some (record result { success = false }), w)

  -- The conditions, the time and what is hidden, for the UI settings, without which it panics.
  unfoldable pub finish : Endpoint → Option Fields → Option Result × W → Option Result × W
  unfolding evaluate_conditions clean_up
  finish e context (none, w) = (none, w)
  finish e context (some result, w) = elim e.ui_config [
    | none ↦ (none, w)
    | some ui ↦ elim (evaluate_conditions net.go ui context e.conditions result) [
      | none ↦ (none, w)
      | some judged ↦
          let (time, w') = net.client.now w in
          (some (clean_up ui e.url (record judged { timestamp = time })), w')
    ]
  ]

  -- EvaluateHealthWithContext behind the preprocessing.
  unfoldable pub evaluate_processed : Endpoint → Option Fields → Result → W → Option Result × W
  unfolding look_up call_if_clean finish note_host
  evaluate_processed e context result w =
      let (r, w') = look_up e (note_host e result) w in finish e context (call_if_clean e r w')

  -- EvaluateHealthWithContext.
  unfoldable pub evaluate_health_with_context : Endpoint → Option Fields → W → Option Result × W
  unfolding evaluate_processed
  evaluate_health_with_context e none w =
      evaluate_processed e none (record empty_result { success = true }) w
  evaluate_health_with_context e (some ctx) w =
      let (processed, result) =
        preprocess_with_context net.go.json e (record empty_result { success = true }) ctx in
      evaluate_processed processed (some ctx) result w

  -- EvaluateHealth.
  unfoldable pub evaluate_health : Endpoint → W → Option Result × W
  unfolding evaluate_health_with_context
  evaluate_health e w = evaluate_health_with_context e none w
