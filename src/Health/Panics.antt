-- ===== src/Health/Panics.antt =====
-- When EvaluateHealth of config/endpoint/endpoint.go panics.
use gatus.Prelude.{
  codes, ◌++◌, ap, ◌∙◌, subst, Bool, false, ◌≡◌, ◌≢◌, ◌⊎◌, refl, true, Bool-cases, Option-cases,
  inl, inr, Option, none, some, List, [], ◌∷◌, Text, length, ◌==◌, arith,
}
use mathlib.Core.List.{Memᴰ}
use mathlib.Core.List.Memᴰ.{head, tail}
use gatus.Clock.{Time}
use gatus.Settings.{Ui, has_no_credentials}
use gatus.Endpoint.{Endpoint, Result, empty_result, add_error}
use gatus.Gontext.{Fields}
use gatus.JsonPath.{Json}
use gatus.Condition.{Library}
use gatus.Condition.Evaluation.{evaluate}
use gatus.Condition.Outcome.{OperandPanics, evaluate-notes, evaluate-panics}
use gatus.Health.{
  EndpointType, type_dns, type_tcp, type_sctp, type_udp, type_icmp, type_starttls, type_tls,
  type_http, type_grpc, type_ws, type_ssh, type_unknown, type_of_url, endpoint_type,
}
use gatus.Health.Client.{Client}
use gatus.Health.Call.{call_typed, call_by_type, call}
use gatus.Health.Evaluation.{
  Network, evaluate_conditions, after_condition, note_host, look_up, call_if_clean, finish,
  evaluate_processed, evaluate_health_with_context, evaluate_health,
}

add_error-body : (result : Result) (e : Text) → (add_error result e).body ≡ result.body
unfolding add_error
add_error-body result e = ground arith

-- A condition leaves the body as it is.
noted-body :
    (go : Library) (condition : Text) (result : Result) (p q : Bool) (context : Option Fields)
    (after : Result) (success : Bool)
    → evaluate go condition result p q context ≡ some (after, success)
    → (after_condition after success).body ≡ result.body
noted-body go condition result p q context after success h =
    unchanged success ∙ elim (evaluate-notes go condition result p q context after success h) [
      | inl (display, valid, same) ↦ ap (λ (r : Result). r.body) same
      | inr (missing, failure, same) ↦
          ap (λ (r : Result). r.body) same
          ∙ add_error-body result (codes "invalid condition: " ++ condition)
    ]
  where
    unchanged : (b : Bool) → (after_condition after b).body ≡ after.body
    unchanged true = refl
    unchanged false = refl

-- An operand of one of the conditions has a JSON path that makes the walk of the body panic.
abbrev pub SomeOperandPanics : Json → Text → List Text → Type 0
SomeOperandPanics j body conditions =
    (condition : Text) × Memᴰ condition conditions × OperandPanics j body condition

conditions-panics :
    (go : Library) (ui : Ui) (context : Option Fields) (conditions : List Text) (result : Result)
    → evaluate_conditions go ui context conditions result ≡ none
    → SomeOperandPanics go.json result.body conditions
unfolding evaluate_conditions
conditions-panics go ui context [] result h = absurd (ground arith)
conditions-panics go ui context (c ∷ conditions) result h =
    elim (Option-cases (
      evaluate go c result ui.dont_resolve_failed_conditions ui.resolve_successful_conditions
        context)) [
          | inl stuck ↦ (
            c,
            head refl,
            evaluate-panics go c result ui.dont_resolve_failed_conditions
                ui.resolve_successful_conditions context stuck,
          )
          | inr ((after, success), there) ↦
              let (d, later, bad) =
                conditions-panics go ui context conditions (after_condition after success)
                  (ground (arith, there)) in
              (
                d,
                tail later,
                subst (λ (body : Text). OperandPanics go.json body d)
                    (noted-body go c result ui.dont_resolve_failed_conditions
                      ui.resolve_successful_conditions context after success there)
                    bad,
              )
        ]

url-ne-dns : (url : Text) → type_of_url url ≢ type_dns
unfolding type_of_url
url-ne-dns url h = ground arith

from_settings : (e : Endpoint) → endpoint_type e ≡ type_dns → e.dns_config ≢ none
unfolding endpoint_type
from_settings e h missing = url-ne-dns e.url (ground (arith, missing))

module _ {W : Type 0} (client : Client W) where
  call_ssh-ne-none :
      (e : Endpoint) (start : Time) (result : Result) (w : W)
      → (call_typed client type_ssh e start result w).0 ≢ none
  unfolding call_typed
  call_ssh-ne-none e start result w h = elim (Option-cases e.ssh_config) [
    | inl missing ↦ ground (arith, missing)
    | inr (ssh, there) ↦ elim (Bool-cases (has_no_credentials ssh)) [
      | inl banner ↦ ground (arith, there, banner)
      | inr full ↦ ground (arith, there, full)
    ]
  ]

  -- A call panics only for an unknown type of endpoint.
  call_by_type-panics :
      (t : EndpointType) (e : Endpoint) (result : Result) (w : W)
      → (t ≡ type_dns → e.dns_config ≢ none)
      → (call_by_type client t e result w).0 ≡ none
      → t ≡ type_unknown
  unfolding call_by_type call_typed
  call_by_type-panics type_unknown e result w d h = refl
  call_by_type-panics type_dns e result w d h = elim (Option-cases e.dns_config) [
    | inl missing ↦ absurd (d refl missing)
    | inr (dns, there) ↦ absurd (ground (arith, there))
  ]
  call_by_type-panics type_ssh e result w d h =
      absurd (call_ssh-ne-none e (client.now w).0 result (client.now w).1 h)
  call_by_type-panics type_tcp e result w d h = absurd (ground arith)
  call_by_type-panics type_sctp e result w d h = absurd (ground arith)
  call_by_type-panics type_udp e result w d h = absurd (ground arith)
  call_by_type-panics type_icmp e result w d h = absurd (ground arith)
  call_by_type-panics type_starttls e result w d h = absurd (ground arith)
  call_by_type-panics type_tls e result w d h = absurd (ground arith)
  call_by_type-panics type_http e result w d h = absurd (ground arith)
  call_by_type-panics type_grpc e result w d h = absurd (ground arith)
  call_by_type-panics type_ws e result w d h = absurd (ground arith)

  call-panics :
      (e : Endpoint) (result : Result) (w : W)
      → (call client e result w).0 ≡ none
      → endpoint_type e ≡ type_unknown
  unfolding call endpoint_type
  call-panics e result w h = call_by_type-panics (endpoint_type e) e result w (from_settings e) h

module _ {W : Type 0} (net : Network W) where
  call_if_clean-panics :
      (e : Endpoint) (result : Result) (w : W)
      → (call_if_clean net e result w).0 ≡ none
      → endpoint_type e ≡ type_unknown
  unfolding call_if_clean
  call_if_clean-panics e result w h = elim (Bool-cases (length result.errors == 0)) [
    | inl clean ↦ call-panics net.client e result w (ground (arith, clean))
    | inr dirty ↦ absurd (ground (arith, dirty))
  ]

  -- What EvaluateHealth has after the call of the endpoint, in front of the conditions.
  pub called : Endpoint → W → Option Result × W
  called e w =
      let (r, w') = look_up net e (note_host net e (record empty_result { success = true })) w in
      call_if_clean net e r w'

  -- After the call, an operand of one of the endpoint's conditions has a JSON path that makes the
  -- walk of the body that the call received panic.
  abbrev pub BodyPanics : Endpoint → W → Type 0
  BodyPanics e w =
      (result : Result) × ((called e w).0 ≡ some result)
      × SomeOperandPanics net.go.json result.body e.conditions

  finish-panics :
      (e : Endpoint) (ui : Ui) (context : Option Fields) (o : Option Result) (w : W)
      → e.ui_config ≡ some ui
      → (finish net e context (o, w)).0 ≡ none
      → (o ≡ none)
        ⊎ ((result : Result) × (o ≡ some result)
            × SomeOperandPanics net.go.json result.body e.conditions)
  unfolding finish
  finish-panics e ui context none w u h = inl refl
  finish-panics e ui context (some result) w u h =
      elim (Option-cases (evaluate_conditions net.go ui context e.conditions result)) [
        | inl stuck ↦
            inr (result, refl, conditions-panics net.go ui context e.conditions result stuck)
        | inr (judged, there) ↦ absurd (ground (arith, u, there))
      ]

  -- With its UI settings, an endpoint's evaluation panics only where its type is unknown or where
  -- an operand of its conditions makes the walk of the body panic: otherwise it returns a result.
  pub evaluate_health-panics :
      (e : Endpoint) (ui : Ui) (w : W)
      → e.ui_config ≡ some ui
      → (evaluate_health net e w).0 ≡ none
      → (endpoint_type e ≡ type_unknown) ⊎ BodyPanics e w
  unfolding evaluate_health evaluate_health_with_context evaluate_processed called
  evaluate_health-panics e ui w u h =
      let (r, w') = look_up net e (note_host net e (record empty_result { success = true })) w in
      let (o, w'') = call_if_clean net e r w' in
      elim (finish-panics e ui none o w'' u h) [
        | inl stuck ↦ inl (call_if_clean-panics e r w' stuck)
        | inr bad ↦ inr bad
      ]
