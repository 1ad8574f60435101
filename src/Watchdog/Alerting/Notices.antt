-- ===== src/Watchdog/Alerting/Notices.antt =====
-- Which notifications HandleAlerting sends, in which order: the services are wrapped so that each
-- call of a provider is noted.
use mathlib.Core.List.{append_assoc, append-nil}
use gatus.Prelude.{
  ◌≡◌, refl, sym, ap, ◌∙◌, Bool, true, false, not, ◌&&◌, ◌||◌, Option, none, some, List, [], ◌∷◌,
  ◌++◌, ℤ, pos, add_64, arith, ltb_ℤ, leb_ℤ, if◌then◌else◌, text_eq, codes,
}
use gatus.Clock.{Time, sub}
use gatus.Alert.{Alert, is_sending_on_resolved}
use gatus.Endpoint.{Endpoint, Result}
use gatus.Provider.{Config}
use gatus.Watchdog.Alerting.{
  Services, trigger_alert, trigger_alerts, handle_alerts_to_trigger, resolve_alert, resolve_alerts,
  handle_alerts_to_resolve, handle_alerting,
}
use gatus.Watchdog.Alerting.Counters.{trigger_alert-endpoint, resolve_alert-endpoint}
use gatus.Watchdog.Alerting.Transitions.{on_failure, on_success}
use gatus.Watchdog.Alerting.Flags.{is_reached, is_recovered, is_configured}

-- A call of provider.Send: its alert and whether it says that the alert is resolved.
pub record Notice : Type 0 where
  pub alert : Alert
  pub resolved : Bool

-- The same services, noting the calls of the providers.
unfoldable pub recorded : {W P : Type 0} → Services W P → Services (W × List Notice) P
recorded s = record {
  now = λ v. ((s.now v.0).0, ((s.now v.0).1, v.1));
  getenv = λ name v. s.getenv name v.0;
  send = λ p ep a r b v.
      let sent = s.send p ep a r b v.0 in
      (sent.0, (sent.1, v.1 ++ record { alert = a; resolved = b } ∷ []));
  upsert = λ ep a v. let done = s.upsert ep a v.0 in (done.0, (done.1, v.1));
  delete = λ ep a v. let done = s.delete ep a v.0 in (done.0, (done.1, v.1));
}

pub opt_list {ℓ} : {A : Type ℓ} → Option A → List A
opt_list none = []
opt_list (some a) = a ∷ []

-- The notices of the alerts in order.
unfoldable pub notices : (Alert → Option Notice) → List Alert → List Notice
unfolding opt_list
notices f [] = []
notices f (a ∷ rest) = opt_list (f a) ++ notices f rest

-- The notice of a resolved alert, which is sent with its flag already lowered.
unfoldable pub resolve_notice : {P : Type 0} → Config P → ℤ → Alert → Option Notice
resolve_notice config successes a =
    if (a.triggered && is_recovered successes a)
      && (is_sending_on_resolved a && is_configured config a)
    then some (record { alert = record a { triggered = false }; resolved = true })
    else none

-- The notice of an alert at the instant `t`: the first one, or a reminder that is due.
unfoldable pub trigger_notice : {P : Type 0} → Config P → ℤ → Time → Time → Alert → Option Notice
trigger_notice config failures t last a =
    if is_reached config failures a
      && (not a.triggered
          || (ltb_ℤ (pos 0) a.minimum_reminder_interval
              && leb_ℤ a.minimum_reminder_interval (sub t last)))
    then some (record { alert = a; resolved = false })
    else none

-- A turn's notice, then those of the rest.
joined :
    (log : List Notice) (rest : List Notice) {log' : List Notice} {o o' : Option Notice}
    → log' ≡ log ++ opt_list o
    → o ≡ o'
    → log' ++ rest ≡ log ++ (opt_list o' ++ rest)
joined log rest {o} p q =
    ap (λ l. l ++ rest) p
    ∙ (append_assoc log (opt_list o) rest ∙ ap (λ x. log ++ (opt_list x ++ rest)) q)

module _ {W P : Type 0} (s : Services W P) (config : Config P) (result : Result) where
  resolve_alert-notice :
      (with_alert : Alert → Endpoint → Endpoint) (a : Alert) (ep : Endpoint) (w : W × List Notice)
      → (resolve_alert (recorded s) config result with_alert a ep w).world.1
        ≡ w.1 ++ opt_list (resolve_notice config ep.number_of_successes_in_a_row a)
  unfolding resolve_alert recorded resolve_notice opt_list is_recovered is_sending_on_resolved
  resolve_alert-notice with_alert a ep w = ground (arith, append-nil w.1)

  trigger_alert-notice :
      (t : Time)
      → ((w : W) → (s.now w).0 ≡ t)
      → ((w : W) → text_eq (s.getenv (codes "MOCK_ALERT_PROVIDER") w) (codes "true") ≡ false)
      → (last : Time) (with_alert : Alert → Endpoint → Endpoint) (a : Alert) (ep : Endpoint)
        (w : W × List Notice)
      → (trigger_alert (recorded s) config result last with_alert a ep w).world.1
        ≡ w.1 ++ opt_list (trigger_notice config ep.number_of_failures_in_a_row t last a)
  unfolding trigger_alert recorded trigger_notice opt_list is_reached
  trigger_alert-notice t clock mock last with_alert a ep w =
      ground (arith, append-nil w.1, clock w.0, mock w.0, mock (s.now w.0).1)

  resolve_alerts-notices :
      (successes : ℤ) (done rest : List Alert) (ep : Endpoint) (w : W × List Notice)
      → ep.number_of_successes_in_a_row ≡ successes
      → (resolve_alerts (recorded s) config result done rest ep w).1.1
        ≡ w.1 ++ notices (resolve_notice config successes) rest
  unfolding resolve_alerts notices
  resolve_alerts-notices n done [] ep w h = sym (append-nil w.1)
  resolve_alerts-notices n done (a ∷ rest) ep w h =
      let with_alert : Alert → Endpoint → Endpoint =
        λ a' ep'. record ep' { alerts = done ++ a' ∷ rest } in
      let turn = resolve_alert (recorded s) config result with_alert a ep w in
      let same = resolve_alert-endpoint (recorded s) config result with_alert a ep w in
      let later =
        resolve_alerts-notices n (done ++ turn.alert ∷ []) rest turn.endpoint turn.world
          (ap (λ (e : Endpoint). e.number_of_successes_in_a_row) same ∙ h) in
      later
      ∙ joined w.1 _ (resolve_alert-notice with_alert a ep w)
          (ap (λ z. resolve_notice config z a) h)

  trigger_alerts-notices :
      (t : Time)
      → ((w : W) → (s.now w).0 ≡ t)
      → ((w : W) → text_eq (s.getenv (codes "MOCK_ALERT_PROVIDER") w) (codes "true") ≡ false)
      → (failures : ℤ) (last : Time) (done rest : List Alert) (ep : Endpoint) (w : W × List Notice)
      → ep.number_of_failures_in_a_row ≡ failures
      → (trigger_alerts (recorded s) config result last done rest ep w).1.1
        ≡ w.1 ++ notices (trigger_notice config failures t last) rest
  unfolding trigger_alerts notices
  trigger_alerts-notices t clock mock n last done [] ep w h = sym (append-nil w.1)
  trigger_alerts-notices t clock mock n last done (a ∷ rest) ep w h =
      let with_alert : Alert → Endpoint → Endpoint =
        λ a' ep'. record ep' { alerts = done ++ a' ∷ rest } in
      let turn = trigger_alert (recorded s) config result last with_alert a ep w in
      let same = trigger_alert-endpoint (recorded s) config result last with_alert a ep w in
      let later =
        trigger_alerts-notices t clock mock n last (done ++ turn.alert ∷ []) rest turn.endpoint
          turn.world (ap (λ (e : Endpoint). e.number_of_failures_in_a_row) same ∙ h) in
      later
      ∙ joined w.1 _ (trigger_alert-notice t clock mock last with_alert a ep w)
          (ap (λ z. trigger_notice config z t last a) h)

  -- On a passing result one resolved notice is sent for each alert whose flag is up, that is
  -- enabled and has reached its success threshold, that asks for it and whose provider is
  -- configured; in the order of the alerts, and no other notice.
  pub success-notices :
      (ep : Endpoint) (w : W) (log : List Notice)
      → result.success ≡ true
      → (handle_alerting (recorded s) (some config) result ep (w, log)).1.1
        ≡ log
          ++ notices
              (resolve_notice config (add_64 ep.number_of_successes_in_a_row (pos 1)))
              ep.alerts
  unfolding handle_alerts_to_resolve
  success-notices ep w log h =
      ap (λ (out : Endpoint × (W × List Notice)). out.1.1)
        (sym (on_success (recorded s) config result ep (w, log) h))
      ∙ (resolve_alerts-notices _ [] ep.alerts _ (w, log) refl)

  -- On a failing result at an instant `t`, one notice is sent for each alert that is enabled, has
  -- a configured provider and has reached its failure threshold, and whose flag is down or whose
  -- reminder interval is positive and has passed since the endpoint's last reminder; in the order
  -- of the alerts, and no other notice. All alerts of the endpoint are measured against the time
  -- of the last reminder before this result, so that one alert's reminder does not hold back
  -- another's. The clock shows `t`, and the environment's MOCK_ALERT_PROVIDER is not true.
  pub failure-notices :
      (t : Time)
      → ((w : W) → (s.now w).0 ≡ t)
      → ((w : W) → text_eq (s.getenv (codes "MOCK_ALERT_PROVIDER") w) (codes "true") ≡ false)
      → (ep : Endpoint) (w : W) (log : List Notice) → result.success ≡ false
      → (handle_alerting (recorded s) (some config) result ep (w, log)).1.1
        ≡ log
          ++ notices
              (trigger_notice config
                (add_64 ep.number_of_failures_in_a_row (pos 1))
                t
                ep.last_reminder_sent)
              ep.alerts
  unfolding handle_alerts_to_trigger
  failure-notices t clock mock ep w log h =
      ap (λ (out : Endpoint × (W × List Notice)). out.1.1)
        (sym (on_failure (recorded s) config result ep (w, log) h))
      ∙ (trigger_alerts-notices t clock mock _ _ [] ep.alerts _ (w, log) refl)
