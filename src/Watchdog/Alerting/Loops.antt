-- ===== src/Watchdog/Alerting/Loops.antt =====
-- The two loops over ep.Alerts, from what one turn does.
use mathlib.Core.List.{append_assoc, append-nil}
use gatus.Prelude.{◌≡◌, sym, ap, subst, ◌∙◌, List, [], ◌∷◌, ◌++◌, ℤ, pos, add_64, arith, All2}
use gatus.Clock.{Time}
use gatus.Alert.{Alert}
use gatus.Endpoint.{Endpoint, Result}
use gatus.Provider.{Config}
use gatus.Watchdog.Alerting.{
  Services, trigger_alert, trigger_alerts, handle_alerts_to_trigger, resolve_alert, resolve_alerts,
  handle_alerts_to_resolve,
}
use gatus.Watchdog.Alerting.Counters.{trigger_alert-endpoint, resolve_alert-endpoint}

snoc_append :
    (done : List Alert) (a : Alert) (news : List Alert)
    → (done ++ a ∷ []) ++ news ≡ done ++ a ∷ news
snoc_append done a news = append_assoc done (a ∷ []) news

-- A turn, then the rest of the loop.
glue :
    (ep e out : Endpoint) {xs ys : List Alert}
    → e ≡ record ep { last_reminder_sent = e.last_reminder_sent }
    → out ≡ record e { alerts = xs; last_reminder_sent = out.last_reminder_sent }
    → xs ≡ ys
    → out ≡ record ep { alerts = ys; last_reminder_sent = out.last_reminder_sent }
glue ep e out p q r = ground arith

done_with :
    (ep : Endpoint) (xs : List Alert) → record ep { alerts = xs } ≡ record ep { alerts = xs ++ [] }
done_with ep xs = ap (λ (l : List Alert). record ep { alerts = l }) (sym (append-nil xs))

settle_failures :
    (ep out : Endpoint) {failures f : ℤ} {l : List Alert}
    → out ≡ record ep {
      alerts = l;
      number_of_failures_in_a_row = f;
      number_of_successes_in_a_row = pos 0;
      last_reminder_sent = out.last_reminder_sent;
    }
    → f ≡ failures
    → out ≡ record ep {
      alerts = out.alerts;
      number_of_failures_in_a_row = failures;
      number_of_successes_in_a_row = pos 0;
      last_reminder_sent = out.last_reminder_sent;
    }
settle_failures ep out p q = ground arith

settle_successes :
    (ep out : Endpoint) {successes f : ℤ} {l : List Alert}
    → out ≡ record ep { alerts = l; number_of_successes_in_a_row = f }
    → f ≡ successes
    → record out { number_of_failures_in_a_row = pos 0 } ≡ record ep {
      alerts = out.alerts;
      number_of_failures_in_a_row = pos 0;
      number_of_successes_in_a_row = successes;
    }
settle_successes ep out p q = ground arith

module _ {W P : Type 0} (s : Services W P) (config : Config P) (result : Result) where
  -- What holds of every turn at a count of failures holds of the loop, place by place.
  module _ (R : Alert → Alert → Type 0) (failures : ℤ)
      (step : (last : Time) (with_alert : Alert → Endpoint → Endpoint) (a : Alert) (ep : Endpoint)
          (w : W)
        → ep.number_of_failures_in_a_row ≡ failures
        → R a (trigger_alert s config result last with_alert a ep w).alert) where
    trigger_alerts-All2 :
        (last : Time) (done rest : List Alert) (ep : Endpoint) (w : W)
        → ep.number_of_failures_in_a_row ≡ failures
        → let out = (trigger_alerts s config result last done rest ep w).0 in
          (news : List Alert) × All2 R rest news
          × (out ≡ record ep { alerts = done ++ news; last_reminder_sent = out.last_reminder_sent })
    unfolding trigger_alerts
    trigger_alerts-All2 last done [] ep w h = ([], tt, done_with ep done)
    trigger_alerts-All2 last done (a ∷ rest) ep w h =
        let with_alert : Alert → Endpoint → Endpoint =
          λ a' ep'. record ep' { alerts = done ++ a' ∷ rest } in
        let turn = trigger_alert s config result last with_alert a ep w in
        let same = trigger_alert-endpoint s config result last with_alert a ep w in
        let (news, related, out) =
          trigger_alerts-All2 last (done ++ turn.alert ∷ []) rest turn.endpoint turn.world
            (ap (λ (e : Endpoint). e.number_of_failures_in_a_row) same ∙ h) in
        (
          turn.alert ∷ news,
          (step last with_alert a ep w h, related),
          glue ep turn.endpoint _ same out (snoc_append done turn.alert news),
        )

    pub handle_alerts_to_trigger-All2 :
        (ep : Endpoint) (w : W)
        → add_64 ep.number_of_failures_in_a_row (pos 1) ≡ failures
        → let out = (handle_alerts_to_trigger s config result ep w).0 in
          All2 R ep.alerts out.alerts
          × (out ≡ record ep {
            alerts = out.alerts;
            number_of_failures_in_a_row = failures;
            number_of_successes_in_a_row = pos 0;
            last_reminder_sent = out.last_reminder_sent;
          })
    unfolding handle_alerts_to_trigger
    handle_alerts_to_trigger-All2 ep w h =
        let ep' = record ep {
          number_of_successes_in_a_row = pos 0;
          number_of_failures_in_a_row = add_64 ep.number_of_failures_in_a_row (pos 1);
        } in
        let (news, related, out) = trigger_alerts-All2 ep.last_reminder_sent [] ep.alerts ep' w h in
        (
          subst (λ l. All2 R ep.alerts l) (sym (ap (λ (e : Endpoint). e.alerts) out)) related,
          settle_failures ep _ out h,
        )

  module _ (R : Alert → Alert → Type 0) (successes : ℤ)
      (step : (with_alert : Alert → Endpoint → Endpoint) (a : Alert) (ep : Endpoint) (w : W)
        → ep.number_of_successes_in_a_row ≡ successes
        → R a (resolve_alert s config result with_alert a ep w).alert) where
    resolve_alerts-All2 :
        (done rest : List Alert) (ep : Endpoint) (w : W)
        → ep.number_of_successes_in_a_row ≡ successes
        → let out = (resolve_alerts s config result done rest ep w).0 in
          (news : List Alert) × All2 R rest news × (out ≡ record ep { alerts = done ++ news })
    unfolding resolve_alerts
    resolve_alerts-All2 done [] ep w h = ([], tt, done_with ep done)
    resolve_alerts-All2 done (a ∷ rest) ep w h =
        let with_alert : Alert → Endpoint → Endpoint =
          λ a' ep'. record ep' { alerts = done ++ a' ∷ rest } in
        let turn = resolve_alert s config result with_alert a ep w in
        let same = resolve_alert-endpoint s config result with_alert a ep w in
        let (news, related, out) =
          resolve_alerts-All2 (done ++ turn.alert ∷ []) rest turn.endpoint turn.world
            (ap (λ (e : Endpoint). e.number_of_successes_in_a_row) same ∙ h) in
        (
          turn.alert ∷ news,
          (step with_alert a ep w h, related),
          cc (same, out, snoc_append done turn.alert news),
        )

    pub handle_alerts_to_resolve-All2 :
        (ep : Endpoint) (w : W)
        → add_64 ep.number_of_successes_in_a_row (pos 1) ≡ successes
        → let out = (handle_alerts_to_resolve s config result ep w).0 in
          All2 R ep.alerts out.alerts
          × (out ≡ record ep {
            alerts = out.alerts;
            number_of_failures_in_a_row = pos 0;
            number_of_successes_in_a_row = successes;
          })
    unfolding handle_alerts_to_resolve
    handle_alerts_to_resolve-All2 ep w h =
        let ep' = record ep {
          number_of_successes_in_a_row = add_64 ep.number_of_successes_in_a_row (pos 1);
        } in
        let (news, related, out) = resolve_alerts-All2 [] ep.alerts ep' w h in
        (
          subst (λ l. All2 R ep.alerts l) (sym (ap (λ (e : Endpoint). e.alerts) out)) related,
          settle_successes ep _ out h,
        )
