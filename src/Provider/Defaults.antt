-- ===== src/Provider/Defaults.antt =====
-- Layers of default alerts (alerting/provider/provider.go).
use gatus.Prelude.{◌≡◌, refl, sym, Option, none, some, arith, ℤ, pos, negsuc}
use gatus.Alert.{Alert}
use gatus.Provider.{
  or_default, nonzero_or, merge, merge_provider_default_alert_into_endpoint_alert as merge_default,
}

or_default_assoc {ℓ} :
    {A : Type ℓ} (a b c : Option A) → or_default a (or_default b c) ≡ or_default (or_default a b) c
unfolding or_default
or_default_assoc none b c = refl
or_default_assoc (some a) b c = refl

nonzero_or_assoc : (a b c : ℤ) → nonzero_or a (nonzero_or b c) ≡ nonzero_or (nonzero_or a b) c
unfolding nonzero_or
nonzero_or_assoc (pos n) b c = ground arith
nonzero_or_assoc (negsuc n) b c = refl

-- Merging a default `d` into an alert that has already taken the default `e` is merging, once, the
-- default that `e` becomes when it takes `d`: layers of defaults can be combined in any grouping.
pub merge_assoc :
    (d e a : Alert)
    → merge_default (some d) (merge_default (some e) a)
      ≡ merge_default (some (merge_default (some d) e)) a
unfolding merge_default merge
merge_assoc d e a = cc (
  sym (or_default_assoc a.enabled e.enabled d.enabled),
  sym (or_default_assoc a.send_on_resolved e.send_on_resolved d.send_on_resolved),
  sym (or_default_assoc a.description e.description d.description),
  sym (nonzero_or_assoc a.failure_threshold e.failure_threshold d.failure_threshold),
  sym (nonzero_or_assoc a.success_threshold e.success_threshold d.success_threshold),
  sym (
      nonzero_or_assoc a.minimum_reminder_interval e.minimum_reminder_interval
        d.minimum_reminder_interval),
)
