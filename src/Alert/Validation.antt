-- ===== src/Alert/Validation.antt =====
-- What a validated alert guarantees to the watchdog.
use gatus.Prelude.{◌*◌, ◌≡◌, ◌⊎◌, ◌↔◌, false, none, arith, pos, ◌≤ℤ◌, ◌<ℤ◌}
use gatus.Clock.{minute}
use gatus.Alert.{Alert, validate_and_set_defaults, get_description, contains_quote_or_backslash}

interval_ok :
    (a : Alert)
    → (validate_and_set_defaults a).1 ≡ none
    → (a.minimum_reminder_interval ≡ pos 0) ⊎ (pos (5 * minute) ≤ℤ a.minimum_reminder_interval)
unfolding validate_and_set_defaults
interval_ok a h = ground arith

-- Validation succeeds exactly when the reminder interval is absent or at least five minutes long
-- and the description holds neither a quote nor a backslash.
pub validate-ok_iff :
    (a : Alert)
    → ((validate_and_set_defaults a).1 ≡ none) ↔ (
        ((a.minimum_reminder_interval ≡ pos 0) ⊎ (pos (5 * minute) ≤ℤ a.minimum_reminder_interval))
        × (contains_quote_or_backslash (get_description a) ≡ false))
unfolding validate_and_set_defaults
validate-ok_iff a = (λ h. (interval_ok a h, ground arith), λ h. ground arith)

-- Whether or not it succeeds, both thresholds are positive afterwards, and a threshold that was
-- positive is kept; the other fields are untouched.
pub validate-thresholds :
    (a : Alert)
    → let b = (validate_and_set_defaults a).0 in
      (pos 0 <ℤ b.failure_threshold)
      × (pos 0 <ℤ b.success_threshold)
      × (pos 0 <ℤ a.failure_threshold → b.failure_threshold ≡ a.failure_threshold)
      × (pos 0 <ℤ a.success_threshold → b.success_threshold ≡ a.success_threshold)
      × (b.triggered ≡ a.triggered)
      × (b.minimum_reminder_interval ≡ a.minimum_reminder_interval)
unfolding validate_and_set_defaults
validate-thresholds a =
    (ground arith, ground arith, λ h. ground arith, λ h. ground arith, ground arith, ground arith)

-- Validating a second time changes nothing and gives the same verdict.
pub validate_idem :
    (a : Alert)
    → validate_and_set_defaults (validate_and_set_defaults a).0 ≡ validate_and_set_defaults a
unfolding validate_and_set_defaults
validate_idem a = ground arith
