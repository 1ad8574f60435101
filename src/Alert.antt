-- ===== src/Alert.antt =====
-- An endpoint's alert: alerting/alert/alert.go. An error is a constructor for each of the source's
-- error values. ProviderOverride, which only the providers read, is left out.
pub mod Validation
use gatus.Prelude.{
  ℕ, ◌+◌, ◌*◌, Bool, true, false, not, ◌&&◌, ◌||◌, Option, none, some, List, [], ◌∷◌, ◌++◌, ◌==◌, ℤ,
  pos, negsuc, leb_ℤ, ltb_ℤ, Text, if◌then◌else◌, codes,
}
use gatus.Clock.{Duration, minute}

pub record Alert : Type 0 where
  pub alert_type : Text
  pub enabled : Option Bool
  pub failure_threshold : ℤ
  pub success_threshold : ℤ
  pub minimum_reminder_interval : Duration
  pub description : Option Text
  pub send_on_resolved : Option Bool
  pub resolve_key : Text
  pub triggered : Bool

pub data AlertError : Type 0 where
  err_alert_with_invalid_description : AlertError
  err_alert_with_invalid_minimum_reminder_interval : AlertError

-- alert.GetDescription.
unfoldable pub get_description : Alert → Text
get_description alert = elim alert.description [ none ↦ [] | some description ↦ description ]

-- alert.IsEnabled.
unfoldable pub is_enabled : Alert → Bool
is_enabled alert = elim alert.enabled [ none ↦ true | some enabled ↦ enabled ]

-- alert.IsSendingOnResolved.
unfoldable pub is_sending_on_resolved : Alert → Bool
is_sending_on_resolved alert = elim alert.send_on_resolved [ none ↦ false | some send ↦ send ]

-- strings.ContainsAny(s, "\"\\").
unfoldable pub contains_quote_or_backslash : Text → Bool
contains_quote_or_backslash [] = false
contains_quote_or_backslash (c ∷ s) = c == 34 || c == 92 || contains_quote_or_backslash s

-- alert.ValidateAndSetDefaults: the alert as it is left, and the error.
abbrev is_nonzero : ℤ → Bool
is_nonzero (pos n) = not (n == 0)
is_nonzero (negsuc n) = true

unfoldable pub validate_and_set_defaults : Alert → Alert × Option AlertError
unfolding get_description
validate_and_set_defaults alert =
    let a =
      (if leb_ℤ alert.failure_threshold (pos 0)
        then record alert { failure_threshold = pos 3 }
        else alert) in
    let b =
      (if leb_ℤ a.success_threshold (pos 0) then record a { success_threshold = pos 2 } else a) in
    if is_nonzero b.minimum_reminder_interval
      && ltb_ℤ b.minimum_reminder_interval (pos (5 * minute))
    then (b, some err_alert_with_invalid_minimum_reminder_interval)
    else if contains_quote_or_backslash (get_description b)
    then (b, some err_alert_with_invalid_description)
    else (b, none)
