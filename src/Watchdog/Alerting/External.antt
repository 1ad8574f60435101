-- ===== src/Watchdog/Alerting/External.antt =====
-- Reminders of external endpoints: the endpoint that ToEndpoint makes for each pushed result
-- carries no time of a last reminder.
use gatus.Prelude.{◌≤◌, ◌≡◌, true, pos, ◌<ℤ◌, Is64, half_64, arith}
use gatus.Clock.{sub-zero}
use gatus.Alert.{Alert}
use gatus.Endpoint.{ExternalEndpoint, Result, to_endpoint}
use gatus.Provider.{Config}
use gatus.Watchdog.Alerting.{Services, reminder_due}

-- For an endpoint converted from an external one, a triggered alert with a positive reminder
-- interval has a reminder due at every instant from 292 years after year 1 on, however recently a
-- reminder was sent: the interval is never waited for.
pub external_reminder_due :
    {W P : Type 0} (s : Services W P) (config : Config P) (result : Result) (ee : ExternalEndpoint)
    (a : Alert) (w : W)
    → a.triggered ≡ true
    → pos 0 <ℤ a.minimum_reminder_interval
    → Is64 a.minimum_reminder_interval
    → half_64 ≤ (s.now w).0
    → (reminder_due s config result (to_endpoint ee).last_reminder_sent a w).0 ≡ true
unfolding reminder_due to_endpoint
external_reminder_due s config result ee a w up positive fits late =
    ground (arith, sub-zero (s.now w).0 a.minimum_reminder_interval late fits)
