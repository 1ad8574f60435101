-- ===== src/Watchdog/Alerting/Incidents.antt =====
-- An incident: what streaks of failures and of successes make of an alert's flag
-- (watchdog/alerting.go).
use gatus.Prelude.{
  ℕ, suc, ◌+◌, ◌<◌, ◌≤◌, ◌≡◌, refl, ap, ◌∙◌, true, false, not, ◌&&◌, ◌||◌, some, List, [], ◌∷◌, ℤ,
  pos, add_64, add_64-one, arith, All2, All2-refl, All2-trans, All, length, ltb, half_64, subst,
}
use gatus.Alert
use gatus.Alert.{Alert}
use gatus.Endpoint.{Endpoint, Result}
use gatus.Provider.{Config}
use gatus.Watchdog.Alerting.{Services, handle_alerting}
use gatus.Watchdog.Alerting.Counters.{SameConfig}
use gatus.Watchdog.Alerting.Flags.{IsReliable, is_reached, is_recovered}
use gatus.Watchdog.Alerting.Transitions.{Fires, Recovers, failure-reliable, success_lem}
use gatus.Watchdog.Alerting.Streaks.{run}

-- From `lo` failures in a row to `hi`.
pub record Raised {P : Type 0} (config : Config P) (lo hi : ℕ) (a a' : Alert) : Type 0 where
  pub config_kept : SameConfig a a'
  pub flag : a'.triggered ≡ (a.triggered || (ltb lo hi && is_reached config (pos hi) a))

-- From `lo` successes in a row to `hi`.
pub record Lowered (lo hi : ℕ) (a a' : Alert) : Type 0 where
  pub config_kept : SameConfig a a'
  pub flag : a'.triggered ≡ (a.triggered && not (ltb lo hi && is_recovered (pos hi) a))

SameConfig-trans : (a b c : Alert) → SameConfig a b → SameConfig b c → SameConfig a c
SameConfig-trans a b c p q = ground arith

is_reached-SameConfig :
    {P : Type 0} (config : Config P) (n : ℤ) (a b : Alert)
    → SameConfig a b
    → is_reached config n b ≡ is_reached config n a
unfolding is_reached Alert.is_enabled
is_reached-SameConfig config n a b h = ap (is_reached config n) h

is_recovered-SameConfig :
    (n : ℤ) (a b : Alert) → SameConfig a b → is_recovered n b ≡ is_recovered n a
unfolding is_recovered Alert.is_enabled
is_recovered-SameConfig n a b h = ap (is_recovered n) h

is_reached_mono :
    {P : Type 0} (config : Config P) (m n : ℕ) (a : Alert)
    → m ≤ n
    → is_reached config (pos m) a ≡ true
    → is_reached config (pos n) a ≡ true
unfolding is_reached
is_reached_mono config m n a h k = ground arith

is_recovered_mono :
    (m n : ℕ) (a : Alert) → m ≤ n → is_recovered (pos m) a ≡ true → is_recovered (pos n) a ≡ true
unfolding is_recovered
is_recovered_mono m n a h k = ground arith

move_suc : (m n : ℕ) → suc m + n ≡ m + suc n
move_suc m n = omega arith

Raised-step :
    {P : Type 0} (config : Config P) (f k : ℕ) (a b c : Alert)
    → Fires config (pos (suc f)) a b
    → Raised config (suc f) (suc f + k) b c
    → Raised config f (suc f + k) a c
Raised-step config f k a b c p q = record {
  config_kept = SameConfig-trans a b c p.config_kept q.config_kept;
  flag = ground (
    arith,
    is_reached-SameConfig config (pos (suc f + k)) a b p.config_kept,
    is_reached_mono config (suc f) (suc f + k) a,
  );
}

Lowered-step :
    (n k : ℕ) (a b c : Alert)
    → Recovers (pos (suc n)) a b
    → Lowered (suc n) (suc n + k) b c
    → Lowered n (suc n + k) a c
Lowered-step n k a b c p q = record {
  config_kept = SameConfig-trans a b c p.config_kept q.config_kept;
  flag = ground (
    arith,
    is_recovered-SameConfig (pos (suc n + k)) a b p.config_kept,
    is_recovered_mono (suc n) (suc n + k) a,
  );
}

module _ {W P : Type 0} (s : Services W P) (config : Config P) where
  -- With providers that deliver, after a list of failing results that takes the failures in a row
  -- from `f` to `f + k` (below 2^63), each alert's flag is up exactly if it was up before or, for
  -- k above 0, the alert is enabled, its provider configured and its failure threshold at most
  -- `f + k`. Its configuration is unchanged.
  pub run-raises :
      (results : List Result) (ep : Endpoint) (w : W) (f : ℕ)
      → IsReliable s
      → All (λ r. r.success ≡ false) results
      → ep.number_of_failures_in_a_row ≡ pos f
      → f + length results < half_64
      → All2 (Raised config f (f + length results)) ep.alerts (run s config results ep w).0.alerts
  unfolding run
  run-raises [] ep w f r h hf b =
      All2-refl (Raised config f (f + 0)) (λ a. record { config_kept = refl; flag = ground arith })
        ep.alerts
  run-raises (x ∷ xs) ep w f r h hf b =
      let out = handle_alerting s (some config) x ep w in
      let (after, fired) = failure-reliable s config x ep w h.0 r in
      let f' = ap (λ z. add_64 z (pos 1)) hf ∙ add_64-one f (omega arith) in
      let counted = ap (λ (e : Endpoint). e.number_of_failures_in_a_row) after ∙ f' in
      let rest = run-raises xs out.0 out.1 (suc f) r h.1 counted (omega arith) in
      subst (λ n. All2 (Raised config f n) ep.alerts (run s config xs out.0 out.1).0.alerts)
        (move_suc f (length xs))
        (All2-trans _ _ _ (Raised-step config f (length xs)) _ _ _
          (subst (λ z. All2 (Fires config z) ep.alerts out.0.alerts) f' fired) rest)

  -- After a list of passing results that takes the successes in a row from `n` to `n + k` (below
  -- 2^63), each alert's flag is up exactly if it was up before and, for k above 0, the alert is
  -- disabled or its success threshold is above `n + k`, whatever the providers answer.
  pub run-lowers :
      (results : List Result) (ep : Endpoint) (w : W) (n : ℕ)
      → All (λ r. r.success ≡ true) results
      → ep.number_of_successes_in_a_row ≡ pos n
      → n + length results < half_64
      → All2 (Lowered n (n + length results)) ep.alerts (run s config results ep w).0.alerts
  unfolding run
  run-lowers [] ep w n h hn b =
      All2-refl (Lowered n (n + 0)) (λ a. record { config_kept = refl; flag = ground arith })
        ep.alerts
  run-lowers (x ∷ xs) ep w n h hn b =
      let out = handle_alerting s (some config) x ep w in
      let (after, recovered) = success_lem s config x ep w h.0 in
      let n' = ap (λ z. add_64 z (pos 1)) hn ∙ add_64-one n (omega arith) in
      let counted = ap (λ (e : Endpoint). e.number_of_successes_in_a_row) after ∙ n' in
      let rest = run-lowers xs out.0 out.1 (suc n) h.1 counted (omega arith) in
      subst (λ m. All2 (Lowered n m) ep.alerts (run s config xs out.0 out.1).0.alerts)
        (move_suc n (length xs))
        (All2-trans _ _ _ (Lowered-step n (length xs)) _ _ _
          (subst (λ z. All2 (Recovers z) ep.alerts out.0.alerts) n' recovered) rest)
