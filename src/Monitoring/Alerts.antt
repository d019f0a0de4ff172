-- ===== src/Monitoring/Alerts.antt =====
-- internal/monitoring/alerting.go: the alert manager. Times are nanoseconds. A channel is a call that
-- may fail; the lock of the manager makes `ProcessAlert` one step. The counts would need 2^63 alerts
-- to wrap, so they are left unbounded.
pub mod Spacing
use agent_brain.Base.{
  ℕ, zero, suc, ◌*◌, Bool, true, false, ◌&&◌, not, Option, none, some, List, [], ◌∷◌, if◌then◌else◌,
  length, ◌==◌,
}
use agent_brain.Base.Int.{ℤ, pos, ◌-ℤ◌, ltb_ℤ}
use agent_brain.Base.Bytes.{Bytes, codes}
use agent_brain.Base.Map.{Map, lookup, insert}
use agent_brain.Retry.Errors.{message, Result, ok, err, is_err}
use agent_brain.Retry.Executor.{Operation}

pub data AlertSeverity : Type 0 where
  info warning critical : AlertSeverity

pub data AlertStatus : Type 0 where
  firing resolved : AlertStatus

-- The health status, which the manager passes on, is left out.
pub record Alert : Type 0 where
  pub id : Bytes
  pub rule_name : Bytes
  pub severity : AlertSeverity
  pub status : AlertStatus
  pub text : Bytes
  pub timestamp : ℤ

pub record AlertState : Type 0 where
  pub last_fired : ℤ
  pub count : ℕ

abbrev pub AlertStates : Type 0
AlertStates = Map AlertState

-- The period that `NewAlertManager` sets, thirty minutes.
abbrev pub cooldown_period : ℤ
cooldown_period = pos (30 * 60000000000)

-- `shouldSuppressAlert`, the clock read at `now`
unfoldable pub should_suppress_alert : ℤ → Alert → AlertStates → Bool
should_suppress_alert now alert states = elim (lookup alert.rule_name states) [
  | none ↦ false
  | some s ↦ ltb_ℤ (now -ℤ s.last_fired) cooldown_period
]

-- The state of a rule after one more alert.
unfoldable pub fired : ℤ → Option AlertState → AlertState
fired timestamp none = record { last_fired = timestamp; count = 1 }
fired timestamp (some s) = record { last_fired = timestamp; count = suc s.count }

unfoldable pub update_state : Alert → AlertStates → AlertStates
update_state alert states =
    insert alert.rule_name (fired alert.timestamp (lookup alert.rule_name states)) states

module _ {W : Type 0} where
  -- The loop over the channels, with the number of those that failed.
  unfoldable pub dispatch : List (Alert → Operation W (Unit {0})) → Alert → W → ℕ × W
  dispatch [] alert w = (0, w)
  dispatch (channel ∷ channels) alert w =
      let (r, w') = channel alert w in
      let (failures, w'') = dispatch channels alert w' in
      (if is_err r then suc failures else failures, w'')

  -- `ProcessAlert`
  unfoldable pub process_alert :
      List (Alert → Operation W (Unit {0}))
      → ℤ
      → Alert
      → AlertStates
      → W
      → Result (Unit {0}) × (AlertStates × W)
  process_alert channels now alert states w =
      let (failures, w') = dispatch channels alert w in
      let all_failed = failures == length channels && not (length channels == 0) in
      if should_suppress_alert now alert states then (ok tt, (states, w)) else (
        if all_failed then err (message (codes "all notification channels failed")) else ok tt,
        (update_state alert states, w'),
      )
