-- ===== src/Sync/Recovery/Breaker.antt =====
-- internal/sync/recovery.go: `CircuitBreaker`, which is not the one of internal/retry. A section under
-- the lock is one function; a clock reading is an argument.
pub mod Safety
use agent_brain.Base.{ℕ, zero, suc, Bool, true, false, ◌&&◌, if◌then◌else◌}
use agent_brain.Base.Int.{ℤ, pos, ◌-ℤ◌, ltb_ℤ, leb_ℤ}
use agent_brain.Base.Bytes.{Bytes}
use agent_brain.Retry.Errors.{State, closed, opened, half_open}
use agent_brain.Retry.Breaker.{is_open, is_half_open}

pub record CircuitBreaker : Type 0 where
  pub name : Bytes
  pub max_failures : ℤ
  pub reset_timeout : ℤ
  pub state : State
  pub failures : ℕ
  pub last_failure_time : ℤ

unfoldable pub new_circuit_breaker : Bytes → ℤ → ℤ → CircuitBreaker
new_circuit_breaker name max_failures reset_timeout = record {
  name = name;
  max_failures = max_failures;
  reset_timeout = reset_timeout;
  state = closed;
  failures = 0;
  last_failure_time = pos 0;
}

-- `time.Since(cb.lastFailureTime) > cb.resetTimeout`
unfoldable pub timed_out : ℤ → CircuitBreaker → Bool
timed_out now cb = ltb_ℤ cb.reset_timeout (now -ℤ cb.last_failure_time)

-- The section of `canExecute` under the write lock.
unfoldable pub try_half_open : ℤ → CircuitBreaker → CircuitBreaker
unfolding timed_out
try_half_open now cb =
    if is_open cb.state && timed_out now cb then record cb { state = half_open } else cb

-- `canExecute`: the switch on the state. The clock is read once for the test, and again under the
-- write lock.
module _ {W : Type 0} (now : W → ℤ × W) where
  unfoldable pub admit : State → CircuitBreaker → W → Bool × CircuitBreaker × W
  unfolding timed_out try_half_open
  admit closed cb w = (true, cb, w)
  admit half_open cb w = (true, cb, w)
  admit opened cb w =
      let (t, w') = now w in
      let (t', w'') = now w' in
      if timed_out t cb
      then (is_half_open (try_half_open t' cb).state, try_half_open t' cb, w'')
      else (false, cb, w')

  unfoldable pub can_execute : CircuitBreaker → W → Bool × CircuitBreaker × W
  unfolding admit
  can_execute cb w = admit cb.state cb w

unfoldable pub record_failure : ℤ → CircuitBreaker → CircuitBreaker
record_failure now cb =
    let failures = suc cb.failures in
    record cb {
      failures = failures;
      last_failure_time = now;
      state = if leb_ℤ cb.max_failures (pos failures) then opened else cb.state;
    }

unfoldable pub record_success : CircuitBreaker → CircuitBreaker
record_success cb = record cb {
  failures = 0;
  state = if is_half_open cb.state then closed else cb.state;
}
