-- ===== src/Retry/Breaker.antt =====
-- internal/retry/circuit_breaker.go. A method returns the new breaker; a clock reading is an argument
-- of each section that calls `time.Now` or `time.Since`. Times are nanoseconds since Go's zero time,
-- durations are integers. `notices` collects the calls of `onStateChange` that were started, the
-- newest first. The counters would need 2^63 calls to wrap, so they are left unbounded.
pub mod Sections
pub mod Invariant
pub mod Recovery
use agent_brain.Base.{
  ℕ, suc, ◌+◌, Bool, true, false, ◌&&◌, Option, none, some, List, [], ◌∷◌, if◌then◌else◌,
}
use agent_brain.Base.Int.{ℤ, pos, sub_ℕ, ltb_ℤ, leb_ℤ}
use agent_brain.Base.Bytes.{Bytes}
use agent_brain.Retry.Errors.{
  State, closed, opened, half_open, Error, breaker_error, Result, ok, err, is_err,
}

pub record CircuitBreaker : Type 0 where
  pub name : Bytes
  pub max_failures : ℤ
  pub reset_timeout : ℤ
  pub state : State
  pub failure_count : ℕ
  pub last_failure_time : ℕ
  pub last_success_time : ℕ
  pub request_count : ℕ
  pub success_count : ℕ
  pub observed : Bool
  pub notices : List (State × State)

abbrev pub is_closed : State → Bool
is_closed closed = true
is_closed _ = false

abbrev pub is_open : State → Bool
is_open opened = true
is_open _ = false

abbrev pub is_half_open : State → Bool
is_half_open half_open = true
is_half_open _ = false

unfoldable pub new_circuit_breaker : Bytes → ℤ → ℤ → CircuitBreaker
new_circuit_breaker name max_failures reset_timeout = record {
  name = name;
  max_failures = max_failures;
  reset_timeout = reset_timeout;
  state = closed;
  failure_count = 0;
  last_failure_time = 0;
  last_success_time = 0;
  request_count = 0;
  success_count = 0;
  observed = false;
  notices = [];
}

unfoldable pub with_state_change_callback : CircuitBreaker → CircuitBreaker
with_state_change_callback cb = record cb { observed = true }

unfoldable pub set_state : State → CircuitBreaker → CircuitBreaker
set_state new_state cb = record cb {
  state = new_state;
  notices = if cb.observed then (cb.state, new_state) ∷ cb.notices else cb.notices;
}

-- `time.Since(lastFailureTime) > cb.resetTimeout`
unfoldable pub timed_out : ℕ → ℕ → ℤ → Bool
timed_out now last_failure_time reset_timeout = ltb_ℤ reset_timeout (sub_ℕ now last_failure_time)

-- The section of `canExecute` under the write lock, with its second look at the state.
unfoldable pub try_half_open : ℕ → CircuitBreaker → CircuitBreaker
unfolding set_state timed_out
try_half_open now cb =
    if is_open cb.state && timed_out now cb.last_failure_time cb.reset_timeout
    then set_state half_open cb
    else cb

-- The switch of `canExecute` on the state that was read under the read lock; whether the call may go
-- on, and whether it enters the section under the write lock.
unfoldable pub admission : ℕ → State → ℕ → ℤ → Bool × Bool
unfolding timed_out
admission now closed last_failure_time reset_timeout = (true, false)
admission now opened last_failure_time reset_timeout =
    if timed_out now last_failure_time reset_timeout then (true, true) else (false, false)
admission now half_open last_failure_time reset_timeout = (true, false)

-- `canExecute` with no other caller between its two sections, which read the clock at `now` and `now'`.
unfoldable pub can_execute : ℕ → ℕ → CircuitBreaker → Bool × CircuitBreaker
unfolding admission try_half_open
can_execute now now' cb =
    let (admitted, upgrade) = admission now cb.state cb.last_failure_time cb.reset_timeout in
    (admitted, if upgrade then try_half_open now' cb else cb)

record_failure : ℕ → CircuitBreaker → CircuitBreaker
unfolding set_state
record_failure now cb =
    let failed = record cb { failure_count = suc cb.failure_count; last_failure_time = now } in
    if is_half_open cb.state
    then set_state opened failed
    else if is_closed cb.state && leb_ℤ cb.max_failures (pos (suc cb.failure_count))
    then set_state opened failed
    else failed

record_success : ℕ → CircuitBreaker → CircuitBreaker
unfolding set_state
record_success now cb =
    let succeeded = record cb { success_count = suc cb.success_count; last_success_time = now } in
    if is_half_open cb.state
    then set_state closed (record succeeded { failure_count = 0 })
    else succeeded

-- `recordResult`; the flag says that the call failed.
unfoldable pub record_result : ℕ → Bool → CircuitBreaker → CircuitBreaker
unfolding record_failure record_success
record_result now failed cb =
    let counted = record cb { request_count = suc cb.request_count } in
    if failed then record_failure now counted else record_success now counted

unfoldable pub reset : CircuitBreaker → CircuitBreaker
reset cb = record cb {
  state = closed;
  failure_count = 0;
  request_count = 0;
  success_count = 0;
  last_failure_time = 0;
  last_success_time = 0;
  notices =
      if is_closed cb.state
      then cb.notices
      else if cb.observed
      then (cb.state, closed) ∷ cb.notices
      else cb.notices;
}

-- `Execute`: the guarded function acts on the rest of the program's state, where the clock is read.
module _ {ℓ κ} {W : Type ℓ} {T : Type κ} (clock : W → ℕ) where
  unfoldable pub execute_guarded :
      (W → Result T × W) → CircuitBreaker → W → Result T × CircuitBreaker × W
  unfolding can_execute record_result
  execute_guarded fn cb w =
      let (admitted, cb') = can_execute (clock w) (clock w) cb in
      let (r, w') = fn w in
      if admitted
      then (r, record_result (clock w') (is_err r) cb', w')
      else (err (breaker_error cb.name cb'.state), cb', w)
