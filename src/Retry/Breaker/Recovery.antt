-- ===== src/Retry/Breaker/Recovery.antt =====
-- What `Execute` does with the call that it guards.
use agent_brain.Base.{ℕ, suc, ◌≡◌, Bool, true, false, arith, ◌⊎◌, ◌&&◌, not}
use agent_brain.Retry.Errors.{closed, opened, breaker_error, Result, err, is_err}
use agent_brain.Retry.Breaker.{CircuitBreaker, is_open, timed_out, execute_guarded}

-- Whether a call is turned away: the breaker is open, and its timeout has not passed.
abbrev pub rejects : ℕ → CircuitBreaker → Bool
unfolding timed_out
rejects now cb = is_open cb.state && not (timed_out now cb.last_failure_time cb.reset_timeout)

module _ {W T : Type 0} (clock : W → ℕ) (fn : W → Result T × W) (cb : CircuitBreaker) (w : W) where
  -- While the breaker is open and its timeout has not passed, Execute returns the breaker's error
  -- without running the guarded function, and changes nothing.
  pub execute_guarded_rejected :
      rejects (clock w) cb ≡ true
      → execute_guarded clock fn cb w ≡ (err (breaker_error cb.name opened), cb, w)
  unfolding execute_guarded timed_out
  execute_guarded_rejected h = ground arith

  -- Unless the breaker is open within its timeout, Execute runs the guarded function once, returns
  -- its result, leaves its state, and counts one request.
  pub execute_guarded_admitted :
      rejects (clock w) cb ≡ false
      → let r = execute_guarded clock fn cb w in
        (r.0 ≡ (fn w).0) × (r.2 ≡ (fn w).1) × (r.1.request_count ≡ suc cb.request_count)
  unfolding execute_guarded timed_out
  execute_guarded_admitted h = ground arith

  -- The first call to an open breaker after its timeout decides: its success closes the breaker
  -- with no failures on record, its failure opens it again as from the end of that call.
  pub probe_decides :
      cb.state ≡ opened
      → timed_out (clock w) cb.last_failure_time cb.reset_timeout ≡ true
      → let r = execute_guarded clock fn cb w in
        ((is_err (fn w).0 ≡ false) × (r.1.state ≡ closed) × (r.1.failure_count ≡ 0))
        ⊎ ((is_err (fn w).0 ≡ true)
            × (r.1.state ≡ opened)
            × (r.1.last_failure_time ≡ clock (fn w).1))
  unfolding execute_guarded timed_out
  probe_decides s h = ground arith
