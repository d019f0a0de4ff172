-- ===== src/Retry/Executor.antt =====
-- internal/retry/executor.go: the loop that runs an operation until it succeeds, fails for good, is
-- cancelled, or has used up its attempts. `W` is the rest of the program's state; an operation takes
-- it to its result and the state after.
pub mod Rule
pub mod Stats
use agent_brain.Base.{
  ℕ, zero, suc, ◌+◌, Bool, true, false, not, Option, none, some, List, [], ◌∷◌, ◌++◌, if◌then◌else◌,
}
use agent_brain.Base.Int.{ℤ, pos, pos_part, sub_ℕ, eqb_ℤ}
use agent_brain.Base.Bytes.{Bytes, codes}
use agent_brain.Base.Decimal.{decimal, decimal_int}
use agent_brain.Retry.Errors.{Error, message, wrapped, Result, ok, err}
use agent_brain.Retry.Breaker.{CircuitBreaker, execute_guarded}
use agent_brain.Retry.Policy.{Floats, RetryPolicy, is_retryable, calculate_delay}

-- The runtime around the loop: the clock, the random source, and the `select` between the context and
-- the timer, which gives the context's error if that is done first.
pub record Runtime (W : Type 0) : Type 0 where
  pub floats : Floats
  pub clock : W → ℕ
  pub draw : W → ℕ
  pub wait : ℤ → W → Option Error × W

abbrev pub Operation : Type 0 → Type 0 → Type 0
Operation W T = W → Result T × W

unfoldable pub non_retryable_error : ℕ → Error → Error
non_retryable_error attempt e =
    wrapped (codes "non-retryable error on attempt " ++ decimal attempt) e

-- The text of `%w` at a nil error is `%!w(<nil>)`.
unfoldable pub exhausted_error : ℤ → Option Error → Error
exhausted_error max_attempts last =
    let text = codes "operation failed after " ++ (decimal_int max_attempts ++ codes " attempts") in
    elim last [ none ↦ message (text ++ codes ": %!w(<nil>)") | some e ↦ wrapped text e ]

unfoldable pub notify : {W : Type 0} → RetryPolicy W → ℕ → Error → W → W
notify p attempt e w = elim p.on_retry [ none ↦ w | some f ↦ f attempt e w ]

module _ {W T : Type 0} (rt : Runtime W) (p : RetryPolicy W) where
  -- The two cases of the `select`; `next` is the rest of the loop.
  resume : Error → (Option Error → W → Result T × W) → Option Error × W → Result T × W
  resume e next (some c, w) = (err c, w)
  resume e next (none, w) = next (some e) w

  -- The callback and the wait after a failed attempt.
  pause : ℕ → Error → (Option Error → W → Result T × W) → W → Result T × W
  unfolding notify resume
  pause attempt e next w =
      let notified = notify p attempt e w in
      resume e next
        (rt.wait (calculate_delay rt.floats p (rt.draw notified) (pos attempt)) notified)

  -- The body of the loop behind the call of the operation.
  after_attempt : ℕ → (Option Error → W → Result T × W) → Result T × W → Result T × W
  unfolding pause
  after_attempt attempt next (ok v, w) = (ok v, w)
  after_attempt attempt next (err e, w) =
      if not (is_retryable p e)
      then (err (non_retryable_error attempt e), w)
      else if eqb_ℤ (pos attempt) p.max_attempts
      then (err (exhausted_error p.max_attempts (some e)), w)
      else pause attempt e next w

  -- `for attempt := ...; attempt <= policy.MaxAttempts; attempt++`, with the rounds that are left.
  run_attempts : Operation W T → ℕ → ℕ → Option Error → W → Result T × W
  unfolding after_attempt
  run_attempts op zero attempt last w = (err (exhausted_error p.max_attempts last), w)
  run_attempts op (suc n) attempt last w =
      after_attempt attempt (run_attempts op n (suc attempt)) (op w)

  unfoldable pub execute : Operation W T → Operation W T
  unfolding run_attempts
  execute op w = run_attempts op (pos_part p.max_attempts) 1 none w

-- `ExecuteWithCircuitBreaker`, on the breaker beside the state.
unfoldable pub with_circuit_breaker :
    {W T : Type 0} → (W → ℕ) → Operation W T → Operation (CircuitBreaker × W) T
with_circuit_breaker clock op (cb, w) =
    let (r, cb', w') = execute_guarded clock op cb w in (r, (cb', w'))

-- `ExecuteWithRetryAndCircuitBreaker`
unfoldable pub with_retry_and_circuit_breaker :
    {W T : Type 0}
    → Runtime (CircuitBreaker × W)
    → RetryPolicy (CircuitBreaker × W)
    → (W → ℕ)
    → Operation W T
    → Operation (CircuitBreaker × W) T
unfolding execute with_circuit_breaker
with_retry_and_circuit_breaker rt p clock op = execute rt p (with_circuit_breaker clock op)
