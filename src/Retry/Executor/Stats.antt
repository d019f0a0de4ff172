-- ===== src/Retry/Executor/Stats.antt =====
-- internal/retry/executor.go: `ExecuteWithStats`, the second copy of the loop.
pub mod Account
use agent_brain.Base.{
  ℕ, zero, suc, ◌≡◌, refl, Bool, true, false, not, Option, none, some, if◌then◌else◌,
}
use agent_brain.Base.Int.{ℤ, pos, pos_part, sub_ℕ, eqb_ℤ}
use agent_brain.Retry.Errors.{Error, Result, ok, err}
use agent_brain.Retry.Policy.{RetryPolicy, is_retryable, calculate_delay}
use agent_brain.Retry.Executor.{Runtime, Operation, notify, non_retryable_error, exhausted_error}

pub record ExecutionResult (T : Type 0) : Type 0 where
  pub outcome : Result T
  pub attempts : ℤ
  pub total_duration : ℤ
  pub last_delay : ℤ

module _ {W T : Type 0} (rt : Runtime W) (p : RetryPolicy W) (start : ℕ) where
  finish : ℤ → ℤ → Result T → W → ExecutionResult T × W
  finish attempts last_delay r w = (
    record {
      outcome = r;
      attempts = attempts;
      total_duration = sub_ℕ (rt.clock w) start;
      last_delay = last_delay;
    },
    w,
  )

  resume :
      ℕ
      → ℤ
      → Error
      → (ℤ → Option Error → W → ExecutionResult T × W)
      → Option Error × W
      → ExecutionResult T × W
  unfolding finish
  resume attempt delay e next (some c, w) = finish (pos attempt) delay (err c) w
  resume attempt delay e next (none, w) = next delay (some e) w

  pause : ℕ → Error → (ℤ → Option Error → W → ExecutionResult T × W) → W → ExecutionResult T × W
  unfolding notify resume
  pause attempt e next w =
      let notified = notify p attempt e w in
      let delay = calculate_delay rt.floats p (rt.draw notified) (pos attempt) in
      resume attempt delay e next (rt.wait delay notified)

  after_attempt :
      ℕ → ℤ → (ℤ → Option Error → W → ExecutionResult T × W) → Result T × W → ExecutionResult T × W
  unfolding pause finish
  after_attempt attempt last_delay next (ok v, w) = finish (pos attempt) last_delay (ok v) w
  after_attempt attempt last_delay next (err e, w) =
      if not (is_retryable p e)
      then finish (pos attempt) last_delay (err (non_retryable_error attempt e)) w
      else if eqb_ℤ (pos attempt) p.max_attempts
      then finish p.max_attempts last_delay (err (exhausted_error p.max_attempts (some e))) w
      else pause attempt e next w

  run_attempts : Operation W T → ℕ → ℕ → ℤ → Option Error → W → ExecutionResult T × W
  unfolding after_attempt finish
  run_attempts op zero attempt last_delay last w =
      finish p.max_attempts last_delay (err (exhausted_error p.max_attempts last)) w
  run_attempts op (suc n) attempt last_delay last w =
      after_attempt attempt last_delay (run_attempts op n (suc attempt)) (op w)

unfoldable pub execute_with_stats :
    {W T : Type 0} → Runtime W → RetryPolicy W → Operation W T → W → ExecutionResult T × W
unfolding run_attempts
execute_with_stats rt p op w =
    run_attempts rt p (rt.clock w) op (pos_part p.max_attempts) 1 (pos 0) none w
