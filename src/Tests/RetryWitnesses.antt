-- ===== src/Tests/RetryWitnesses.antt =====
-- The theorems on retries and breakers at concrete inputs.
use agent_brain.Base.{
  ℕ, zero, suc, ◌≡◌, refl, none, some, List, [], ◌∷◌, true, false, arith, ◌↔◌, ◌⊎◌,
}
use agent_brain.Base.Int.{pos, ◌≤ℤ◌}
use agent_brain.Base.Bytes.{codes}
use agent_brain.Retry.Contains.{contains, to_lower, Occurs, contains_iff}
use agent_brain.Retry.Errors.{closed, opened, message, ok, err, is_err}
use agent_brain.Retry.Breaker.{
  timed_out, record_result, CircuitBreaker, new_circuit_breaker, execute_guarded,
}
use agent_brain.Retry.Breaker.Sections.{
  Section, upgrade, records, resets, take_section, run, failures,
}
use agent_brain.Retry.Breaker.Invariant.{
  IsCounted, run-IsCounted, IsTraced, run-IsTraced, open_needs_failures,
}
use agent_brain.Retry.Breaker.Recovery.{probe_decides}
use agent_brain.Retry.Policy.{RetryPolicy, linear_backoff}
use agent_brain.Retry.Executor.{Operation, execute}
use agent_brain.Retry.Executor.Stats.{execute_with_stats}
use agent_brain.Retry.Executor.Stats.Account.{
  IsAccounted, execute_with_stats-execute, execute_with_stats-IsAccounted,
}
use agent_brain.Tests.Memory.{calm}

abbrev two_failures : CircuitBreaker
two_failures = record {
  name = codes "s3";
  max_failures = pos 2;
  reset_timeout = pos 100;
  state = closed;
  failure_count = 0;
  last_failure_time = 0;
  last_success_time = 0;
  request_count = 0;
  success_count = 0;
  observed = true;
  notices = [];
}

abbrev busy : List Section
busy =
    records 5 true
    ∷ records 6 false
    ∷ records 7 true
    ∷ upgrade 50
    ∷ upgrade 200
    ∷ records 201 true
    ∷ upgrade 400
    ∷ records 401 false
    ∷ resets
    ∷ []

run-IsTraced_example : IsTraced (run busy two_failures)
run-IsTraced_example = run-IsTraced busy two_failures (record { watched = refl; traced = refl })

run-IsCounted_example : IsCounted (run busy two_failures)
run-IsCounted_example = run-IsCounted busy two_failures (ground arith)

open_needs_failures_example : pos 2 ≤ℤ pos (failures (records 5 true ∷ records 7 true ∷ []))
unfolding run take_section record_result new_circuit_breaker
open_needs_failures_example =
    open_needs_failures (codes "s3") (pos 2) (pos 100) (records 5 true ∷ records 7 true ∷ []) refl

-- A counter that fails below three and then answers; the state is also the time.
counter : Operation ℕ ℕ
counter zero = (err (message (codes "timeout")), 1)
counter (suc zero) = (err (message (codes "timeout")), 2)
counter (suc (suc n)) = (ok n, suc (suc (suc n)))

-- The breaker after two failures at 50.
abbrev tripped : CircuitBreaker
tripped = record two_failures {
  state = opened;
  failure_count = 2;
  last_failure_time = 50;
  request_count = 2;
}

probe_decides_example :
    let r = execute_guarded (λ w. w) counter tripped 200 in
    ((is_err (counter 200).0 ≡ false) × (r.1.state ≡ closed) × (r.1.failure_count ≡ 0))
    ⊎ ((is_err (counter 200).0 ≡ true)
        × (r.1.state ≡ opened)
        × (r.1.last_failure_time ≡ (counter 200).1))
unfolding timed_out
probe_decides_example = probe_decides (λ w. w) counter tripped 200 refl refl

abbrev three_times : RetryPolicy ℕ
three_times = record {
  max_attempts = pos 3;
  base_delay = pos 100;
  max_delay = pos 150;
  backoff = some linear_backoff;
  retryable = none;
  on_retry = none;
  jitter = true;
}

execute_with_stats-execute_example : execute calm three_times counter 0 ≡ (
  (execute_with_stats calm three_times counter 0).0.outcome,
  (execute_with_stats calm three_times counter 0).1,
)
execute_with_stats-execute_example = execute_with_stats-execute calm three_times counter 0

execute_with_stats-IsAccounted_example :
    IsAccounted calm three_times counter 0 (execute_with_stats calm three_times counter 0)
execute_with_stats-IsAccounted_example =
    execute_with_stats-IsAccounted calm three_times counter 0 (omega arith)

contains_iff_example :
    (contains (codes "Read TIMEOUT") (codes "timeout") ≡ true)
    ↔ Occurs (to_lower (codes "timeout")) (to_lower (codes "Read TIMEOUT"))
contains_iff_example = contains_iff (codes "Read TIMEOUT") (codes "timeout")
