-- ===== src/Sync/Recovery/Breaker/Safety.antt =====
-- internal/sync/recovery.go: what the breaker's count of failures says of its state.
use agent_brain.Base.{◌≡◌, true, arith}
use agent_brain.Base.Int.{ℤ, pos, ◌≤ℤ◌}
use agent_brain.Retry.Errors.{opened, half_open}
use agent_brain.Sync.Recovery.Breaker.{
  CircuitBreaker, timed_out, try_half_open, record_failure, record_success,
}

-- late
pub late_success_defeats_probe :
    (cb : CircuitBreaker) (now later : ℤ)
    → cb.state ≡ opened
    → timed_out now cb ≡ true
    → pos 2 ≤ℤ cb.max_failures
    → (record_failure later (try_half_open now (record_success cb))).state ≡ half_open
unfolding record_failure try_half_open record_success timed_out
late_success_defeats_probe cb now later open' elapsed limit = ground arith
