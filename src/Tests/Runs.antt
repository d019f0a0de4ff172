-- ===== src/Tests/Runs.antt =====
-- The model run on small inputs.
use agent_brain.Base.{◌≡◌, refl, some, [], ◌∷◌}
use agent_brain.Base.Int.{pos}
use agent_brain.Base.Bytes.{codes}
use agent_brain.Retry.Errors.{ok}
use agent_brain.Retry.Breaker.{CircuitBreaker}
use agent_brain.Base.Bytes.{bytes_eq}
use agent_brain.Base.Map.{lookup, insert}
use agent_brain.Base.Int.{wrap64, ◌+ℤ◌}
use agent_brain.Base.Decimal.{pad20, parse_int}
use agent_brain.Base.Strings.{has_prefix, has_suffix, trim_suffix, base_of}
use agent_brain.Retry.Breaker.{execute_guarded, can_execute, record_result, new_circuit_breaker}
use agent_brain.Retry.Executor.{execute, with_circuit_breaker, with_retry_and_circuit_breaker}
use agent_brain.Delta.Store.{◌>>=◌, context}
use agent_brain.Delta.Keys.{version_key, version_of_key}
use agent_brain.Delta.Log.{
  latest_version, list_versions, versions_of, sort_versions, last_version, write_version,
}
use agent_brain.Delta.Checkpoint.{maybe_checkpoint}
use agent_brain.Delta.Table.{Managed, delta_retry_policy, delta_circuit_breaker, commit, commit_op}
use agent_brain.Tests.Memory.{Bucket, memory, calm, table, eager, one_file, one_version}

pub commit_run :
    (commit memory
      (λ b. 1000)
      (λ b. pos 5)
      table
      calm
      (delta_retry_policy (CircuitBreaker × Managed Bucket))
      (one_file ∷ [])
      (codes "WRITE")
      (delta_circuit_breaker, (some eager, one_version))).0
    ≡ ok (pos 1)
unfolding commit with_retry_and_circuit_breaker execute with_circuit_breaker execute_guarded
    can_execute commit_op ◌>>=◌ context latest_version list_versions memory delta_retry_policy
    delta_circuit_breaker new_circuit_breaker lookup insert bytes_eq version_key version_of_key
    versions_of sort_versions last_version pad20 parse_int has_prefix has_suffix trim_suffix base_of
    wrap64 ◌+ℤ◌ write_version maybe_checkpoint record_result
commit_run = refl
