-- ===== src/Config/Retry.antt =====
-- internal/config/config.go: the retry framework's configuration and its defaults.
use agent_brain.Base.{Bool, true, false, List, [], ◌∷◌}
use agent_brain.Base.Int.{ℤ, pos}
use agent_brain.Base.Bytes.{Bytes, codes}
use agent_brain.Base.Map.{Map}
use agent_brain.Config.Values.{second, minute, positive_or, nonempty_or, map_values}

pub record RetryPolicyConfig : Type 0 where
  pub max_attempts : ℤ
  pub base_delay : ℤ
  pub max_delay : ℤ
  pub backoff_strategy : Bytes
  pub jitter : Bool
  pub retryable_errors : List Bytes
  pub non_retryable_errors : List Bytes

pub record CircuitBreakerConfig : Type 0 where
  pub failure_threshold : ℤ
  pub reset_timeout : ℤ
  pub enabled : Bool

pub record RetryConfig : Type 0 where
  pub default_policy : RetryPolicyConfig
  pub circuit_breakers : Map CircuitBreakerConfig
  pub operation_policies : Map RetryPolicyConfig

abbrev pub policy : ℤ → ℤ → ℤ → Bytes → Bool → RetryPolicyConfig
policy attempts base max strategy jitter = record {
  max_attempts = attempts;
  base_delay = base;
  max_delay = max;
  backoff_strategy = strategy;
  jitter = jitter;
  retryable_errors = [];
  non_retryable_errors = [];
}

abbrev pub breaker : ℤ → ℤ → CircuitBreakerConfig
breaker threshold timeout = record {
  failure_threshold = threshold;
  reset_timeout = timeout;
  enabled = true;
}

-- The breakers and the policies of a configuration that has none.
unfoldable pub standard_breakers : Map CircuitBreakerConfig
standard_breakers =
    (codes "s3_operations", breaker (pos 5) (second 60))
    ∷ (codes "connector_auth", breaker (pos 3) (minute 5))
    ∷ (codes "api_operations", breaker (pos 10) (minute 2))
    ∷ []

unfoldable pub standard_policies : Map RetryPolicyConfig
standard_policies =
    (codes "s3_upload", policy (pos 5) (second 2) (second 120) (codes "exponential") true)
    ∷ (codes "s3_download", policy (pos 5) (second 1) (second 60) (codes "exponential") true)
    ∷ (codes "delta_commit", policy (pos 3) (pos 500000000) (second 10) (codes "linear") false)
    ∷ (codes "connector_auth", policy (pos 3) (second 2) (second 30) (codes "fixed") false)
    ∷ (codes "api_request", policy (pos 4) (second 1) (second 30) (codes "api_rate_limit") true)
    ∷ []

unfoldable pub default_policy_of : RetryPolicyConfig → RetryPolicyConfig
default_policy_of p = record p {
  max_attempts = positive_or (pos 3) p.max_attempts;
  base_delay = positive_or (second 1) p.base_delay;
  max_delay = positive_or (second 30) p.max_delay;
  backoff_strategy = nonempty_or (codes "exponential_jitter") p.backoff_strategy;
}

unfoldable pub breaker_of : CircuitBreakerConfig → CircuitBreakerConfig
breaker_of b = record b {
  failure_threshold = positive_or (pos 5) b.failure_threshold;
  reset_timeout = positive_or (minute 1) b.reset_timeout;
}

-- A policy of an operation takes what it lacks from the default policy.
unfoldable pub policy_of : RetryPolicyConfig → RetryPolicyConfig → RetryPolicyConfig
policy_of d p = record p {
  max_attempts = positive_or d.max_attempts p.max_attempts;
  base_delay = positive_or d.base_delay p.base_delay;
  max_delay = positive_or d.max_delay p.max_delay;
  backoff_strategy = nonempty_or d.backoff_strategy p.backoff_strategy;
}

-- `setRetryDefaults`
unfoldable pub set_retry_defaults : RetryConfig → RetryConfig
unfolding default_policy_of breaker_of policy_of standard_breakers standard_policies
set_retry_defaults rt =
    let d = default_policy_of rt.default_policy in
    record {
      default_policy = d;
      circuit_breakers = map_values breaker_of (nonempty_or standard_breakers rt.circuit_breakers);
      operation_policies =
          map_values (policy_of d) (nonempty_or standard_policies rt.operation_policies);
    }
