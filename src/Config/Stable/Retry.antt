-- ===== src/Config/Stable/Retry.antt =====
-- internal/config/config.go: the defaults of the retry framework, set twice.
use agent_brain.Base.{◌≡◌, refl, [], ◌∷◌}
use agent_brain.Base.Int.{pos}
use agent_brain.Base.Bytes.{codes}
use agent_brain.Base.Map.{Map}
use agent_brain.Config.Values.{
  minute, second, nonempty_or, map_values, positive_or_twice, nonempty_or_twice, map_values_twice,
}
use agent_brain.Config.Retry.{
  RetryConfig, RetryPolicyConfig, CircuitBreakerConfig, default_policy_of, breaker_of, policy_of,
  standard_breakers, standard_policies, set_retry_defaults,
}

pub breaker_of_twice : (b : CircuitBreakerConfig) → breaker_of (breaker_of b) ≡ breaker_of b
unfolding breaker_of
breaker_of_twice b =
    rw (positive_or_twice (pos 5) b.failure_threshold, positive_or_twice (minute 1) b.reset_timeout)
      refl

pub policy_of_twice : (d p : RetryPolicyConfig) → policy_of d (policy_of d p) ≡ policy_of d p
unfolding policy_of
policy_of_twice d p =
    rw
      (
        positive_or_twice d.max_attempts p.max_attempts,
        positive_or_twice d.base_delay p.base_delay,
        positive_or_twice d.max_delay p.max_delay,
        nonempty_or_twice d.backoff_strategy p.backoff_strategy,
      )
      refl

pub default_policy_of_twice :
    (p : RetryPolicyConfig) → default_policy_of (default_policy_of p) ≡ default_policy_of p
unfolding default_policy_of
default_policy_of_twice p =
    rw
      (
        positive_or_twice (pos 3) p.max_attempts,
        positive_or_twice (second 1) p.base_delay,
        positive_or_twice (second 30) p.max_delay,
        nonempty_or_twice (codes "exponential_jitter") p.backoff_strategy,
      )
      refl

-- The values of a map that is not empty are no fewer than before.
nonempty_or-map_values :
    {A : Type 0} (f : A → A) (d m : Map A)
    → nonempty_or d (map_values f (nonempty_or d m)) ≡ map_values f (nonempty_or d m)
nonempty_or-map_values f [] [] = refl
nonempty_or-map_values f (e ∷ d) [] = refl
nonempty_or-map_values f d (e ∷ m) = refl

pub set_retry_defaults_twice :
    (rt : RetryConfig) → set_retry_defaults (set_retry_defaults rt) ≡ set_retry_defaults rt
unfolding set_retry_defaults
set_retry_defaults_twice rt =
    let d = default_policy_of rt.default_policy in
    rw
      (
        default_policy_of_twice rt.default_policy,
        nonempty_or-map_values breaker_of standard_breakers rt.circuit_breakers,
        nonempty_or-map_values (policy_of d) standard_policies rt.operation_policies,
        map_values_twice breaker_of (nonempty_or standard_breakers rt.circuit_breakers)
            breaker_of_twice,
        map_values_twice (policy_of d) (nonempty_or standard_policies rt.operation_policies)
            (policy_of_twice d),
      )
      refl
