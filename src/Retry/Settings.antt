-- ===== src/Retry/Settings.antt =====
-- internal/retry/config.go: policies and breakers built from the configuration; and what the sync
-- engine (internal/sync/engine.go) and the object store's client (internal/storage/s3.go) build from
-- the policies of internal/config. The three types of a policy's settings have the same fields. The
-- random draws of a jitter are given by the attempt; `text` prints a duration.
pub mod Accepted
use agent_brain.Base.{
  ℕ, ◌≤◌, ◌≡◌, refl, sym, ap, ◌∙◌, inl, inr, Bool, true, false, not, ◌&&◌, ◌||◌, Option, none, some,
  List, [], ◌∷◌, ◌++◌, if◌then◌else◌, arith, Bool-cases,
}
use agent_brain.Base.Int.{ℤ, pos, ◌<ℤ◌, ◌≤ℤ◌, leb_ℤ, ltb_ℤ}
use agent_brain.Base.Bytes.{Bytes, codes, bytes_eq}
use agent_brain.Base.Map.{Map, lookup}
use agent_brain.Base.Decimal.{decimal_int}
use agent_brain.Delta.Store.{wrap_error}
use agent_brain.Schema.{is_empty}
use agent_brain.Config.Values.{map_values, second}
use agent_brain.Config.Retry.{
  RetryPolicyConfig, CircuitBreakerConfig, RetryConfig, policy, standard_breakers,
  standard_policies, default_policy_of, breaker_of, policy_of,
}
use agent_brain.Config.Security.{refuse_if, and_also}
use agent_brain.Sync.Planner.{contains}
use agent_brain.Retry.Contains.{to_lower}
use agent_brain.Retry.Errors.{
  Error, message, wrapped, Result, ok, err, is_err, error_text, contains_any, default_retryable,
  s3_retryable,
}
use agent_brain.Retry.Breaker.{CircuitBreaker, new_circuit_breaker}
use agent_brain.Retry.Policy.{
  Floats, RetryPolicy, linear_backoff, fixed_backoff, exponential_backoff, api_rate_limit_backoff,
  network_backoff, exponential_backoff_with_jitter,
}

abbrev pub PolicyConfig : Type 0
PolicyConfig = RetryPolicyConfig

-- `DefaultConfig`
unfoldable pub default_config : RetryConfig
unfolding standard_breakers standard_policies
default_config = record {
  default_policy = policy (pos 3) (second 1) (second 30) (codes "exponential_jitter") true;
  circuit_breakers = standard_breakers;
  operation_policies =
      standard_policies
      ++ (codes "database_query", policy (pos 3) (second 1) (second 15) (codes "linear") false)
        ∷ [];
}

-- `SetDefaults`
unfoldable pub set_config_defaults : RetryConfig → RetryConfig
unfolding default_policy_of breaker_of policy_of
set_config_defaults c =
    let d = default_policy_of c.default_policy in
    record {
      default_policy = d;
      circuit_breakers = map_values breaker_of c.circuit_breakers;
      operation_policies = map_values (policy_of d) c.operation_policies;
    }

unfoldable pub lowered : List Bytes → List Bytes
lowered [] = []
lowered (p ∷ ps) = to_lower p ∷ lowered ps

-- `createCustomRetryableFunc`
unfoldable pub custom_retryable : List Bytes → List Bytes → Option Error → Bool
unfolding lowered
custom_retryable retryable non_retryable none = false
custom_retryable retryable non_retryable (some e) =
    let text = to_lower (error_text e) in
    if contains_any text (lowered non_retryable)
    then false
    else if contains_any text (lowered retryable)
    then true
    else default_retryable (some e)

module _ (fl : Floats) (draw : ℤ → ℕ) where
  jittered : ℤ → ℤ → ℤ
  jittered attempt base = exponential_backoff_with_jitter fl (draw attempt) attempt base

  -- `parseBackoffStrategy`
  unfoldable pub parse_backoff_strategy : Bytes → Result (ℤ → ℤ → ℤ)
  unfolding jittered
  parse_backoff_strategy s =
      if is_empty s || bytes_eq (codes "exponential") s
      then ok (exponential_backoff fl)
      else if bytes_eq (codes "exponential_jitter") s
      then ok jittered
      else if bytes_eq (codes "linear") s
      then ok linear_backoff
      else if bytes_eq (codes "fixed") s
      then ok fixed_backoff
      else if bytes_eq (codes "api_rate_limit") s
      then ok (api_rate_limit_backoff fl)
      else if bytes_eq (codes "network") s
      then ok (network_backoff fl)
      else err (message (codes "unknown backoff strategy: " ++ s))

  module _ (W : Type 0) where
    unfoldable pub policy_with :
        RetryPolicyConfig → (Option Error → Bool) → (ℤ → ℤ → ℤ) → RetryPolicy W
    policy_with pc retryable backoff = record {
      max_attempts = pc.max_attempts;
      base_delay = pc.base_delay;
      max_delay = pc.max_delay;
      backoff = some backoff;
      retryable = some retryable;
      on_retry = none;
      jitter = pc.jitter;
    }

    unfoldable pub built :
        RetryPolicyConfig → (Option Error → Bool) → Result (ℤ → ℤ → ℤ) → Result (RetryPolicy W)
    unfolding policy_with
    built pc retryable (ok f) = ok (policy_with pc retryable f)
    built pc retryable (err e) = err e

    -- `ToRetryPolicy`
    unfoldable pub to_retry_policy : PolicyConfig → Result (RetryPolicy W)
    unfolding built parse_backoff_strategy custom_retryable
    to_retry_policy pc =
        built pc
          (if is_empty pc.retryable_errors && is_empty pc.non_retryable_errors
            then default_retryable
            else custom_retryable pc.retryable_errors pc.non_retryable_errors)
          (wrap_error (codes "invalid backoff strategy '" ++ (pc.backoff_strategy ++ codes "'"))
            (parse_backoff_strategy pc.backoff_strategy))

    -- `GetOperationPolicy`
    unfoldable pub get_operation_policy : RetryConfig → Bytes → Result (RetryPolicy W)
    unfolding to_retry_policy
    get_operation_policy c operation = elim (lookup operation c.operation_policies) [
      | some pc ↦ to_retry_policy pc
      | none ↦ to_retry_policy c.default_policy
    ]

    -- `convertToRetryPolicy` of the engine.
    unfoldable pub convert_to_retry_policy : RetryPolicyConfig → Result (RetryPolicy W)
    unfolding built parse_backoff_strategy
    convert_to_retry_policy pc =
        built pc default_retryable (parse_backoff_strategy pc.backoff_strategy)

    -- `convertToPolicyConfig` of the client, which knows four strategies.
    unfoldable pub convert_to_policy_config : RetryPolicyConfig → Result (RetryPolicy W)
    unfolding built jittered
    convert_to_policy_config pc =
        let s = pc.backoff_strategy in
        built pc s3_retryable (
          if is_empty s || bytes_eq (codes "exponential") s
          then ok (exponential_backoff fl)
          else if bytes_eq (codes "exponential_jitter") s
          then ok jittered
          else if bytes_eq (codes "linear") s
          then ok linear_backoff
          else if bytes_eq (codes "fixed") s
          then ok fixed_backoff
          else err (message (codes "unknown backoff strategy: " ++ s)))

    -- The policies of the engine's operations: to connect, to discover and to extract.
    pub record SyncRetryExecutor : Type 0 where
      pub connect_policy : RetryPolicy W
      pub discover_policy : RetryPolicy W
      pub extract_policy : RetryPolicy W

    -- A policy that is configured for an operation takes the place of the one there is.
    configured : Bytes → Option RetryPolicyConfig → RetryPolicy W → Result (RetryPolicy W)
    unfolding convert_to_retry_policy
    configured name none old = ok old
    configured name (some pc) old =
        wrap_error (codes "invalid " ++ (name ++ codes " policy")) (convert_to_retry_policy pc)

    -- `SetRetryConfig` of the engine: the executor afterwards, and the error. What was set before an
    -- error stays set.
    set_extract : SyncRetryExecutor → Result (RetryPolicy W) → SyncRetryExecutor × Option Error
    set_extract x (ok p) = (record x { extract_policy = p }, none)
    set_extract x (err e) = (x, some e)

    set_discover :
        Map RetryPolicyConfig
        → SyncRetryExecutor
        → Result (RetryPolicy W)
        → SyncRetryExecutor × Option Error
    unfolding set_extract configured
    set_discover m x (ok p) =
        set_extract (record x { discover_policy = p })
          (configured (codes "sync_extract") (lookup (codes "sync_extract") m) x.extract_policy)
    set_discover m x (err e) = (x, some e)

    set_connect :
        Map RetryPolicyConfig
        → SyncRetryExecutor
        → Result (RetryPolicy W)
        → SyncRetryExecutor × Option Error
    unfolding set_discover configured
    set_connect m x (ok p) =
        set_discover m (record x { connect_policy = p })
          (configured (codes "sync_discover") (lookup (codes "sync_discover") m) x.discover_policy)
    set_connect m x (err e) = (x, some e)

    unfoldable pub set_retry_config :
        Option RetryConfig → SyncRetryExecutor → SyncRetryExecutor × Option Error
    unfolding set_connect configured
    set_retry_config none x = (x, none)
    set_retry_config (some c) x = set_connect c.operation_policies x (
        configured (codes "sync_connect") (lookup (codes "sync_connect") c.operation_policies)
          x.connect_policy)

-- `ToCircuitBreaker`
unfoldable pub to_circuit_breaker : CircuitBreakerConfig → Bytes → CircuitBreaker
to_circuit_breaker c name = new_circuit_breaker name c.failure_threshold c.reset_timeout

unfoldable pub valid_strategies : List Bytes
valid_strategies =
    codes "fixed"
    ∷ codes "linear"
    ∷ codes "exponential"
    ∷ codes "exponential_jitter"
    ∷ codes "api_rate_limit"
    ∷ codes "network"
    ∷ []

module _ (text : ℤ → Bytes) where
  -- `Validate` of a policy.
  unfoldable pub validate_policy : PolicyConfig → Result (Unit {0})
  unfolding valid_strategies
  validate_policy pc =
      refuse_if (leb_ℤ pc.max_attempts (pos 0))
        (codes "max_attempts must be positive, got " ++ decimal_int pc.max_attempts)
        (refuse_if (leb_ℤ pc.base_delay (pos 0))
          (codes "base_delay must be positive, got " ++ text pc.base_delay)
          (refuse_if (leb_ℤ pc.max_delay (pos 0))
            (codes "max_delay must be positive, got " ++ text pc.max_delay)
            (refuse_if (ltb_ℤ pc.max_delay pc.base_delay)
              (codes "base_delay ("
                ++ (text pc.base_delay
                    ++ (codes ") must be less than or equal to max_delay ("
                        ++ (text pc.max_delay ++ codes ")"))))
              (refuse_if
                (not (is_empty pc.backoff_strategy)
                  && not (contains valid_strategies pc.backoff_strategy))
                (codes "invalid backoff_strategy '"
                  ++ (pc.backoff_strategy
                      ++ codes
                          "', must be one of: [fixed linear exponential exponential_jitter api_rate_limit network]"))
                (ok tt)))))

  -- `Validate` of a breaker.
  unfoldable pub validate_breaker : CircuitBreakerConfig → Result (Unit {0})
  validate_breaker c =
      refuse_if (leb_ℤ c.failure_threshold (pos 0))
        (codes "failure_threshold must be positive, got " ++ decimal_int c.failure_threshold)
        (refuse_if (leb_ℤ c.reset_timeout (pos 0))
          (codes "reset_timeout must be positive, got " ++ text c.reset_timeout) (ok tt))

  -- The two loops of `Validate`, in the order of the maps.
  unfoldable pub each_valid :
      {A : Type 0} → Bytes → (A → Result (Unit {0})) → Map A → Result (Unit {0})
  each_valid kind check [] = ok tt
  each_valid kind check ((name, a) ∷ m) =
      and_also
        (wrap_error (codes "invalid " ++ (kind ++ (codes " '" ++ (name ++ codes "'")))) (check a))
        (each_valid kind check m)

  -- `Validate` of the configuration.
  unfoldable pub validate_retry : RetryConfig → Result (Unit {0})
  unfolding each_valid validate_policy validate_breaker
  validate_retry c =
      and_also (wrap_error (codes "invalid default policy") (validate_policy c.default_policy)) (
        and_also (each_valid (codes "circuit breaker") validate_breaker c.circuit_breakers)
          (each_valid (codes "operation policy") validate_policy c.operation_policies))
