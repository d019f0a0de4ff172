-- ===== src/Config/Ready.antt =====
-- internal/config/config.go: what a configuration has that `Load` hands out.
use mathlib.Core.Path.{subst}
use agent_brain.Base.{
  ◌≡◌, refl, sym, Bool, true, false, ◌&&◌, ◌||◌, Option, none, some, List, [], ◌∷◌, ◌++◌, inl, inr,
  Bool-cases, arith, All,
}
use agent_brain.Base.Int.{ℤ, pos, ◌<ℤ◌, ltb_ℤ, leb_ℤ}
use agent_brain.Base.Bytes.{Bytes, codes}
use agent_brain.Base.Map.{Map}
use agent_brain.Retry.Errors.{Error, Result, ok, err}
use agent_brain.Delta.Store.{context, ◌>>=◌, wrap_error}
use agent_brain.Schema.{is_empty}
use agent_brain.Config.Values.{
  minute, second, hour, millionths, positive_or, nonempty_or, map_values, map_option,
  positive_or-positive,
}
use agent_brain.Config.Retry.{
  RetryConfig, RetryPolicyConfig, CircuitBreakerConfig, default_policy_of, breaker_of, policy_of,
  standard_breakers, standard_policies, set_retry_defaults,
}
use agent_brain.Config.Sections.{SourceConfig, set_source_defaults}
use agent_brain.Config.Security.{
  SecurityConfig, DependencyAuditConfig, RuntimeMonitoringConfig, set_security_defaults,
  audit_defaults, runtime_defaults, encryption_defaults, analysis_defaults, validate_rules,
  validate_tls, validate_audit, validate_runtime, validate_security_config, refuse_if, and_also,
}
use agent_brain.Config.Env.{expand_env_vars}
use agent_brain.Config.Load.{
  Config, Libraries, set_defaults, validate_sources, validate, when_valid, completed, parsed, load,
}

-- A policy with which a call is made at least once and waits for a while.
abbrev pub IsUsable : RetryPolicyConfig → Type 0
IsUsable p =
    (pos 0 <ℤ p.max_attempts)
    × (pos 0 <ℤ p.base_delay)
    × (pos 0 <ℤ p.max_delay)
    × (is_empty p.backoff_strategy ≡ false)

abbrev pub IsGuarding : CircuitBreakerConfig → Type 0
IsGuarding b = (pos 0 <ℤ b.failure_threshold) × (pos 0 <ℤ b.reset_timeout)

abbrev pub AllValues : {A : Type 0} → (A → Type 0) → Map A → Type 0
AllValues P = All (λ e. P e.1)

map_values-All :
    {A : Type 0} (P : A → Type 0) (f : A → A) (m : Map A)
    → ((a : A) → P (f a))
    → AllValues P (map_values f m)
map_values-All P f [] h = tt
map_values-All P f ((k, a) ∷ m) h = (h a, map_values-All P f m h)

nonempty_or-nonempty :
    {A : Type 0} (d x : List A) → is_empty d ≡ false → is_empty (nonempty_or d x) ≡ false
nonempty_or-nonempty d [] h = h
nonempty_or-nonempty d (c ∷ x) h = refl

default_policy_of-IsUsable : (p : RetryPolicyConfig) → IsUsable (default_policy_of p)
unfolding default_policy_of
default_policy_of-IsUsable p = (
  positive_or-positive (pos 3) p.max_attempts (omega arith),
  positive_or-positive (second 1) p.base_delay (omega arith),
  positive_or-positive (second 30) p.max_delay (omega arith),
  nonempty_or-nonempty (codes "exponential_jitter") p.backoff_strategy refl,
)

policy_of-IsUsable : (d p : RetryPolicyConfig) → IsUsable d → IsUsable (policy_of d p)
unfolding policy_of
policy_of-IsUsable d p (attempts, base, max, strategy) = (
  positive_or-positive d.max_attempts p.max_attempts attempts,
  positive_or-positive d.base_delay p.base_delay base,
  positive_or-positive d.max_delay p.max_delay max,
  nonempty_or-nonempty d.backoff_strategy p.backoff_strategy strategy,
)

breaker_of-IsGuarding : (b : CircuitBreakerConfig) → IsGuarding (breaker_of b)
unfolding breaker_of
breaker_of-IsGuarding b = (
  positive_or-positive (pos 5) b.failure_threshold (omega arith),
  positive_or-positive (minute 1) b.reset_timeout (omega arith),
)

-- Every policy and every breaker that the defaults leave can be used, and there is one of each.
abbrev pub IsComplete : RetryConfig → Type 0
IsComplete rt =
    IsUsable rt.default_policy
    × AllValues IsUsable rt.operation_policies
    × AllValues IsGuarding rt.circuit_breakers
    × (is_empty rt.operation_policies ≡ false)
    × (is_empty rt.circuit_breakers ≡ false)

is_empty-map_values :
    {A : Type 0} (f : A → A) (d m : Map A)
    → is_empty d ≡ false
    → is_empty (map_values f (nonempty_or d m)) ≡ false
is_empty-map_values f [] [] h = h
is_empty-map_values f (e ∷ d) [] h = refl
is_empty-map_values f d (e ∷ m) h = refl

set_retry_defaults-IsComplete : (rt : RetryConfig) → IsComplete (set_retry_defaults rt)
unfolding set_retry_defaults
set_retry_defaults-IsComplete rt =
    let d = default_policy_of-IsUsable rt.default_policy in
    (
      d,
      map_values-All IsUsable _ _
          (λ p. policy_of-IsUsable (default_policy_of rt.default_policy) p d),
      map_values-All IsGuarding _ _ breaker_of-IsGuarding,
      is_empty-map_values _ standard_policies rt.operation_policies
          (unfold standard_policies in refl),
      is_empty-map_values _ standard_breakers rt.circuit_breakers
          (unfold standard_breakers in refl),
    )

score_after :
    (score interval : ℤ) (t t' : Bytes)
    → refuse_if
        (ltb_ℤ (positive_or (millionths 10000000) score) (pos 0)
          || ltb_ℤ (millionths 10000000) (positive_or (millionths 10000000) score))
        t
        (refuse_if (leb_ℤ (positive_or (hour 24) interval) (pos 0)) t' (ok tt))
      ≡ refuse_if (ltb_ℤ (millionths 10000000) score) t (ok tt)
score_after score interval t t' = ground arith

audit-score :
    (to_lower : Bytes → Bytes) (compile : Bytes → Option Error) (d : DependencyAuditConfig)
    → validate_audit to_lower compile (audit_defaults d)
      ≡ refuse_if
          (d.enabled && ltb_ℤ (millionths 10000000) d.max_cvss_score)
          (codes "max_cvss_score must be between 0 and 10")
          (ok tt)
unfolding validate_audit audit_defaults
audit-score to_lower compile d = elim (Bool-cases d.enabled) [
  | inl on ↦ rw on (score_after d.max_cvss_score d.check_interval _ _)
  | inr off ↦ rw off refl
]

runtime-ok :
    (to_lower : Bytes → Bytes) (compile : Bytes → Option Error) (r : RuntimeMonitoringConfig)
    → validate_runtime to_lower compile (runtime_defaults r) ≡ ok tt
unfolding validate_runtime runtime_defaults
runtime-ok to_lower compile r = elim (Bool-cases r.enabled) [
  | inl on ↦ rw on (ground arith)
  | inr off ↦ rw off refl
]

refuse_if-last :
    (b : Bool) (text : Bytes)
    → and_also (refuse_if b text (ok tt)) (ok tt) ≡ refuse_if b text (ok tt)
refuse_if-last true text = refl
refuse_if-last false text = refl

-- After the defaults, a security section is refused only for its custom rules, for the version of
-- TLS, or for a score above 10 with the audit enabled, and these are tried in this order: no other
-- check can fail.
pub validate_security_config_defaults :
    (to_lower : Bytes → Bytes) (compile : Bytes → Option Error) (sc : SecurityConfig)
    → validate_security_config to_lower compile (set_security_defaults sc)
      ≡ and_also (validate_rules to_lower compile 0 sc.static_analysis.custom_rules) (
          and_also
            (validate_tls to_lower compile
              (nonempty_or (codes "1.2") sc.encryption.min_tls_version))
            (refuse_if
              (sc.dependency_audit.enabled
                && ltb_ℤ (millionths 10000000) sc.dependency_audit.max_cvss_score)
              (codes "max_cvss_score must be between 0 and 10")
              (ok tt)))
unfolding validate_security_config set_security_defaults analysis_defaults encryption_defaults
validate_security_config_defaults to_lower compile sc =
    rw
      (
        audit-score to_lower compile sc.dependency_audit,
        runtime-ok to_lower compile sc.runtime_monitoring,
        refuse_if-last
            (sc.dependency_audit.enabled
              && ltb_ℤ (millionths 10000000) sc.dependency_audit.max_cvss_score)
            (codes "max_cvss_score must be between 0 and 10"),
      )
      refl

-- A source that can be synced.
abbrev pub IsSyncable : SourceConfig → Type 0
IsSyncable src =
    (is_empty src.type ≡ false) × (pos 0 <ℤ src.concurrency) × (pos 0 <ℤ src.batch_size)

abbrev pub HoldsIfAny : {A : Type 0} → (A → Type 0) → Option A → Type 0
HoldsIfAny P none = Unit
HoldsIfAny P (some a) = P a

-- What `Load` promises of a configuration.
abbrev pub IsReady : Config → Type 0
IsReady cfg =
    (is_empty cfg.storage.bucket ≡ false)
    × (is_empty cfg.storage.region ≡ false)
    × (is_empty cfg.sources ≡ false)
    × AllValues IsSyncable cfg.sources
    × HoldsIfAny IsComplete cfg.retry

pub refuse_if-ok :
    (b : Bool) (text : Bytes) (rest : Result (Unit {0})) (u : Unit {0})
    → refuse_if b text rest ≡ ok u
    → (b ≡ false) × (rest ≡ ok u)
refuse_if-ok true text rest u e = cc
refuse_if-ok false text rest u e = (refl, e)

pub and_also-ok :
    (a b : Result (Unit {0})) (u : Unit {0}) → and_also a b ≡ ok u → (a ≡ ok u) × (b ≡ ok u)
and_also-ok (ok v) b u e = (refl, e)
and_also-ok (err x) b u e = cc

module _ {W : Type 0} (lib : Libraries W) where
  validate_sources-IsSyncable :
      (m : Map SourceConfig) (u : Unit {0})
      → validate_sources lib (map_values set_source_defaults m) ≡ ok u
      → AllValues IsSyncable (map_values set_source_defaults m)
  unfolding validate_sources set_source_defaults
  validate_sources-IsSyncable [] u e = tt
  validate_sources-IsSyncable ((name, src) ∷ m) u e =
      let (typed, rest) = refuse_if-ok _ _ _ u e in
      (
        (
          typed,
          positive_or-positive (pos 4) src.concurrency (omega arith),
          positive_or-positive (pos 10000) src.batch_size (omega arith),
        ),
        validate_sources-IsSyncable m u rest,
      )

  retry-IsComplete :
      (o : Option RetryConfig) → HoldsIfAny IsComplete (map_option set_retry_defaults o)
  retry-IsComplete none = tt
  retry-IsComplete (some rt) = set_retry_defaults-IsComplete rt

  validate-IsReady :
      (cfg : Config) (u : Unit {0})
      → validate lib (set_defaults cfg) ≡ ok u
      → IsReady (set_defaults cfg)
  unfolding validate set_defaults
  validate-IsReady cfg u e =
      let (bucket, e₁) = refuse_if-ok _ _ _ u e in
      let (region, e₂) = refuse_if-ok _ _ _ u e₁ in
      let (sources, e₃) = refuse_if-ok _ _ _ u e₂ in
      let (each, e₄) = and_also-ok _ _ u e₃ in
      (
        bucket,
        region,
        sources,
        validate_sources-IsSyncable cfg.sources u each,
        retry-IsComplete cfg.retry,
      )

  when_valid-IsReady :
      (cfg cfg' : Config) (r : Result (Unit {0})) (text : Bytes)
      → r ≡ validate lib (set_defaults cfg)
      → when_valid lib (set_defaults cfg) (wrap_error text r) ≡ ok cfg'
      → (cfg' ≡ set_defaults cfg) × IsReady (set_defaults cfg)
  unfolding when_valid
  when_valid-IsReady cfg cfg' (ok u) text r e = (cc, validate-IsReady cfg u (sym r))
  when_valid-IsReady cfg cfg' (err x) text r e = cc

  parsed-IsReady :
      (r : Result Config) (cfg' : Config)
      → parsed lib r ≡ ok cfg'
      → (cfg : Config) × (r ≡ ok cfg) × (cfg' ≡ set_defaults cfg) × IsReady cfg'
  unfolding parsed completed
  parsed-IsReady (ok cfg) cfg' e =
      let (same, ready) = when_valid-IsReady cfg cfg' _ _ refl e in
      (cfg, refl, same, subst IsReady (sym same) ready)
  parsed-IsReady (err x) cfg' e = cc

  -- A configuration that Load returns is what the expanded text of the file parses to with the
  -- defaults set. It names a bucket, a region and at least one source, every source has a type and
  -- a positive concurrency and batch size, and a retry section has policies and breakers, all of
  -- them with positive numbers, and a strategy for every policy.
  pub load-IsReady :
      (path : Bytes) (w : W) (cfg' : Config)
      → (load lib path w).0 ≡ ok cfg'
      → (text : Bytes) × ((lib.read_file path w).0 ≡ ok text)
        × (cfg : Config) × (lib.unmarshal (expand_env_vars lib.trim_space lib.lookup_env text)
            ≡ ok cfg)
        × (cfg' ≡ set_defaults cfg)
        × IsReady cfg'
  unfolding load context ◌>>=◌
  load-IsReady path w cfg' e = go (lib.read_file path w) e
    where
      go :
          (r : Result Bytes × W)
          → ((context (codes "read config " ++ path) (λ _. r) >>= λ text v. (
            parsed lib (lib.unmarshal (expand_env_vars lib.trim_space lib.lookup_env text)),
            v,
          ))
              w).0
            ≡ ok cfg'
          → (text : Bytes) × (r.0 ≡ ok text)
            × (cfg : Config) × (lib.unmarshal (expand_env_vars lib.trim_space lib.lookup_env text)
                ≡ ok cfg)
            × (cfg' ≡ set_defaults cfg)
            × IsReady cfg'
      go (ok text, v) e =
          let (cfg, read, same, ready) = parsed-IsReady _ cfg' e in
          (text, refl, cfg, read, same, ready)
      go (err x, v) e = cc
