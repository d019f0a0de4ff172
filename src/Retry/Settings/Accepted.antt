-- ===== src/Retry/Settings/Accepted.antt =====
-- internal/retry/config.go: a configuration that is valid gives a policy for every operation.
use mathlib.Core.Path.{subst}
use agent_brain.Base.{
  ℕ, ◌≡◌, refl, inl, inr, Bool, false, not, ◌&&◌, Option, none, some, [], ◌∷◌, ◌++◌, arith,
  Bool-cases, some_inj,
}
use agent_brain.Base.Int.{ℤ, pos, ◌<ℤ◌, ◌≤ℤ◌, leb_ℤ, ltb_ℤ}
use agent_brain.Base.Bytes.{Bytes, codes, bytes_eq}
use agent_brain.Base.Map.{Map, lookup}
use agent_brain.Delta.Store.{wrap_error}
use agent_brain.Schema.{is_empty}
use agent_brain.Config.Retry.{RetryPolicyConfig, RetryConfig}
use agent_brain.Config.Ready.{refuse_if-ok, and_also-ok}
use agent_brain.Sync.Planner.{contains}
use agent_brain.Retry.Errors.{Error, Result, ok, err, is_err}
use agent_brain.Retry.Policy.{Floats, RetryPolicy}
use agent_brain.Retry.Settings.{
  parse_backoff_strategy, policy_with, built, to_retry_policy, get_operation_policy,
  valid_strategies, validate_policy, validate_breaker, each_valid, validate_retry,
}

wrap_error-ok :
    (text : Bytes) (r : Result (Unit {0})) (u : Unit {0}) → wrap_error text r ≡ ok u → r ≡ ok u
wrap_error-ok text (ok v) u e = refl
wrap_error-ok text (err x) u e = cc

ok_of : {A : Type 0} (r : Result A) → is_err r ≡ false → (a : A) × (r ≡ ok a)
ok_of (ok a) h = (a, refl)
ok_of (err e) h = cc

module _ (fl : Floats) (draw : ℤ → ℕ) where
  -- Every strategy that the validation knows is known to the parser.
  parse-valid :
      (s : Bytes)
      → (not (is_empty s) && not (contains valid_strategies s)) ≡ false
      → is_err (parse_backoff_strategy fl draw s) ≡ false
  unfolding parse_backoff_strategy contains valid_strategies
  parse-valid s h = ground arith

  -- A policy that makes an attempt, and waits no longer than it may.
  abbrev pub IsSound : {W : Type 0} → RetryPolicy W → Type 0
  IsSound p = (pos 1 ≤ℤ p.max_attempts) × (pos 0 <ℤ p.base_delay) × (p.base_delay ≤ℤ p.max_delay)

  module _ (W : Type 0) (text : ℤ → Bytes) where
    built-IsSound :
        (pc : RetryPolicyConfig) (retryable : Option Error → Bool) (name : Bytes)
        (r : Result (ℤ → ℤ → ℤ))
        → is_err r ≡ false
        → pos 1 ≤ℤ pc.max_attempts
        → pos 0 <ℤ pc.base_delay
        → pc.base_delay ≤ℤ pc.max_delay
        → (p : RetryPolicy W) × (built fl draw W pc retryable (wrap_error name r) ≡ ok p)
          × IsSound p
    unfolding built policy_with
    built-IsSound pc retryable name (ok f) h attempts base max =
        (policy_with fl draw W pc retryable f, refl, (attempts, base, max))
    built-IsSound pc retryable name (err e) h attempts base max = cc

    to_retry_policy-IsSound :
        (pc : RetryPolicyConfig) (u : Unit {0})
        → validate_policy text pc ≡ ok u
        → (p : RetryPolicy W) × (to_retry_policy fl draw W pc ≡ ok p) × IsSound p
    unfolding validate_policy to_retry_policy
    to_retry_policy-IsSound pc u e =
        let (attempts, e₁) = refuse_if-ok (leb_ℤ pc.max_attempts (pos 0)) _ _ u e in
        let (base, e₂) = refuse_if-ok (leb_ℤ pc.base_delay (pos 0)) _ _ u e₁ in
        let (max, e₃) = refuse_if-ok (leb_ℤ pc.max_delay (pos 0)) _ _ u e₂ in
        let (order, e₄) = refuse_if-ok (ltb_ℤ pc.max_delay pc.base_delay) _ _ u e₃ in
        let (known, e₅) =
          refuse_if-ok
            (not (is_empty pc.backoff_strategy)
              && not (contains valid_strategies pc.backoff_strategy))
            _ (ok tt) u e₄ in
        built-IsSound pc _ _ (parse_backoff_strategy fl draw pc.backoff_strategy)
          (parse-valid pc.backoff_strategy known) (ground (arith, attempts)) (ground (arith, base))
          (ground (arith, order))

    abbrev each_name : Bytes → Bytes → Bytes
    each_name kind name = codes "invalid " ++ (kind ++ (codes " '" ++ (name ++ codes "'")))

    each_valid-lookup :
        (kind : Bytes) (m : Map RetryPolicyConfig) (name : Bytes) (pc : RetryPolicyConfig)
        (u : Unit {0})
        → each_valid text kind (validate_policy text) m ≡ ok u
        → lookup name m ≡ some pc
        → validate_policy text pc ≡ ok u
    unfolding each_valid lookup
    each_valid-lookup kind [] name pc u e found = cc
    each_valid-lookup kind ((k, a) ∷ m) name pc u e found =
        let (first, rest) =
          and_also-ok (wrap_error (each_name kind k) (validate_policy text a))
            (each_valid text kind (validate_policy text) m) u e in
        elim (Bool-cases (bytes_eq k name)) [
          | inl here ↦
              let same : a ≡ pc = some_inj (rw here at found) in
              subst (λ x. validate_policy text x ≡ ok u) same
                (wrap_error-ok (each_name kind k) (validate_policy text a) u first)
          | inr there ↦ each_valid-lookup kind m name pc u rest (rw there at found)
        ]

    -- From a retry configuration that Validate accepts, GetOperationPolicy gives a policy for every
    -- operation, configured or not, and that policy makes at least one attempt and has a positive
    -- base delay that is no longer than the maximal delay.
    pub get_operation_policy-IsSound :
        (c : RetryConfig) (operation : Bytes)
        → validate_retry text c ≡ ok tt
        → (p : RetryPolicy W) × (get_operation_policy fl draw W c operation ≡ ok p) × IsSound p
    unfolding validate_retry get_operation_policy
    get_operation_policy-IsSound c operation e =
        let (default, rest) =
          and_also-ok
            (wrap_error (codes "invalid default policy") (validate_policy text c.default_policy)) _
            tt e in
        let (breakers, policies) =
          and_also-ok
            (each_valid text (codes "circuit breaker") (validate_breaker text) c.circuit_breakers)
            (each_valid text (codes "operation policy") (validate_policy text) c.operation_policies)
            tt rest in
        go (lookup operation c.operation_policies) refl default policies
      where
        go :
            (o : Option RetryPolicyConfig)
            → lookup operation c.operation_policies ≡ o
            → wrap_error (codes "invalid default policy") (validate_policy text c.default_policy)
              ≡ ok tt
            → each_valid text (codes "operation policy") (validate_policy text) c.operation_policies
              ≡ ok tt
            → (p : RetryPolicy W) × (elim o [
              | some pc ↦ to_retry_policy fl draw W pc
              | none ↦ to_retry_policy fl draw W c.default_policy
            ]
                ≡ ok p)
              × IsSound p
        go none missing default policies = to_retry_policy-IsSound c.default_policy tt (
            wrap_error-ok (codes "invalid default policy") (validate_policy text c.default_policy)
              tt default)
        go (some pc) found default policies = to_retry_policy-IsSound pc tt (
            each_valid-lookup (codes "operation policy") c.operation_policies operation pc tt
              policies found)
