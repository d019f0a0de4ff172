-- ===== src/Retry/Policy.antt =====
-- internal/retry/policy.go: the settings of a retry, and the delay before the next attempt. `W` is
-- the rest of the program's state, on which the `OnRetry` callback acts. Durations are int64
-- nanoseconds.
pub mod Delays
use agent_brain.Base.{
  ℕ, ◌+◌, ◌-◌, ◌*◌, ◌/◌, ◌^◌, ◌≤◌, ◌<◌, ◌≡◌, Bool, true, false, Option, none, some, if◌then◌else◌,
}
use agent_brain.Base.Int.{ℤ, pos, ◌+ℤ◌, ◌-ℤ◌, ◌*ℤ◌, ltb_ℤ, leb_ℤ, wrap64, max_int64}
use agent_brain.Retry.Errors.{Error, default_retryable, s3_retryable, api_retryable}

-- What the program takes from floating point and from `math/rand`:
-- `pow_scaled a b k d` is `time.Duration(float64(d) * math.Pow(a/b, float64(k)))`, and `jitter r d` is
-- `time.Duration(rand.Float64() * (float64(d) * 0.1))` at the random draw `r`. The laws say that
-- doubling is exact while the product fits, and that a draw lies in [0, 1).
pub record Floats : Type 0 where
  pub pow_scaled : ℕ → ℕ → ℤ → ℤ → ℤ
  pub jitter : ℕ → ℤ → ℤ
  pub doubles :
      (k d : ℕ)
      → d < 2 ^ 53
      → d * 2 ^ k ≤ max_int64
      → pow_scaled 2 1 (pos k) (pos d) ≡ pos (d * 2 ^ k)
  pub jitter_small : (r d : ℕ) → d < 2 ^ 53 → (j : ℕ) × (jitter r (pos d) ≡ pos j) × (j ≤ d / 10)

pub record RetryPolicy (W : Type 0) : Type 0 where
  pub max_attempts : ℤ
  pub base_delay : ℤ
  pub max_delay : ℤ
  pub backoff : Option (ℤ → ℤ → ℤ)
  pub retryable : Option (Option Error → Bool)
  pub on_retry : Option (ℕ → Error → W → W)
  pub jitter : Bool

abbrev pub millisecond : ℕ
millisecond = 1000000

abbrev pub second : ℕ
second = 1000000000

-- `IsRetryable`
unfoldable pub is_retryable : {W : Type 0} → RetryPolicy W → Error → Bool
is_retryable p e = elim p.retryable [ none ↦ default_retryable (some e) | some f ↦ f (some e) ]

unfoldable pub linear_backoff : ℤ → ℤ → ℤ
linear_backoff attempt base_delay =
    if leb_ℤ attempt (pos 0) then base_delay else wrap64 (base_delay *ℤ attempt)

unfoldable pub fixed_backoff : ℤ → ℤ → ℤ
fixed_backoff attempt base_delay = base_delay

module _ (fl : Floats) where
  -- The common shape of the three backoffs that grow by a power of `a / b`.
  power_backoff : ℕ → ℕ → ℤ → ℤ → ℤ
  power_backoff a b attempt base_delay =
      if leb_ℤ attempt (pos 0) then base_delay else fl.pow_scaled a b (attempt -ℤ pos 1) base_delay

  unfoldable pub exponential_backoff : ℤ → ℤ → ℤ
  unfolding power_backoff
  exponential_backoff = power_backoff 2 1

  unfoldable pub api_rate_limit_backoff : ℤ → ℤ → ℤ
  unfolding power_backoff
  api_rate_limit_backoff = power_backoff 3 1

  unfoldable pub network_backoff : ℤ → ℤ → ℤ
  unfolding power_backoff
  network_backoff = power_backoff 3 2

  unfoldable pub add_jitter : ℕ → ℤ → ℤ
  add_jitter draw delay = wrap64 (delay +ℤ fl.jitter draw delay)

  unfoldable pub exponential_backoff_with_jitter : ℕ → ℤ → ℤ → ℤ
  unfolding exponential_backoff add_jitter
  exponential_backoff_with_jitter draw attempt base_delay =
      add_jitter draw (exponential_backoff attempt base_delay)

  -- `CalculateDelay`, at a random draw.
  unfoldable pub calculate_delay : {W : Type 0} → RetryPolicy W → ℕ → ℤ → ℤ
  unfolding add_jitter
  calculate_delay p draw attempt = elim p.backoff [
    | none ↦ p.base_delay
    | some f ↦
        let delay = f attempt p.base_delay in
        let capped = if ltb_ℤ p.max_delay delay then p.max_delay else delay in
        if p.jitter then add_jitter draw capped else capped
  ]

  -- The predefined policies; they have no `OnRetry`.
  module _ (W : Type 0) where
    unfoldable pub new_retry_policy : ℤ → ℤ → ℤ → RetryPolicy W
    unfolding exponential_backoff
    new_retry_policy max_attempts base_delay max_delay = record {
      max_attempts = max_attempts;
      base_delay = base_delay;
      max_delay = max_delay;
      backoff = some exponential_backoff;
      retryable = some default_retryable;
      on_retry = none;
      jitter = true;
    }

    unfoldable pub default_retry_policy : RetryPolicy W
    unfolding new_retry_policy
    default_retry_policy = new_retry_policy (pos 3) (pos second) (pos (30 * second))

    unfoldable pub s3_policy : RetryPolicy W
    unfolding exponential_backoff
    s3_policy = record {
      max_attempts = pos 5;
      base_delay = pos (2 * second);
      max_delay = pos (120 * second);
      backoff = some exponential_backoff;
      retryable = some s3_retryable;
      on_retry = none;
      jitter = true;
    }

    unfoldable pub api_policy : RetryPolicy W
    unfolding api_rate_limit_backoff
    api_policy = record {
      max_attempts = pos 3;
      base_delay = pos second;
      max_delay = pos (30 * second);
      backoff = some api_rate_limit_backoff;
      retryable = some api_retryable;
      on_retry = none;
      jitter = true;
    }

    unfoldable pub network_policy : RetryPolicy W
    unfolding network_backoff
    network_policy = record {
      max_attempts = pos 4;
      base_delay = pos (500 * millisecond);
      max_delay = pos (10 * second);
      backoff = some network_backoff;
      retryable = some default_retryable;
      on_retry = none;
      jitter = true;
    }

    unfoldable pub database_policy : RetryPolicy W
    database_policy = record {
      max_attempts = pos 3;
      base_delay = pos second;
      max_delay = pos (15 * second);
      backoff = some linear_backoff;
      retryable = some default_retryable;
      on_retry = none;
      jitter = false;
    }
