-- ===== src/Retry/Policy/Delays.antt =====
-- Bounds and closed forms of the delays.
use agent_brain.Base.{ℕ, suc, ◌+◌, ◌*◌, ◌/◌, ◌^◌, ◌≤◌, ◌<◌, ◌≡◌, true, false, some, arith}
use agent_brain.Base.Int.{ℤ, pos, ◌+ℤ◌, ◌-ℤ◌, ◌*ℤ◌, ◌≤ℤ◌, wrap64_in_range, max_int64, IsInt64}
use agent_brain.Retry.Policy.{
  Floats, RetryPolicy, linear_backoff, exponential_backoff, calculate_delay, add_jitter,
}

-- Linear backoff at attempt k + 1 is the base delay times k + 1, while that is an int64.
pub linear_backoff_lem :
    (k d : ℕ) → d * suc k ≤ max_int64 → linear_backoff (pos (suc k)) (pos d) ≡ pos (d * suc k)
unfolding linear_backoff ◌*ℤ◌
linear_backoff_lem k d h = ground (arith, wrap64_in_range (pos (d * suc k)))

pred-pos : (k : ℕ) → pos (suc k) -ℤ pos 1 ≡ pos k
unfolding ◌-ℤ◌
pred-pos k = ground arith

add-pos : (a b : ℕ) → pos a +ℤ pos b ≡ pos (a + b)
unfolding ◌+ℤ◌
add-pos a b = ground arith

module _ (fl : Floats) where
  -- Exponential backoff at attempt k + 1 is the base delay times 2^k, while that is an int64 and
  -- the base delay is below 2^53.
  pub exponential_backoff_lem :
      (k d : ℕ)
      → d < 2 ^ 53
      → d * 2 ^ k ≤ max_int64
      → exponential_backoff fl (pos (suc k)) (pos d) ≡ pos (d * 2 ^ k)
  unfolding exponential_backoff
  exponential_backoff_lem k d small fits = ground (arith, pred-pos k, fl.doubles k d small fits)

  add_jitter_bound :
      (draw d m : ℕ) → d ≤ m → m < 2 ^ 53 → add_jitter fl draw (pos d) ≤ℤ pos (m + m / 10)
  unfolding add_jitter
  add_jitter_bound draw d m within small =
      let (j, drawn, tenth) = fl.jitter_small draw d (omega arith) in
      let fits : IsInt64 (pos (d + j)) = omega arith in
      rw (drawn, add-pos d j, wrap64_in_range (pos (d + j)) fits) (omega arith)

  module _ {W : Type 0} (p : RetryPolicy W) (f : ℤ → ℤ → ℤ) (set : p.backoff ≡ some f) where
    -- Without jitter no delay of a policy with a backoff passes the policy's limit, whatever the
    -- backoff returns.
    pub calculate_delay_capped :
        (draw : ℕ) (attempt : ℤ)
        → p.jitter ≡ false
        → calculate_delay fl p draw attempt ≤ℤ p.max_delay
    unfolding calculate_delay
    calculate_delay_capped draw attempt off = ground arith

    -- With jitter a delay passes the policy's limit by at most a tenth, for a limit below 2^53
    -- nanoseconds and a backoff that is not negative.
    pub calculate_delay_jitter :
        (draw : ℕ) (attempt : ℤ) (d m : ℕ)
        → p.jitter ≡ true
        → p.max_delay ≡ pos m
        → m < 2 ^ 53
        → f attempt p.base_delay ≡ pos d
        → calculate_delay fl p draw attempt ≤ℤ pos (m + m / 10)
    unfolding calculate_delay
    calculate_delay_jitter draw attempt d m on limit small value =
        ground (arith, add_jitter_bound draw d m, add_jitter_bound draw m m)
