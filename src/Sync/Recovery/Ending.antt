-- ===== src/Sync/Recovery/Ending.antt =====
-- internal/sync/recovery.go: the loop of `ExecuteWithRetry` ends by its own test.
use mathlib.Core.Path.{fun_ext}
use agent_brain.Base.{
  ℕ, zero, suc, ◌+◌, ◌≡◌, refl, sym, ap, ◌∙◌, true, false, Option, none, some, arith, if◌then◌else◌,
  if_both, Bool-cases, inl, inr,
}
use agent_brain.Base.Bytes.{Bytes}
use agent_brain.Base.Int.{
  ℤ, pos, pos_part, ltb_ℤ, ◌≤ℤ◌, ◌<ℤ◌, ◌-ℤ◌, ◌+ℤ◌, wrap64, wrap64_in_range, IsInt64,
}
use agent_brain.Sync.Recovery.Breaker.{CircuitBreaker}
use agent_brain.Sync.Recovery.Waiting.{rounds-suc}
use agent_brain.Sync.Recovery.{
  SyncPhase, Failure, RecoveryState, RecoveryConfig, Site, Outcome, done, failed, panicked,
  can_retry, await, attempt, recall, refuse, execute_with_retry, after_attempt, increment_attempt,
  guarded, is_retryable, round, rounds, give_up,
}

next_attempt : (a m : ℤ) → IsInt64 a → IsInt64 m → a <ℤ m → wrap64 (a +ℤ pos 1) ≡ a +ℤ pos 1
unfolding ◌+ℤ◌
next_attempt a m h k below = wrap64_in_range (a +ℤ pos 1) (ground arith)

next_left : (a m : ℤ) (n : ℕ) → a <ℤ m → m ≤ℤ a +ℤ pos (suc n) → m ≤ℤ (a +ℤ pos 1) +ℤ pos n
unfolding ◌+ℤ◌
next_left a m n below left = ground arith

next_in_range : (a m : ℤ) → IsInt64 a → IsInt64 m → a <ℤ m → IsInt64 (a +ℤ pos 1)
unfolding ◌+ℤ◌
next_in_range a m h k below = ground arith

at_limit : (a m : ℤ) → m ≤ℤ a +ℤ pos 0 → m ≤ℤ a
unfolding ◌+ℤ◌
at_limit a m h = ground arith

left_over : (a m : ℤ) → m ≤ℤ a +ℤ pos (suc (pos_part (m -ℤ a)))
unfolding ◌+ℤ◌ ◌-ℤ◌
left_over a m = ground arith

module _ {W T : Type 0} (site : Site W) (config : RecoveryConfig) (source object : Bytes)
    (phase : SyncPhase) (op : W → Outcome T × W) where
  abbrev Next : Type 0
  Next = RecoveryState → Option Failure → CircuitBreaker × W → Outcome T × (CircuitBreaker × W)

  after_attempt_agree :
      (next next' : Next) (rs : RecoveryState) (r : Outcome T × (CircuitBreaker × W))
      → ((last : Option Failure) (x : CircuitBreaker × W) → next rs last x ≡ next' rs last x)
      → after_attempt site config source object phase op rs next r
        ≡ after_attempt site config source object phase op rs next' r
  unfolding after_attempt
  after_attempt_agree next next' rs (done v, (cb, w)) h = refl
  after_attempt_agree next next' rs (panicked, x) h = refl
  after_attempt_agree next next' rs (failed f, (cb, w)) h =
      if_both (◌≡◌) (is_retryable f) _ _ _ _ (h (some f) (cb, (site.save rs w).1)) refl

  increment_attempts :
      (rs : RecoveryState) (w : W)
      → (increment_attempt site config rs w).0.attempts ≡ wrap64 (rs.attempts +ℤ pos 1)
  unfolding increment_attempt
  increment_attempts rs w = refl

  attempt_agree :
      (next next' : Next) (rs : RecoveryState) (x : CircuitBreaker × W)
      → ((rs' : RecoveryState) (last : Option Failure) (y : CircuitBreaker × W)
          → rs'.attempts ≡ wrap64 (rs.attempts +ℤ pos 1)
          → next rs' last y ≡ next' rs' last y)
      → attempt site config source object phase op next rs x
        ≡ attempt site config source object phase op next' rs x
  unfolding attempt
  attempt_agree next next' rs (cb, w) h =
      let (rs', w') = increment_attempt site config rs w in
      after_attempt_agree next next' rs' (guarded site config source object phase op (cb, w'))
        (λ last y. h rs' last y (increment_attempts rs w))

  can_retry-below :
      (rs : RecoveryState) (w : W)
      → (can_retry site config rs w).0 ≡ true
      → rs.attempts <ℤ config.max_retries
  unfolding can_retry
  can_retry-below rs w e = ground arith

  can_retry-limit :
      (rs : RecoveryState) (w : W)
      → config.max_retries ≤ℤ rs.attempts
      → can_retry site config rs w ≡ (false, w)
  unfolding can_retry
  can_retry-limit rs w h =
      let over : ltb_ℤ rs.attempts config.max_retries ≡ false = ground arith in rw over refl

  round_agree :
      (next next' : Next) (rs : RecoveryState) (last : Option Failure) (x : CircuitBreaker × W)
      → (rs.attempts <ℤ config.max_retries
          → (rs' : RecoveryState) (last : Option Failure) (y : CircuitBreaker × W)
          → rs'.attempts ≡ wrap64 (rs.attempts +ℤ pos 1)
          → next rs' last y ≡ next' rs' last y)
      → round site config source object phase op next rs last x
        ≡ round site config source object phase op next' rs last x
  unfolding round
  round_agree next next' rs last (cb, w) h = elim (Bool-cases (can_retry site config rs w).0) [
    | inr stop ↦ rw stop refl
    | inl go ↦ rw go (
        ap
          (λ body.
            await site config source object phase op rs body (cb, (can_retry site config rs w).1))
          (fun_ext (λ y. attempt_agree next next' rs y (h (can_retry-below rs w go)))))
  ]

  rounds_over :
      (k : ℕ) (rs : RecoveryState) (last : Option Failure) (x : CircuitBreaker × W)
      → config.max_retries ≤ℤ rs.attempts
      → rounds site config source object phase op k rs last x
        ≡ give_up site config source object phase op last x
  unfolding rounds round
  rounds_over zero rs last x h = refl
  rounds_over (suc k) rs last (cb, w) h = rw (can_retry-limit rs w h) refl

  -- enough
  pub rounds_enough :
      (n k : ℕ) (rs : RecoveryState) (last : Option Failure) (x : CircuitBreaker × W)
      → IsInt64 rs.attempts
      → IsInt64 config.max_retries
      → config.max_retries ≤ℤ rs.attempts +ℤ pos n
      → rounds site config source object phase op (n + k) rs last x
        ≡ rounds site config source object phase op n rs last x
  rounds_enough zero k rs last x ha hm left =
      let none_more : 0 + k ≡ k = omega arith in
      ap (λ j. rounds site config source object phase op j rs last x) none_more
      ∙ rounds_over k rs last x (at_limit rs.attempts config.max_retries left)
      ∙ sym (rounds_over 0 rs last x (at_limit rs.attempts config.max_retries left))
  rounds_enough (suc n) k rs last x ha hm left =
      let one_more : suc n + k ≡ suc (n + k) = omega arith in
      ap (λ j. rounds site config source object phase op j rs last x) one_more
      ∙ rounds-suc site config source object phase op (n + k) rs last x
      ∙ round_agree (rounds site config source object phase op (n + k))
          (rounds site config source object phase op n) rs last x
          (λ below rs' last' y e.
            let step = e ∙ next_attempt rs.attempts config.max_retries ha hm below in
            rounds_enough n k rs' last' y
              (rw step (next_in_range rs.attempts config.max_retries ha hm below)) hm
              (rw step (next_left rs.attempts config.max_retries n below left)))
      ∙ sym (rounds-suc site config source object phase op n rs last x)

  -- The retry loop of the sync recovery ends by its own test: with the recorded attempts and the
  -- limit in the range of int64, ExecuteWithRetry gives the same as a loop that may take any number
  -- of rounds more than the attempts that are left.
  pub execute_with_retry_ends :
      (k : ℕ) (empty : T) (cb : CircuitBreaker) (w : W)
      → IsInt64 (recall site config source object phase op w).0.attempts
      → IsInt64 config.max_retries
      → let (rs, w') = recall site config source object phase op w in
        let (can, w'') = can_retry site config rs w' in
        execute_with_retry site config source object phase op empty (cb, w) ≡ (
          if can
          then rounds site config source object phase op
              (suc (pos_part (config.max_retries -ℤ rs.attempts)) + k)
              rs
              none
              (cb, w'')
          else refuse site config source object phase op empty rs (cb, w''))
  unfolding execute_with_retry
  execute_with_retry_ends k empty cb w ha hm =
      let (rs, w') = recall site config source object phase op w in
      let (can, w'') = can_retry site config rs w' in
      let n = suc (pos_part (config.max_retries -ℤ rs.attempts)) in
      rw (rounds_enough n k rs none (cb, w'') ha hm (left_over rs.attempts config.max_retries)) refl
