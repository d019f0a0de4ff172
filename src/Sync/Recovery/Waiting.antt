-- ===== src/Sync/Recovery/Waiting.antt =====
-- internal/sync/recovery.go: the loop of `ExecuteWithRetry` and its wait.
use mathlib.Core.Path.{fun_ext}
use agent_brain.Base.{
  ℕ, zero, suc, ◌≡◌, refl, sym, ap, ◌∙◌, true, false, Option, none, arith, if◌then◌else◌,
  Bool-cases, inl, inr,
}
use agent_brain.Base.Bytes.{Bytes}
use agent_brain.Base.Int.{ℤ, pos_part, ltb_ℤ, ◌≤ℤ◌, ◌-ℤ◌}
use agent_brain.Sync.Recovery.Breaker.{CircuitBreaker}
use agent_brain.Sync.Recovery.{
  SyncPhase, Failure, RecoveryState, RecoveryConfig, Site, Outcome, can_retry, await, attempt,
  round, rounds, recall, refuse, give_up, guarded, after_attempt, increment_attempt,
  execute_with_retry,
}

not_before : (next t t' : ℤ) → ltb_ℤ next t ≡ true → t ≤ℤ t' → ltb_ℤ t' next ≡ false
not_before next t t' h k = ground arith

pub rounds-suc :
    {W T : Type 0} (site : Site W) (config : RecoveryConfig) (source object : Bytes)
    (phase : SyncPhase) (op : W → Outcome T × W) (n : ℕ) (rs : RecoveryState)
    (last : Option Failure) (x : CircuitBreaker × W)
    → rounds site config source object phase op (suc n) rs last x
      ≡ round site config source object phase op
          (rounds site config source object phase op n)
          rs
          last
          x
unfolding rounds
rounds-suc site config source object phase op n rs last x = refl

module _ {W T : Type 0} (site : Site W) (config : RecoveryConfig) (source object : Bytes)
    (phase : SyncPhase) (op : W → Outcome T × W) (other : ℤ → W → Option Failure × W) where
  -- The same surroundings with another way to wait.
  abbrev pub patient : Site W
  patient = record site { wait = other }

  await_same :
      (rs : RecoveryState) (body : CircuitBreaker × W → Outcome T × (CircuitBreaker × W))
      (cb : CircuitBreaker) (w : W)
      → ltb_ℤ (site.now w).0 rs.next_retry ≡ false
      → await patient config source object phase op rs body (cb, w)
        ≡ await site config source object phase op rs body (cb, w)
  unfolding await
  await_same rs body cb w e = rw e refl

  admitted :
      (rs : RecoveryState) (w : W)
      → (can_retry site config rs w).0 ≡ true
      → ((can_retry site config rs w).1 ≡ (site.now w).1)
        × (ltb_ℤ rs.next_retry (site.now w).0 ≡ true)
  unfolding can_retry
  admitted rs w e = ground arith

  can_retry_same :
      (rs : RecoveryState) (w : W) → can_retry patient config rs w ≡ can_retry site config rs w
  unfolding can_retry
  can_retry_same rs w = refl

  attempt_same :
      (next : RecoveryState
        → Option Failure
        → CircuitBreaker × W
        → Outcome T × (CircuitBreaker × W))
      (rs : RecoveryState) (x : CircuitBreaker × W)
      → attempt patient config source object phase op next rs x
        ≡ attempt site config source object phase op next rs x
  unfolding attempt after_attempt guarded increment_attempt
  attempt_same next rs x = refl

  -- The decision of one round, with the rest of the round given.
  decision_same :
      (body : CircuitBreaker × W → Outcome T × (CircuitBreaker × W)) (rs : RecoveryState)
      (cb : CircuitBreaker) (w : W) (otherwise : Outcome T × (CircuitBreaker × W))
      → (if (can_retry site config rs w).0
          then await patient config source object phase op rs body
              (cb, (can_retry site config rs w).1)
          else otherwise)
        ≡ (if (can_retry site config rs w).0
            then await site config source object phase op rs body
                (cb, (can_retry site config rs w).1)
            else otherwise)
  decision_same body rs cb w otherwise = elim (Bool-cases (can_retry site config rs w).0) [
    | inr stop ↦ rw stop refl
    | inl go ↦
        let (state, past) = admitted rs w go in
        rw go (
          await_same rs body cb (can_retry site config rs w).1 (
            rw state (
              not_before rs.next_retry (site.now w).0 (site.now (site.now w).1).0 past
                (site.monotone w))))
  ]

  round_same :
      (next : RecoveryState
        → Option Failure
        → CircuitBreaker × W
        → Outcome T × (CircuitBreaker × W))
      (rs : RecoveryState) (last : Option Failure) (x : CircuitBreaker × W)
      → round patient config source object phase op next rs last x
        ≡ round site config source object phase op next rs last x
  unfolding round give_up
  round_same next rs last (cb, w) =
      let body : attempt patient config source object phase op next rs
          ≡ attempt site config source object phase op next rs =
        fun_ext (attempt_same next rs) in
      rw (can_retry_same rs w, body)
        (decision_same (attempt site config source object phase op next rs) rs cb w
          (give_up site config source object phase op last (cb, (can_retry site config rs w).1)))

  rounds_same :
      (n : ℕ) (rs : RecoveryState) (last : Option Failure) (x : CircuitBreaker × W)
      → rounds patient config source object phase op n rs last x
        ≡ rounds site config source object phase op n rs last x
  rounds_same zero rs last x = unfold rounds give_up in refl
  rounds_same (suc n) rs last x =
      rounds-suc patient config source object phase op n rs last x
      ∙ ap (λ next. round patient config source object phase op next rs last x)
          (fun_ext (λ r. fun_ext (λ l. fun_ext (λ y. rounds_same n r l y))))
      ∙ round_same (rounds site config source object phase op n) rs last x
      ∙ sym (rounds-suc site config source object phase op n rs last x)

  recall_same :
      (w : W)
      → recall patient config source object phase op w ≡ recall site config source object phase op w
  unfolding recall
  recall_same w = refl

  -- ExecuteWithRetry of the sync recovery never waits: with any other way to wait in place of the
  -- timer and the context it returns the same and leaves the same state. The condition is that of
  -- two readings of the clock the second is not before the first.
  pub execute_with_retry_waits_never :
      (empty : T) (x : CircuitBreaker × W)
      → execute_with_retry patient config source object phase op empty x
        ≡ execute_with_retry site config source object phase op empty x
  unfolding execute_with_retry refuse
  execute_with_retry_waits_never empty (cb, w) =
      let (rs, w') = recall site config source object phase op w in
      rw
        (
          recall_same w,
          can_retry_same rs w',
          rounds_same (suc (pos_part (config.max_retries -ℤ rs.attempts))) rs none
              (cb, (can_retry site config rs w').1),
        )
        refl
