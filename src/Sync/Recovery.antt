-- ===== src/Sync/Recovery.antt =====
-- internal/sync/recovery.go and errors.go: retries that are remembered across runs, behind a breaker of
-- their own. Times and durations are nanoseconds. A failure is modelled by what the code inspects: a
-- `SyncError` anywhere in its chain, and its text.
pub mod Breaker
pub mod Waiting
pub mod Ending
pub mod Resume
use agent_brain.Base.{
  ℕ, zero, suc, ◌≤◌, Bool, true, false, not, ◌&&◌, Option, none, some, List, [], ◌∷◌, ◌++◌,
  if◌then◌else◌,
}
use agent_brain.Base.Int.{ℤ, pos, pos_part, ◌+ℤ◌, ◌-ℤ◌, ◌*ℤ◌, ◌≤ℤ◌, ltb_ℤ, wrap64}
use agent_brain.Base.Bytes.{Bytes, codes}
use agent_brain.Base.Decimal.{decimal_int}
use agent_brain.Sync.Recovery.Breaker.{CircuitBreaker, can_execute, record_failure, record_success}

pub data SyncPhase : Type 0 where
  connect discover extract transform store commit validate : SyncPhase

unfoldable pub phase_text : SyncPhase → Bytes
phase_text connect = codes "connect"
phase_text discover = codes "discover"
phase_text extract = codes "extract"
phase_text transform = codes "transform"
phase_text store = codes "store"
phase_text commit = codes "commit"
phase_text validate = codes "validate"

-- `generateSuggestion`
unfoldable pub suggestion : SyncPhase → Bytes
suggestion connect =
    codes "Check connector credentials and API endpoint availability. Verify network connectivity."
suggestion discover =
    codes "Verify object permissions and API access. Check if objects exist in the source system."
suggestion extract =
    codes
      "Check API rate limits and query timeouts. Consider reducing batch size or adding retry delays."
suggestion transform =
    codes "Validate data schema and transformation rules. Check for data type mismatches."
suggestion store =
    codes "Verify S3 bucket permissions and network connectivity. Check available disk space."
suggestion commit =
    codes "Check Delta Lake transaction conflicts. Verify log file integrity and retry the commit."
suggestion validate =
    codes "Review validation rules and data quality. Consider adjusting validation thresholds."

-- The context, the stack trace and the times of a `SyncError` are only reported.
pub record SyncError : Type 0 where
  pub phase : SyncPhase
  pub object : Bytes
  pub cause_msg : Bytes
  pub retryable : Bool
  pub suggestion_text : Bytes

pub data Failure : Type 0 where
  plain : Bytes → Failure
  sync_error : SyncError → Failure
  wrapping : Bytes → Failure → Failure

-- `Error`
unfoldable pub failure_text : Failure → Bytes
unfolding phase_text
failure_text (plain t) = t
failure_text (sync_error e) =
    codes "sync error in "
    ++ (phase_text e.phase
        ++ (codes " phase for object " ++ (e.object ++ (codes ": " ++ e.cause_msg))))
failure_text (wrapping p f) = p ++ (codes ": " ++ failure_text f)

-- `errors.As(err, &syncErr)`, and `IsRetryable` of what it finds; true if it finds none.
unfoldable pub is_retryable : Failure → Bool
is_retryable (plain t) = true
is_retryable (sync_error e) = e.retryable
is_retryable (wrapping p f) = is_retryable f

unfoldable pub new_sync_error : SyncPhase → Bytes → Failure → Bool → SyncError
unfolding suggestion failure_text
new_sync_error phase object cause retryable = record {
  phase = phase;
  object = object;
  cause_msg = failure_text cause;
  retryable = retryable;
  suggestion_text = suggestion phase;
}

-- The watermark, the batch, the context and the metadata, which nothing here reads, are left out.
pub record RecoveryState : Type 0 where
  pub source : Bytes
  pub object : Bytes
  pub phase : SyncPhase
  pub attempts : ℤ
  pub last_attempt : ℤ
  pub next_retry : ℤ

pub record RecoveryConfig : Type 0 where
  pub max_retries : ℤ
  pub base_delay : ℤ
  pub max_delay : ℤ
  pub circuit_breaker_threshold : ℤ
  pub circuit_breaker_timeout : ℤ
  pub partial_recovery : Bool
  pub skip_failed_objects : Bool

unfoldable pub default_recovery_config : RecoveryConfig
default_recovery_config = record {
  max_retries = pos 3;
  base_delay = pos 1000000000;
  max_delay = pos 60000000000;
  circuit_breaker_threshold = pos 5;
  circuit_breaker_timeout = pos 120000000000;
  partial_recovery = true;
  skip_failed_objects = false;
}

-- What the loop uses of the rest of the program: the clock, which does not run backwards between two
-- readings, the jitter (`time.Duration(float64(d) * 0.1 * (2*rand.Float64()-1))`), the `select` of
-- the context and the timer, which gives the context's error if that is done first, and the store of
-- recovery states.
pub record Site (W : Type 0) : Type 0 where
  pub now : W → ℤ × W
  pub jitter : ℤ → W → ℤ × W
  pub wait : ℤ → W → Option Failure × W
  pub load : Bytes → Bytes → W → Option RecoveryState × W
  pub save : RecoveryState → W → Option Failure × W
  pub delete : Bytes → Bytes → W → Option Failure × W
  pub list : Bytes → W → Option (List RecoveryState) × W
  pub monotone : (w : W) → (now w).0 ≤ℤ (now (now w).1).0

pub data Outcome (T : Type 0) : Type 0 where
  done : T → Outcome T
  failed : Failure → Outcome T
  panicked : Outcome T

module _ {W : Type 0} (site : Site W) (config : RecoveryConfig) where
  -- `CanRetry`
  unfoldable pub can_retry : RecoveryState → W → Bool × W
  can_retry rs w =
      let (t, w') = site.now w in
      if ltb_ℤ rs.attempts config.max_retries then (ltb_ℤ rs.next_retry t, w') else (false, w)

  -- `IncrementAttempt`
  unfoldable pub increment_attempt : RecoveryState → W → RecoveryState × W
  increment_attempt rs w =
      let attempts = wrap64 (rs.attempts +ℤ pos 1) in
      let (t, w') = site.now w in
      let linear = wrap64 ((attempts -ℤ pos 1) *ℤ config.base_delay) in
      let delay = if ltb_ℤ config.max_delay linear then config.max_delay else linear in
      let (j, w'') = site.jitter delay w' in
      (
        record rs { attempts = attempts; last_attempt = t; next_retry = t +ℤ wrap64 (delay +ℤ j) },
        w'',
      )

  module _ {T : Type 0} (source object : Bytes) (phase : SyncPhase) (op : W → Outcome T × W) where
    abbrev pub State : Type 0
    State = CircuitBreaker × W

    -- `circuitBreaker.Execute`; a panic of the operation passes through.
    record_outcome : CircuitBreaker → Outcome T × W → Outcome T × State
    unfolding record_failure record_success
    record_outcome cb (done v, w) = (done v, (record_success cb, w))
    record_outcome cb (failed f, w) =
        let (t, w') = site.now w in (failed f, (record_failure t cb, w'))
    record_outcome cb (panicked, w) = (panicked, (cb, w))

    unfoldable pub guarded : State → Outcome T × State
    unfolding can_execute record_outcome
    guarded (cb, w) =
        let (admitted, cb', w') = can_execute site.now cb w in
        if admitted
        then record_outcome cb' (op w')
        else (failed (plain (codes "circuit breaker " ++ (cb.name ++ codes " is open"))), (cb', w'))

    -- The end of the function; `NewSyncError` of no error panics.
    unfoldable pub give_up : Option Failure → State → Outcome T × State
    unfolding new_sync_error
    give_up none x = (panicked, x)
    give_up (some f) x = (failed (sync_error (new_sync_error phase object f false)), x)

    -- What follows an attempt; `next` is the rest of the loop.
    unfoldable pub after_attempt :
        RecoveryState
        → (RecoveryState → Option Failure → State → Outcome T × State)
        → Outcome T × State
        → Outcome T × State
    unfolding give_up is_retryable
    after_attempt rs next (done v, (cb, w)) = (done v, (cb, (site.delete source object w).1))
    after_attempt rs next (panicked, x) = (panicked, x)
    after_attempt rs next (failed f, (cb, w)) =
        if is_retryable f
        then next rs (some f) (cb, (site.save rs w).1)
        else give_up (some f) (cb, w)

    -- The wait before a retry; `body` is the rest of the round.
    unfoldable pub await : RecoveryState → (State → Outcome T × State) → State → Outcome T × State
    await rs body (cb, w) =
        let (t, w') = site.now w in
        let (t', w'') = site.now w' in
        let (stopped, w₃) = site.wait (rs.next_retry -ℤ t') w'' in
        if ltb_ℤ (pos 0) rs.attempts
        then if ltb_ℤ t rs.next_retry
          then elim stopped [ some f ↦ (failed f, (cb, w₃)) | none ↦ body (cb, w₃) ]
          else body (cb, w')
        else body (cb, w)

    unfoldable pub attempt :
        (RecoveryState → Option Failure → State → Outcome T × State)
        → RecoveryState
        → State
        → Outcome T × State
    unfolding after_attempt guarded increment_attempt
    attempt next rs (cb, w) =
        let (rs', w') = increment_attempt rs w in after_attempt rs' next (guarded (cb, w'))

    -- One round of `for recoveryState.CanRetry(...)`; `next` is the rest of the loop.
    unfoldable pub round :
        (RecoveryState → Option Failure → State → Outcome T × State)
        → RecoveryState
        → Option Failure
        → State
        → Outcome T × State
    round next rs last (cb, w) =
        let (can, w') = can_retry rs w in
        if can then await rs (attempt next rs) (cb, w') else give_up last (cb, w')

    -- The loop. The number of attempts grows to the limit, at which `CanRetry`
    -- is false, so as many rounds as the limit are enough.
    unfoldable pub rounds : ℕ → RecoveryState → Option Failure → State → Outcome T × State
    rounds zero rs last x = give_up last x
    rounds (suc n) rs last x = round (rounds n) rs last x

    -- The state to start from.
    unfoldable pub recall : W → RecoveryState × W
    recall w =
        let (found, w') = site.load source object w in
        let (t, w'') = site.now w' in
        elim found [
          | some rs ↦ (rs, w')
          | none ↦ (
            record {
              source = source;
              object = object;
              phase = phase;
              attempts = pos 0;
              last_attempt = pos 0;
              next_retry = t;
            },
            w'',
          )
        ]

    -- The answer when no retry is left.
    unfoldable pub refuse : T → RecoveryState → State → Outcome T × State
    refuse empty rs x = if config.skip_failed_objects then (done empty, x) else (
      failed (
          plain (
            codes "max retries exceeded for "
            ++ (source
                ++ (codes "/"
                    ++ (object
                        ++ (codes " (" ++ (decimal_int rs.attempts ++ codes " attempts)"))))))),
      x,
    )

    -- `ExecuteWithRetry`; `empty` is `&Result{}`. The correlation id is only reported.
    unfoldable pub execute_with_retry : T → State → Outcome T × State
    execute_with_retry empty (cb, w) =
        let (rs, w') = recall w in
        let (can, w'') = can_retry rs w' in
        if can
        then rounds (suc (pos_part (config.max_retries -ℤ rs.attempts))) rs none (cb, w'')
        else refuse empty rs (cb, w'')
