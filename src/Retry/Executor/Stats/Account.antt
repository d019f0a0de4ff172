-- ===== src/Retry/Executor/Stats/Account.antt =====
-- internal/retry/executor.go: the two copies of the loop beside each other, and what the statistics
-- mean.
use agent_brain.Base.{
  ℕ, zero, suc, ◌+◌, ◌≡◌, refl, sym, true, false, not, Option, none, some, arith, if_split, if_both,
}
use agent_brain.Base.Int.{ℤ, pos, negsuc, pos_part, sub_ℕ, eqb_ℤ, eqb_ℤ→eq, ◌≤ℤ◌}
use agent_brain.Retry.Errors.{Error, Result, ok, err}
use agent_brain.Retry.Policy.{RetryPolicy, is_retryable, calculate_delay}
use agent_brain.Retry.Executor
use agent_brain.Retry.Executor.{
  Runtime, Operation, notify, execute, non_retryable_error, exhausted_error,
}
use agent_brain.Retry.Executor.Stats.{
  ExecutionResult, finish, resume, pause, after_attempt, run_attempts, execute_with_stats,
}

abbrev plain : {W T : Type 0} → ExecutionResult T × W → Result T × W
plain (r, w) = (r.outcome, w)

abbrev Agrees : (W T : Type 0) → ExecutionResult T × W → Result T × W → Type 0
Agrees W T r r' = plain r ≡ r'

module _ {W T : Type 0} (rt : Runtime W) (p : RetryPolicy W) (start : ℕ) where
  resume-plain :
      (k : ℕ) (d : ℤ) (e : Error) (next : ℤ → Option Error → W → ExecutionResult T × W)
      (next' : Option Error → W → Result T × W) (r : Option Error × W)
      → ((d' : ℤ) (last : Option Error) (w : W) → plain (next d' last w) ≡ next' last w)
      → plain (resume rt p start k d e next r) ≡ Executor.resume rt p e next' r
  unfolding resume Executor.resume finish
  resume-plain k d e next next' (some c, w) h = refl
  resume-plain k d e next next' (none, w) h = h d (some e) w

  pause-plain :
      (k : ℕ) (e : Error) (next : ℤ → Option Error → W → ExecutionResult T × W)
      (next' : Option Error → W → Result T × W) (w : W)
      → ((d' : ℤ) (last : Option Error) (w : W) → plain (next d' last w) ≡ next' last w)
      → plain (pause rt p start k e next w) ≡ Executor.pause rt p k e next' w
  unfolding pause Executor.pause
  pause-plain k e next next' w h = resume-plain k _ e next next' (rt.wait _ (notify p k e w)) h

  after_attempt-plain :
      (k : ℕ) (d : ℤ) (next : ℤ → Option Error → W → ExecutionResult T × W)
      (next' : Option Error → W → Result T × W) (r : Result T × W)
      → ((d' : ℤ) (last : Option Error) (w : W) → plain (next d' last w) ≡ next' last w)
      → plain (after_attempt rt p start k d next r) ≡ Executor.after_attempt rt p k next' r
  unfolding after_attempt Executor.after_attempt finish
  after_attempt-plain k d next next' (ok v, w) h = refl
  after_attempt-plain k d next next' (err e, w) h =
      if_both (Agrees W T) (not (is_retryable p e)) _ _ _ _ refl (
        if_both (Agrees W T) (eqb_ℤ (pos k) p.max_attempts) _ _ _ _ refl
          (pause-plain k e next next' w h))

  run_attempts-plain :
      (op : Operation W T) (n k : ℕ) (d : ℤ) (last : Option Error) (w : W)
      → plain (run_attempts rt p start op n k d last w) ≡ Executor.run_attempts rt p op n k last w
  unfolding run_attempts Executor.run_attempts finish
  run_attempts-plain op zero k d last w = refl
  run_attempts-plain op (suc n) k d last w =
      after_attempt-plain k d (run_attempts rt p start op n (suc k))
        (Executor.run_attempts rt p op n (suc k)) (op w) (run_attempts-plain op n (suc k))

-- ExecuteWithStats returns the same result and leaves the same state as Execute, for every policy,
-- operation and runtime.
pub execute_with_stats-execute :
    {W T : Type 0} (rt : Runtime W) (p : RetryPolicy W) (op : Operation W T) (w : W)
    → let (r, w') = execute_with_stats rt p op w in execute rt p op w ≡ (r.outcome, w')
unfolding execute_with_stats execute
execute_with_stats-execute rt p op w =
    sym (run_attempts-plain rt p (rt.clock w) op (pos_part p.max_attempts) 1 (pos 0) none w)

module _ {W T : Type 0} (rt : Runtime W) (p : RetryPolicy W) (op : Operation W T) where
  -- The callback and the wait behind the failure of attempt `k`.
  abbrev pub waited : ℕ → Error → W → Option Error × W
  waited k e w =
      let notified = notify p k e w in
      rt.wait (calculate_delay rt.floats p (rt.draw notified) (pos k)) notified

  -- `Retries k w w'`: from `w`, after `k` failed attempts and the waits behind them, the next attempt
  -- begins in `w'`.
  pub data Retries (w : W) : ℕ → W → Type 0 where
    begin : Retries w zero w
    again :
        {k : ℕ} {w' w₁ w₂ : W} (e : Error)
        → Retries w k w'
        → op w' ≡ (err e, w₁)
        → is_retryable p e ≡ true
        → waited (suc k) e w₁ ≡ (none, w₂)
        → Retries w (suc k) w₂

  -- How attempt `k`, which begins in `w`, ends the loop.
  pub data EndsLoop (k : ℕ) (w : W) : Result T → W → Type 0 where
    succeeded : {w₁ : W} (v : T) → op w ≡ (ok v, w₁) → EndsLoop k w (ok v) w₁
    given_up :
        {w₁ : W} (e : Error)
        → op w ≡ (err e, w₁)
        → is_retryable p e ≡ false
        → EndsLoop k w (err (non_retryable_error k e)) w₁
    used_up :
        {w₁ : W} (e : Error)
        → op w ≡ (err e, w₁)
        → is_retryable p e ≡ true
        → pos k ≡ p.max_attempts
        → EndsLoop k w (err (exhausted_error p.max_attempts (some e))) w₁
    cancelled :
        {w₁ w₂ : W} (e c : Error)
        → op w ≡ (err e, w₁)
        → is_retryable p e ≡ true
        → waited k e w₁ ≡ (some c, w₂)
        → EndsLoop k w (err c) w₂

  -- What the statistics claim: so many calls, all but the last failed and retried, and the last one
  -- the reason for the result, with the time that all of it took.
  pub record IsAccounted (w : W) (r : ExecutionResult T × W) : Type 0 where
    pub failed : ℕ
    pub last_start : W
    pub attempts_true : r.0.attempts ≡ pos (suc failed)
    pub within : pos (suc failed) ≤ℤ p.max_attempts
    pub history : Retries w failed last_start
    pub ending : EndsLoop (suc failed) last_start r.0.outcome r.1
    pub duration_true : r.0.total_duration ≡ sub_ℕ (rt.clock r.1) (rt.clock w)

  module _ (w₀ : W) where
    finish-IsAccounted :
        (k : ℕ) (n d : ℤ) (r : Result T) (w w₁ : W)
        → n ≡ pos (suc k)
        → Retries w₀ k w
        → pos (suc k) ≤ℤ p.max_attempts
        → EndsLoop (suc k) w r w₁
        → IsAccounted w₀ (finish rt p (rt.clock w₀) n d r w₁)
    unfolding finish
    finish-IsAccounted k n d r w w₁ same past within ending = record {
      failed = k;
      last_start = w;
      attempts_true = same;
      within = within;
      history = past;
      ending = ending;
      duration_true = refl;
    }

    resume-IsAccounted :
        (k : ℕ) (d : ℤ) (e : Error) (next : ℤ → Option Error → W → ExecutionResult T × W) (w w₁ : W)
        (r : Option Error × W)
        → waited (suc k) e w₁ ≡ r
        → Retries w₀ k w
        → op w ≡ (err e, w₁)
        → is_retryable p e ≡ true
        → pos (suc k) ≤ℤ p.max_attempts
        → ((d' : ℤ) (last : Option Error) (w' : W)
            → Retries w₀ (suc k) w'
            → IsAccounted w₀ (next d' last w'))
        → IsAccounted w₀ (resume rt p (rt.clock w₀) (suc k) d e next r)
    unfolding resume
    resume-IsAccounted k d e next w w₁ (some c, w₂) waiting past failed worth within rest =
        finish-IsAccounted k (pos (suc k)) d (err c) w w₂ refl past within
          (cancelled e c failed worth waiting)
    resume-IsAccounted k d e next w w₁ (none, w₂) waiting past failed worth within rest =
        rest d (some e) w₂ (again e past failed worth waiting)

    after_attempt-IsAccounted :
        (k : ℕ) (d : ℤ) (next : ℤ → Option Error → W → ExecutionResult T × W) (w : W)
        (r : Result T × W)
        → op w ≡ r
        → Retries w₀ k w
        → pos (suc k) ≤ℤ p.max_attempts
        → (eqb_ℤ (pos (suc k)) p.max_attempts ≡ false
            → (d' : ℤ) (last : Option Error) (w' : W) → Retries w₀ (suc k) w'
            → IsAccounted w₀ (next d' last w'))
        → IsAccounted w₀ (after_attempt rt p (rt.clock w₀) (suc k) d next r)
    unfolding after_attempt pause
    after_attempt-IsAccounted k d next w (ok v, w₁) called past within rest =
        finish-IsAccounted k (pos (suc k)) d (ok v) w w₁ refl past within (succeeded v called)
    after_attempt-IsAccounted k d next w (err e, w₁) called past within rest =
        if_split (IsAccounted w₀) (not (is_retryable p e)) _ _
          (λ fatal.
            finish-IsAccounted k (pos (suc k)) d _ w w₁ refl past within
              (given_up e called (ground arith)))
          (λ worth.
            if_split (IsAccounted w₀) (eqb_ℤ (pos (suc k)) p.max_attempts) _ _
              (λ final.
                let all = eqb_ℤ→eq (pos (suc k)) p.max_attempts final in
                finish-IsAccounted k p.max_attempts d _ w w₁ (sym all) past within
                  (used_up e called (ground arith) all))
              (λ more.
                resume-IsAccounted k _ e next w w₁ (waited (suc k) e w₁) refl past called
                  (ground arith) within (rest more)))

    run_attempts-IsAccounted :
        (n k : ℕ) (d : ℤ) (last : Option Error) (w : W)
        → pos (suc n + k) ≡ p.max_attempts
        → Retries w₀ k w
        → IsAccounted w₀ (run_attempts rt p (rt.clock w₀) op (suc n) (suc k) d last w)
    unfolding run_attempts
    run_attempts-IsAccounted zero k d last w total past =
        after_attempt-IsAccounted k d (run_attempts rt p (rt.clock w₀) op zero (suc (suc k))) w
          (op w) refl past (ground arith) (λ more. absurd (ground arith))
    run_attempts-IsAccounted (suc n) k d last w total past =
        after_attempt-IsAccounted k d (run_attempts rt p (rt.clock w₀) op (suc n) (suc (suc k))) w
          (op w) refl past (ground arith)
          (λ more d' last' w' past'.
            run_attempts-IsAccounted n (suc k) d' last' w' (ground arith) past')

rounds : (m : ℤ) → pos 1 ≤ℤ m → (n : ℕ) × (pos_part m ≡ suc n) × (pos (suc n + 0) ≡ m)
rounds (pos zero) h = absurd (omega arith)
rounds (pos (suc n)) h = (n, refl, ground arith)
rounds (negsuc n) h = absurd (omega arith)

-- With a limit of at least one attempt, ExecuteWithStats ends after as many calls as it reports, at
-- most the limit, and reports the time from its start to its end. Every call but the last failed
-- with an error worth a retry, and the callback and an uncancelled wait of the computed delay came
-- before the next. The last call gave the result: a success is what it returned, and an error says
-- that its failure is not worth a retry, that it was the last attempt of the limit, or is that of
-- the context, which cut short the wait behind it.
pub execute_with_stats-IsAccounted :
    {W T : Type 0} (rt : Runtime W) (p : RetryPolicy W) (op : Operation W T) (w : W)
    → pos 1 ≤ℤ p.max_attempts
    → IsAccounted rt p op w (execute_with_stats rt p op w)
unfolding execute_with_stats
execute_with_stats-IsAccounted rt p op w limit =
    let (n, e, total) = rounds p.max_attempts limit in
    rw e (run_attempts-IsAccounted rt p op w n 0 (pos 0) none w total begin)
