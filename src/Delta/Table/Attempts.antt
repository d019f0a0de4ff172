-- ===== src/Delta/Table/Attempts.antt =====
-- How much of a log the attempts of a commit can leave behind.
use mathlib.Core.Path.{subst}
use agent_brain.Base.{
  ℕ, zero, suc, ◌+◌, ◌≤◌, ◌<◌, ◌≡◌, refl, sym, ap, Option, none, some, List, arith,
}
use agent_brain.Base.Int.{ℤ, pos, negsuc, pos_part, max_int64, ◌≤ℤ◌}
use agent_brain.Base.Bytes.{Bytes}
use agent_brain.Retry.Errors.{Error, Result, ok, err}
use agent_brain.Retry.Breaker.{CircuitBreaker}
use agent_brain.Retry.Policy.{RetryPolicy}
use agent_brain.Retry.Executor.{
  Runtime, Operation, notify, with_circuit_breaker, with_retry_and_circuit_breaker,
}
use agent_brain.Retry.Executor.Rule.{Ends}
use agent_brain.Retry.Executor.Stats.{execute_with_stats}
use agent_brain.Retry.Executor.Stats.Account.{
  Retries, begin, again, EndsLoop, succeeded, given_up, used_up, cancelled, waited,
  execute_with_stats-execute, execute_with_stats-IsAccounted,
}
use agent_brain.Delta.Actions.{Action}
use agent_brain.Delta.Store.{S3Store}
use agent_brain.Delta.Keys.Names.{directory}
use agent_brain.Delta.Log.Latest.{IsLog}
use agent_brain.Delta.Checkpoint.{CheckpointManager}
use agent_brain.Delta.Table.{DeltaTable, Managed, commit_op, commit}
use agent_brain.Delta.Table.Growth.{Grown_start}
use agent_brain.Delta.Table.Commit.{
  IsSuited, Stays, HasCommitted, ManagedGrowth, attempt-Ends, growth-Stays,
}

fits : (k : ℕ) (m : ℤ) → pos k ≤ℤ m → k ≤ pos_part m
fits k (pos m) h = omega arith
fits k (negsuc m) h = omega arith

module _ {W : Type 0} (s : S3Store W) (clock : W → ℕ) (unix_milli : W → ℤ) (t : DeltaTable)
    (dir : Bytes) (here : t.log_prefix ≡ directory dir) (n : ℕ) (entries : ℕ → List Action)
    (actions : List Action) (operation : Bytes) (rt : Runtime (CircuitBreaker × Managed W))
    (p : RetryPolicy (CircuitBreaker × Managed W)) where
  abbrev pub CommitState : Type 0
  CommitState = CircuitBreaker × Managed W

  -- One attempt: the commit behind the breaker.
  abbrev pub attempt : Operation CommitState ℤ
  attempt =
      with_circuit_breaker (λ (m, w). clock w) (commit_op s clock unix_milli t actions operation)

  -- The log and the manager after `k` attempts, by the result.
  abbrev pub GrownBy : Option CheckpointManager → ℕ → Result ℤ × CommitState → Type 0
  GrownBy m k =
      Ends (λ y. ManagedGrowth s clock unix_milli t dir here n entries actions operation m k y.1)
        (λ v y. HasCommitted s clock unix_milli t dir here n entries actions operation k v y.1.1)

  -- The attempts of a commit that starts in `x`: all but the last failed and were retried, the last
  -- gave the result, and the log has grown by no more entries than there were attempts.
  pub record IsAttempted (m : Option CheckpointManager) (x : CommitState)
      (r : Result ℤ × CommitState) : Type 0 where
    pub failed : ℕ
    pub last_start : CommitState
    pub within : pos (suc failed) ≤ℤ p.max_attempts
    pub history : Retries rt p attempt x failed last_start
    pub ending : EndsLoop rt p attempt (suc failed) last_start r.0 r.1
    pub grown : GrownBy m (suc failed) r

  module _ (m : Option CheckpointManager)
      (waits : (d : ℤ) (x : CommitState) → Stays s x (rt.wait d x).1)
      (calls : (j : ℕ) (e : Error) (x : CommitState) → Stays s x (notify p j e x))
      (suited : IsSuited dir m) (room : n + pos_part p.max_attempts ≤ max_int64) where
    abbrev Growth : ℕ → CommitState → Type 0
    Growth k x = ManagedGrowth s clock unix_milli t dir here n entries actions operation m k x.1

    attempted :
        (k : ℕ) (x : CommitState) (r : Result ℤ × CommitState)
        → attempt x ≡ r
        → k < pos_part p.max_attempts
        → Growth k x
        → GrownBy m (suc k) r
    attempted k x r e below g = subst (GrownBy m (suc k)) e (
        attempt-Ends s clock unix_milli t dir here n entries actions operation
          (pos_part p.max_attempts) k m x suited room below g)

    waited-Growth :
        (k j : ℕ) (e : Error) (x : CommitState) (o : Option Error) (y : CommitState)
        → waited rt p attempt j e x ≡ (o, y)
        → Growth k x
        → Growth k y
    waited-Growth k j e x o y w g =
        let stays = growth-Stays s clock unix_milli t dir here n entries actions operation k m in
        subst (Growth k) (ap (λ r. r.1) w) (
          stays (notify p j e x) (waited rt p attempt j e x).1 (waits _ (notify p j e x))
            (stays x (notify p j e x) (calls j e x) g))

    history-Growth :
        (x : CommitState) (k : ℕ) (y : CommitState)
        → Growth 0 x
        → k ≤ pos_part p.max_attempts
        → Retries rt p attempt x k y
        → Growth k y
    history-Growth x zero y g le begin = g
    history-Growth x (suc k) y g le (again {w' = w'} {w₁ = w₁} e past failed worth waiting) =
        waited-Growth (suc k) (suc k) e w₁ none y waiting (
          attempted k w' (err e, w₁) failed (omega arith)
            (history-Growth x k w' g (omega arith) past))

    ending-GrownBy :
        (k : ℕ) (y : CommitState) (r : Result ℤ) (z : CommitState)
        → k < pos_part p.max_attempts
        → Growth k y
        → EndsLoop rt p attempt (suc k) y r z
        → GrownBy m (suc k) (r, z)
    ending-GrownBy k y _ z below g (succeeded v called) = attempted k y (ok v, z) called below g
    ending-GrownBy k y _ z below g (given_up e called fatal) =
        attempted k y (err e, z) called below g
    ending-GrownBy k y _ z below g (used_up e called worth last) =
        attempted k y (err e, z) called below g
    ending-GrownBy k y _ z below g (cancelled {w₁ = w₁} e c called worth waiting) =
        waited-Growth (suc k) (suc k) e w₁ (some c) z waiting
          (attempted k y (err e, w₁) called below g)

    -- With a limit of at least one attempt, a commit makes some number of attempts up to the limit;
    -- all but the last failed with an error worth a retry, and the last gave the result. Afterwards
    -- the log holds its old n entries unchanged and at most as many new ones as attempts were made,
    -- each being the commit's actions and one commit note that names the version before it; after
    -- an error the checkpoint manager is as it was, and after a success at least one entry is new
    -- and the version returned is the last. Conditions: waits and callbacks leave the bucket and
    -- the manager alone, a checkpoint manager works on this log with a marker key that names no
    -- version, and the log has room for as many versions as the limit.
    pub commit-IsAttempted :
        (cb : CircuitBreaker) (w : W)
        → pos 1 ≤ℤ p.max_attempts
        → IsLog dir n entries (s.contents w)
        → IsAttempted m
            (cb, (m, w))
            (commit s clock unix_milli t rt p actions operation (cb, (m, w)))
    unfolding commit with_retry_and_circuit_breaker
    commit-IsAttempted cb w limit log =
        let x : CommitState = (cb, (m, w)) in
        let account = execute_with_stats-IsAccounted rt p attempt x limit in
        let (r, z) = execute_with_stats rt p attempt x in
        let below = fits (suc account.failed) p.max_attempts account.within in
        let start : Growth 0 x = (refl, Grown_start dir n entries actions operation _ log) in
        subst (IsAttempted m x) (sym (execute_with_stats-execute rt p attempt x)) (record {
          failed = account.failed;
          last_start = account.last_start;
          within = account.within;
          history = account.history;
          ending = account.ending;
          grown =
              ending-GrownBy account.failed account.last_start r.outcome z (omega arith)
                (history-Growth x account.failed account.last_start start (omega arith)
                  account.history)
                account.ending;
        })
