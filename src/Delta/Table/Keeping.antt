-- ===== src/Delta/Table/Keeping.antt =====
-- internal/storage/delta/table.go: a commit keeps every property of the bucket that no write can break.
use mathlib.Core.Path.{subst}
use agent_brain.Base.{ℕ, ◌≤◌, ◌≡◌, refl, sym, Option, none, some, List}
use agent_brain.Base.Int.{ℤ, pos_part}
use agent_brain.Base.Bytes.{Bytes}
use agent_brain.Retry.Errors.{Error, Result, ok, err}
use agent_brain.Retry.Breaker.{CircuitBreaker}
use agent_brain.Retry.Policy.{RetryPolicy}
use agent_brain.Retry.Executor.{Runtime, notify, with_retry_and_circuit_breaker}
use agent_brain.Retry.Executor.Rule.{Ends, execute-Ends, with_circuit_breaker-Ends}
use agent_brain.Delta.Actions.{Action, Object}
use agent_brain.Delta.Store.{S3Store, Contents, write}
use agent_brain.Delta.Store.Keeping.{Keeps, still-Keeps, bind-Keeps, context-Keeps, upload-Keeps}
use agent_brain.Delta.Log.{write_version}
use agent_brain.Delta.Checkpoint.{CheckpointManager, maybe_checkpoint}
use agent_brain.Delta.Checkpoint.Safe.{latest_version-Keeps, maybe_checkpoint-Keeps}
use agent_brain.Delta.Table.{
  DeltaTable, Managed, commit_after, write_next, keep_manager, after_commit, settle, commit_op,
  commit,
}
use agent_brain.Delta.Table.Commit.{Stays}

module _ {W : Type 0} (s : S3Store W) (C : Contents → Type 0)
    (allowed : (k : Bytes) (o : Object) (c : Contents) → C c → C (write k o c)) (clock : W → ℕ)
    (unix_milli : W → ℤ) (t : DeltaTable) (actions : List Action) (operation : Bytes) where
  write_next-Keeps : Keeps s C (write_next s clock unix_milli t actions operation)
  unfolding write_next commit_after write_version
  write_next-Keeps =
      bind-Keeps s C _ _ (context-Keeps s C _ _ (latest_version-Keeps s C clock _)) (λ latest.
        record {
          at = λ w h.
              (bind-Keeps s C _ _
                  (context-Keeps s C _ _
                    (context-Keeps s C _ _ (upload-Keeps s C _ _ (λ c k. allowed _ _ c k))))
                  (λ done. still-Keeps s C _)).at
                w h;
        })

  keep_manager_lem :
      (m : CheckpointManager) (r : Result CheckpointManager × W)
      → (keep_manager s clock unix_milli t m r).1 ≡ r.1
  unfolding keep_manager
  keep_manager_lem m (ok m', w) = refl
  keep_manager_lem m (err e, w) = refl

  after_commit-Keeps :
      (v : ℤ) (m : Option CheckpointManager) (w : W)
      → C (s.contents w)
      → C (s.contents (after_commit s clock unix_milli t v (m, w)).1)
  unfolding after_commit
  after_commit-Keeps v none w h = h
  after_commit-Keeps v (some m) w h = rw (keep_manager_lem m (maybe_checkpoint s clock m v w)) (
      (maybe_checkpoint-Keeps s C clock m (λ u o c k. allowed _ o c k) (λ o c k. allowed _ o c k)
          v).at
        w h)

  abbrev pub HoldsOf : CircuitBreaker × Managed W → Type 0
  HoldsOf x = C (s.contents x.1.1)

  settle-Keeps :
      (m : Option CheckpointManager) (r : Result ℤ × W)
      → C (s.contents r.1)
      → Ends
          (λ (y : Managed W). C (s.contents y.1))
          (λ _ y. C (s.contents y.1))
          (settle s clock unix_milli t m r)
  unfolding settle
  settle-Keeps m (ok v, w) h = after_commit-Keeps v m w h
  settle-Keeps m (err e, w) h = h

  commit_op-Keeps :
      (x : Managed W)
      → C (s.contents x.1)
      → Ends
          (λ (y : Managed W). C (s.contents y.1))
          (λ _ y. C (s.contents y.1))
          (commit_op s clock unix_milli t actions operation x)
  unfolding commit_op
  commit_op-Keeps (m, w) h = settle-Keeps m _ (write_next-Keeps.at w h)

  -- Waits and callbacks must leave the bucket alone.
  pub commit-Keeps :
      (rt : Runtime (CircuitBreaker × Managed W)) (p : RetryPolicy (CircuitBreaker × Managed W))
      (x : CircuitBreaker × Managed W)
      → ((d : ℤ) (x : CircuitBreaker × Managed W) → Stays s x (rt.wait d x).1)
      → ((j : ℕ) (e : Error) (x : CircuitBreaker × Managed W) → Stays s x (notify p j e x))
      → HoldsOf x
      → HoldsOf (commit s clock unix_milli t rt p actions operation x).1
  unfolding commit with_retry_and_circuit_breaker
  commit-Keeps rt p x waits calls h = after _ (
      execute-Ends rt p _ (λ k. HoldsOf) (λ v. HoldsOf)
        (λ k (cb, y) below g.
          with_circuit_breaker-Ends (λ (m', w). clock w)
            (commit_op s clock unix_milli t actions operation) (λ z. C (s.contents z.1))
            (λ v z. C (s.contents z.1)) cb y g (commit_op-Keeps y g))
        (λ k j e y g. subst C (sym (calls j e y).1) g) (λ k d y g. subst C (sym (waits d y).1) g) x
        h)
    where
      after :
          (r : Result ℤ × (CircuitBreaker × Managed W))
          → Ends (λ y. (k : ℕ) × (k ≤ pos_part p.max_attempts) × HoldsOf y) (λ v. HoldsOf) r
          → HoldsOf r.1
      after (ok v, y) g = g
      after (err e, y) (k, le, g) = g
