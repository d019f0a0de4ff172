-- ===== src/Delta/Table/Success.antt =====
-- A commit to a store that answers.
use agent_brain.Base.{ℕ, ◌<◌, ◌≡◌, refl, ap, ◌∙◌, false, Option, List}
use agent_brain.Base.Int.{ℤ, pos, sub_ℕ, max_int64, wrap64, ◌+ℤ◌, ◌≤ℤ◌}
use agent_brain.Base.Bytes.{Bytes, codes}
use agent_brain.Retry.Errors.{Result, ok, err}
use agent_brain.Retry.Breaker.{CircuitBreaker}
use agent_brain.Retry.Breaker.Recovery.{rejects, execute_guarded_admitted}
use agent_brain.Retry.Policy.{RetryPolicy}
use agent_brain.Retry.Executor.{
  Runtime, Operation, with_circuit_breaker, with_retry_and_circuit_breaker,
}
use agent_brain.Retry.Executor.Rule.{execute-first}
use agent_brain.Delta.Actions.{Action, Object}
use agent_brain.Delta.Store.{S3Store, ◌>>=◌, context}
use agent_brain.Delta.Keys.Names.{directory}
use agent_brain.Delta.Log.{latest_version, write_version}
use agent_brain.Delta.Log.Latest.{IsLog, latest_version_lem, latest_of, latest_version_parts}
use agent_brain.Delta.Checkpoint.{CheckpointManager}
use agent_brain.Delta.Table.{
  DeltaTable, Managed, commit_after, write_next, settle, commit_op, commit,
}
use agent_brain.Delta.Table.Commit.{next_version}

ok_inj : {A : Type 0} {x y : A} → ok x ≡ ok y → x ≡ y
ok_inj e = cc

module _ {W : Type 0} (s : S3Store W) (clock : W → ℕ) (unix_milli : W → ℤ) (t : DeltaTable)
    (dir : Bytes) (here : t.log_prefix ≡ directory dir) (n : ℕ) (entries : ℕ → List Action)
    (actions : List Action) (operation : Bytes) where
  context-ok :
      {A : Type 0} (text : Bytes) (m : Operation W A) (w : W) (a : A)
      → (m w).0 ≡ ok a
      → (context text m w).0 ≡ ok a
  unfolding context
  context-ok text m w a e = rw e refl

  bind-ok :
      {A B : Type 0} (m : Operation W A) (f : A → Operation W B) (w : W) (a : A)
      → (m w).0 ≡ ok a
      → (m >>= f) w ≡ f a (m w).1
  unfolding ◌>>=◌
  bind-ok {A} {B} m f w a e = go (m w) e
    where
      go : (r : Result A × W) → r.0 ≡ ok a → (((λ _. r) >>= f) w) ≡ f a r.1
      go (ok u, w') e = ap (λ x. f x w') (ok_inj e)
      go (err x, w') e = cc

  latest-ok :
      (w : W) (keys : List Bytes)
      → (s.list (directory dir) w).0 ≡ ok keys
      → (v : ℤ) × ((latest_version s (directory dir) w).0 ≡ ok v)
  unfolding latest_of
  latest-ok w keys e =
      (_, ap (λ (r : Result ℤ × W). r.0) (latest_version_parts s dir w) ∙ ap (latest_of s dir) e)

  commit_after-ok :
      (w : W) (latest : ℤ)
      → n < max_int64
      → latest ≡ sub_ℕ n 1
      → ((k : Bytes) (o : Object) → (s.upload k o w).0 ≡ ok tt)
      → (commit_after s clock unix_milli t actions operation latest w).0 ≡ ok (pos n)
  unfolding commit_after write_version
  commit_after-ok w latest room e stored =
      ap (λ (r : Result ℤ × W). r.0)
        (bind-ok _ (λ _ w'. (ok (wrap64 (latest +ℤ pos 1)), w')) w tt
          (context-ok _ _ w tt (context-ok _ _ w tt (stored _ _))))
      ∙ ap (λ x. ok x) (next_version n latest room e)

  write_next-ok :
      (w : W) (keys : List Bytes)
      → n < max_int64
      → IsLog dir n entries (s.contents w)
      → (s.list (directory dir) w).0 ≡ ok keys
      → ((k : Bytes) (o : Object) → (s.upload k o (s.list (directory dir) w).1).0 ≡ ok tt)
      → (write_next s clock unix_milli t actions operation w).0 ≡ ok (pos n)
  unfolding write_next context
  write_next-ok w keys room log listed stored =
      let (v, read) = latest-ok w keys listed in
      let last = latest_version_lem s dir n entries w v log read in
      let parts = latest_version_parts s dir w in
      let state = ap (λ (r : Result ℤ × W). r.1) parts in
      let found =
        context-ok (codes "get latest version") (latest_version s t.log_prefix) w v
          (rw here read) in
      ap (λ (r : Result ℤ × W). r.0)
        (bind-ok (context (codes "get latest version") (latest_version s t.log_prefix))
          (commit_after s clock unix_milli t actions operation) w v found)
      ∙ commit_after-ok _ v room last (rw (here, state) stored)

  commit_op-ok :
      (m : Option CheckpointManager) (w : W)
      → (write_next s clock unix_milli t actions operation w).0 ≡ ok (pos n)
      → (commit_op s clock unix_milli t actions operation (m, w)).0 ≡ ok (pos n)
  unfolding commit_op settle
  commit_op-ok m w e = go (write_next s clock unix_milli t actions operation w) e
    where
      go : (r : Result ℤ × W) → r.0 ≡ ok (pos n) → (settle s clock unix_milli t m r).0 ≡ ok (pos n)
      go (ok v, w') e = e
      go (err x, w') e = cc

  -- A commit to a log of n < 2^63 - 1 entries returns version n at the first attempt when the
  -- listing and every upload after it succeed, the breaker does not turn the call away, and the
  -- policy allows at least one attempt, whatever becomes of the checkpoint.
  pub commit_succeeds :
      (rt : Runtime (CircuitBreaker × Managed W)) (p : RetryPolicy (CircuitBreaker × Managed W))
      (cb : CircuitBreaker) (m : Option CheckpointManager) (w : W) (keys : List Bytes)
      → pos 1 ≤ℤ p.max_attempts
      → rejects (clock w) cb ≡ false
      → n < max_int64
      → IsLog dir n entries (s.contents w)
      → (s.list (directory dir) w).0 ≡ ok keys
      → ((k : Bytes) (o : Object) → (s.upload k o (s.list (directory dir) w).1).0 ≡ ok tt)
      → (commit s clock unix_milli t rt p actions operation (cb, (m, w))).0 ≡ ok (pos n)
  unfolding commit with_retry_and_circuit_breaker with_circuit_breaker
  commit_succeeds rt p cb m w keys limit admitted room log listed stored =
      execute-first rt p _ (cb, (m, w)) (pos n) limit
        ((execute_guarded_admitted (λ (x : Managed W). clock x.1)
            (commit_op s clock unix_milli t actions operation) cb (m, w) admitted).0
          ∙ commit_op-ok m w (write_next-ok w keys room log listed stored))
