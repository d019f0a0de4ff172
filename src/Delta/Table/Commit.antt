-- ===== src/Delta/Table/Commit.antt =====
-- What a commit does to the log, through all its retries and whatever fails on the way.
use mathlib.Core.Path.{subst}
use agent_brain.Base.{
  ℕ, zero, suc, ◌+◌, ◌≤◌, ◌<◌, ◌≡◌, refl, sym, ap, ◌∙◌, inl, inr, true, Option, none, some, List,
  [], ◌∷◌, ◌++◌, arith,
}
use agent_brain.Base.Int.{ℤ, pos, sub_ℕ, pos_part, max_int64, wrap64, wrap64_in_range, ◌+ℤ◌}
use agent_brain.Base.Bytes.{Bytes}
use agent_brain.Retry.Errors.{Error, Result, ok, err, is_err}
use agent_brain.Retry.Breaker.{CircuitBreaker}
use agent_brain.Retry.Policy.{RetryPolicy}
use agent_brain.Retry.Executor.{
  Runtime, notify, with_circuit_breaker, with_retry_and_circuit_breaker,
}
use agent_brain.Retry.Executor.Rule.{Ends, execute-Ends, with_circuit_breaker-Ends}
use agent_brain.Delta.Actions.{Action, new_commit_info_action}
use agent_brain.Delta.Store.{S3Store, context}
use agent_brain.Delta.Store.Rules.{Ends-of, Ends-mono, bind-Ends, context-Ends}
use agent_brain.Delta.Keys.{version_of_key}
use agent_brain.Delta.Keys.Names.{directory}
use agent_brain.Delta.Log.{latest_version, write_version}
use agent_brain.Delta.Log.Latest.{
  IsLog, latest_version_lem, latest_version-keeps, write_version_writes,
}
use agent_brain.Delta.Checkpoint.{CheckpointManager, maybe_checkpoint}
use agent_brain.Delta.Checkpoint.Safe.{maybe_checkpoint-IsLog}
use agent_brain.Delta.Table.{
  DeltaTable, Managed, commit_after, write_next, keep_manager, after_commit, settle, commit_op,
  commit,
}
use agent_brain.Delta.Table.Growth.{IsNote, Grown, Grown_start, Grown_more, Grown_write}

after_last : (c : ℕ) → sub_ℕ c 1 +ℤ pos 1 ≡ pos c
unfolding ◌+ℤ◌
after_last zero = refl
after_last (suc c) = ground arith

ok-ne-err : {A : Type 0} (r : Result A) (a : A) → is_err r ≡ true → r ≡ ok a → ⊥
ok-ne-err (ok b) a h e = cc
ok-ne-err (err x) a h e = cc

pub next_version :
    (c : ℕ) (latest : ℤ) → c < max_int64 → latest ≡ sub_ℕ c 1 → wrap64 (latest +ℤ pos 1) ≡ pos c
next_version c latest room e = rw (e, after_last c) (wrap64_in_range (pos c) (omega arith))

-- The manager, if there is one, works on this log, and its marker's key names no version.
abbrev pub IsSuited : Bytes → Option CheckpointManager → Type 0
IsSuited dir m =
    (c : CheckpointManager)
    → m ≡ some c
    → (c.log_prefix ≡ directory dir) × (version_of_key c.last_checkpoint_key ≡ none)

-- The bucket and the manager are as they were.
abbrev pub Stays :
    {W : Type 0} → S3Store W → CircuitBreaker × Managed W → CircuitBreaker × Managed W → Type 0
Stays s x y = (y.1.0 ≡ x.1.0) × (s.contents y.1.1 ≡ s.contents x.1.1)

module _ {W : Type 0} (s : S3Store W) (clock : W → ℕ) (unix_milli : W → ℤ) (t : DeltaTable)
    (dir : Bytes) (here : t.log_prefix ≡ directory dir) (n : ℕ) (entries : ℕ → List Action)
    (actions : List Action) (operation : Bytes) where
  abbrev pub HasGrown : ℕ → W → Type 0
  HasGrown k w = Grown dir n entries actions operation k (s.contents w)

  -- A success: the version that is returned is the last one, and it is new.
  abbrev pub HasCommitted : ℕ → ℤ → W → Type 0
  HasCommitted k v w = (g : HasGrown k w) × (n < g.count) × (v ≡ sub_ℕ g.count 1)

  write_note-Ends :
      (k : ℕ) (w : W) (g : HasGrown k w) (a : Action)
      → n + k < max_int64
      → IsNote operation g.count a
      → Ends
          (HasGrown (suc k))
          (λ _ w'. HasCommitted (suc k) (pos g.count) w')
          (write_version s (directory dir) (pos g.count) (actions ++ a ∷ []) w)
  write_note-Ends k w g a room note =
      let (grown, counted) =
        Grown_write dir n entries actions operation k (s.contents w) g a room note in
      let target = write_version s (directory dir) (pos g.count) (actions ++ a ∷ []) w in
      elim (write_version_writes s dir (pos g.count) (actions ++ a ∷ []) w) [
        | inl wrote ↦
            Ends-of (HasGrown (suc k)) (λ _ w'. HasCommitted (suc k) (pos g.count) w') _
              (λ e r. subst (Grown dir n entries actions operation (suc k)) (sym wrote) grown)
              (λ u r.
                subst
                  (λ c.
                    (g' : Grown dir n entries actions operation (suc k) c) × (n < g'.count)
                    × (pos g.count ≡ sub_ℕ g'.count 1))
                  (sym wrote) (grown, omega (arith, g.least), rw counted (ground arith)))
        | inr (failed, same) ↦
            Ends-of (HasGrown (suc k)) (λ _ w'. HasCommitted (suc k) (pos g.count) w') _
              (λ e r. subst (Grown dir n entries actions operation (suc k)) (sym same) (
                Grown_more dir n entries actions operation k (suc k) (s.contents w) (omega arith)
                  g))
              (λ u r. absurd (ok-ne-err _ u failed r))
      ]

  commit_after-Ends :
      (k : ℕ) (w : W) (g : HasGrown k w) (latest : ℤ)
      → n + k < max_int64
      → latest ≡ sub_ℕ g.count 1
      → Ends
          (HasGrown (suc k))
          (HasCommitted (suc k))
          (commit_after s clock unix_milli t actions operation latest w)
  unfolding commit_after
  commit_after-Ends k w g latest room e =
      let note = new_commit_info_action operation latest true (unix_milli w) in
      let noted : IsNote operation g.count note =
        (unix_milli w, ap (λ l. new_commit_info_action operation l true (unix_milli w)) e) in
      rw (here, next_version g.count latest (omega (arith, g.most)) e)
        (bind-Ends (HasGrown (suc k)) (λ _ w'. HasCommitted (suc k) (pos g.count) w')
          (HasCommitted (suc k))
          (context _ (write_version s (directory dir) (pos g.count) (actions ++ note ∷ [])))
          (λ _ w'. (ok (pos g.count), w')) w
          (context-Ends _ _ _ (write_version s (directory dir) (pos g.count) (actions ++ note ∷ []))
            w (write_note-Ends k w g note room noted))
          (λ _ w' h. h))

  latest_version-Ends :
      (k : ℕ) (w : W)
      → HasGrown k w
      → Ends
          (HasGrown (suc k))
          (λ v w'. (g' : HasGrown k w') × (v ≡ sub_ℕ g'.count 1))
          (latest_version s t.log_prefix w)
  latest_version-Ends k w g = rw here (
      Ends-of (HasGrown (suc k)) (λ v w'. (g' : HasGrown k w') × (v ≡ sub_ℕ g'.count 1))
        (latest_version s (directory dir) w)
        (λ e r.
          subst (Grown dir n entries actions operation (suc k)) (sym (latest_version-keeps s dir w))
            (Grown_more dir n entries actions operation k (suc k) (s.contents w) (omega arith) g))
        (λ v r.
          subst (λ c. (g' : Grown dir n entries actions operation k c) × (v ≡ sub_ℕ g'.count 1))
            (sym (latest_version-keeps s dir w))
            (g, latest_version_lem s dir g.count g.content w v g.is_log r)))

  write_next-Ends :
      (k : ℕ) (w : W)
      → HasGrown k w
      → n + k < max_int64
      → Ends
          (HasGrown (suc k))
          (HasCommitted (suc k))
          (write_next s clock unix_milli t actions operation w)
  unfolding write_next
  write_next-Ends k w g room =
      bind-Ends (HasGrown (suc k)) (λ v w'. (g' : HasGrown k w') × (v ≡ sub_ℕ g'.count 1))
        (HasCommitted (suc k)) (context _ (latest_version s t.log_prefix))
        (commit_after s clock unix_milli t actions operation) w
        (context-Ends (HasGrown (suc k)) _ _ (latest_version s t.log_prefix) w
          (latest_version-Ends k w g))
        (λ v w' (g', e). commit_after-Ends k w' g' v room e)

  Committed_keep :
      (k : ℕ) (v : ℤ) (w w' : W)
      → HasCommitted k v w
      → ((i : ℕ) (es : ℕ → List Action)
          → IsLog dir i es (s.contents w)
          → IsLog dir i es (s.contents w'))
      → HasCommitted k v w'
  Committed_keep k v w w' (g, more, e) keeps = (
    record {
      count = g.count;
      content = g.content;
      is_log = keeps g.count g.content g.is_log;
      least = g.least;
      most = g.most;
      old = g.old;
      new = g.new;
    },
    more,
    e,
  )

  keep_manager_lem :
      (c : CheckpointManager) (r : Result CheckpointManager × W)
      → (keep_manager s clock unix_milli t c r).1 ≡ r.1
  unfolding keep_manager
  keep_manager_lem c (ok c', w) = refl
  keep_manager_lem c (err e, w) = refl

  after_commit-Committed :
      (k : ℕ) (m : Option CheckpointManager) (v : ℤ) (w : W)
      → IsSuited dir m
      → HasCommitted k v w
      → HasCommitted k v (after_commit s clock unix_milli t v (m, w)).1
  unfolding after_commit
  after_commit-Committed k none v w suited h = h
  after_commit-Committed k (some c) v w suited h =
      let (same, nameless) = suited c refl in
      rw (keep_manager_lem c (maybe_checkpoint s clock c v w)) (
        Committed_keep k v w (maybe_checkpoint s clock c v w).1 h
          (λ i es l. maybe_checkpoint-IsLog s clock dir i es c v w same nameless l))

  -- The same beside the manager as it was.
  abbrev pub ManagedGrowth : Option CheckpointManager → ℕ → Managed W → Type 0
  ManagedGrowth m k x = (x.0 ≡ m) × HasGrown k x.1

  settle-Ends :
      (k : ℕ) (m : Option CheckpointManager) (r : Result ℤ × W)
      → IsSuited dir m
      → Ends (HasGrown k) (HasCommitted k) r
      → Ends (ManagedGrowth m k) (λ v x. HasCommitted k v x.1) (settle s clock unix_milli t m r)
  unfolding settle
  settle-Ends k m (ok v, w) suited h = after_commit-Committed k m v w suited h
  settle-Ends k m (err e, w) suited h = (refl, h)

  commit_op-Ends :
      (k : ℕ) (m : Option CheckpointManager) (x : Managed W)
      → IsSuited dir m
      → n + k < max_int64
      → ManagedGrowth m k x
      → Ends
          (ManagedGrowth m (suc k))
          (λ v y. HasCommitted (suc k) v y.1)
          (commit_op s clock unix_milli t actions operation x)
  unfolding commit_op
  commit_op-Ends k m (m', w) suited room (same, g) = rw same (
      settle-Ends (suc k) m (write_next s clock unix_milli t actions operation w) suited
        (write_next-Ends k w g room))

  pub growth-Stays :
      (k : ℕ) (m : Option CheckpointManager) (x y : CircuitBreaker × Managed W)
      → Stays s x y
      → ManagedGrowth m k x.1
      → ManagedGrowth m k y.1
  growth-Stays k m x y (same, kept) (e, g) =
      (same ∙ e, subst (Grown dir n entries actions operation k) (sym kept) g)

  pub attempt-Ends :
      (limit k : ℕ) (m : Option CheckpointManager) (x : CircuitBreaker × Managed W)
      → IsSuited dir m
      → n + limit ≤ max_int64
      → k < limit
      → ManagedGrowth m k x.1
      → Ends
          (λ y. ManagedGrowth m (suc k) y.1)
          (λ v y. HasCommitted (suc k) v y.1.1)
          (with_circuit_breaker
            (λ (m', w). clock w)
            (commit_op s clock unix_milli t actions operation)
            x)
  attempt-Ends limit k m (cb, x) suited room below (same, g) =
      with_circuit_breaker-Ends (λ (m', w). clock w)
        (commit_op s clock unix_milli t actions operation) (ManagedGrowth m (suc k))
        (λ v y. HasCommitted (suc k) v y.1) cb x
        (same, Grown_more dir n entries actions operation k (suc k) _ (omega arith) g)
        (commit_op-Ends k m x suited (omega arith) (same, g))

  within_limit :
      (limit k : ℕ) (m : Option CheckpointManager) (r : Result ℤ × (CircuitBreaker × Managed W))
      → k < limit
      → Ends (λ y. ManagedGrowth m (suc k) y.1) (λ v y. HasCommitted (suc k) v y.1.1) r
      → Ends (λ y. ManagedGrowth m (suc k) y.1) (λ v y. HasCommitted limit v y.1.1) r
  unfolding Grown_more
  within_limit limit k m r below h =
      Ends-mono (λ y. ManagedGrowth m (suc k) y.1) (λ v y. HasCommitted (suc k) v y.1.1) _ r h
        (λ v y (g', more, e).
          (Grown_more dir n entries actions operation (suc k) limit _ (omega arith) g', more, e))

  -- Whether a commit succeeds or fails, the log afterwards holds its old n entries unchanged and at
  -- most as many new ones as the policy allows attempts, each being the commit's actions and one
  -- commit note that names the version before it; after an error the checkpoint manager is as it
  -- was, and after a success at least one entry is new and the version returned is the last. The
  -- conditions are those on waits, callbacks, the manager and the room in the log.
  pub commit-Ends :
      (rt : Runtime (CircuitBreaker × Managed W)) (p : RetryPolicy (CircuitBreaker × Managed W))
      (cb : CircuitBreaker) (m : Option CheckpointManager) (w : W)
      → ((d : ℤ) (x : CircuitBreaker × Managed W) → Stays s x (rt.wait d x).1)
      → ((j : ℕ) (e : Error) (x : CircuitBreaker × Managed W) → Stays s x (notify p j e x))
      → IsSuited dir m
      → n + pos_part p.max_attempts ≤ max_int64
      → IsLog dir n entries (s.contents w)
      → Ends
          (λ x. (k : ℕ) × (k ≤ pos_part p.max_attempts) × ManagedGrowth m k x.1)
          (λ v x. HasCommitted (pos_part p.max_attempts) v x.1.1)
          (commit s clock unix_milli t rt p actions operation (cb, (m, w)))
  unfolding commit with_retry_and_circuit_breaker
  commit-Ends rt p cb m w waits calls suited room log =
      execute-Ends rt p _ (λ k x. ManagedGrowth m k x.1)
        (λ v x. HasCommitted (pos_part p.max_attempts) v x.1.1)
        (λ k x below g.
          within_limit (pos_part p.max_attempts) k m _ below
            (attempt-Ends (pos_part p.max_attempts) k m x suited room below g))
        (λ k j e x g. growth-Stays k m x (notify p j e x) (calls j e x) g)
        (λ k d x g. growth-Stays k m x (rt.wait d x).1 (waits d x) g) (cb, (m, w))
        (refl, Grown_start dir n entries actions operation (s.contents w) log)
