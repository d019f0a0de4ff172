-- ===== src/Delta/Table/Effect.antt =====
-- The table that a reader sees after a commit.
use mathlib.Core.Path.{subst}
use mathlib.Core.List.{append_assoc, append-nil}
use agent_brain.Base.{
  ℕ, zero, suc, ◌+◌, ◌-◌, ◌≤◌, ◌<◌, ◌≡◌, refl, sym, ap, ◌∙◌, List, [], ◌∷◌, ◌++◌, arith,
}
use agent_brain.Base.Bytes.{Bytes}
use agent_brain.Delta.Actions.{Action, new_commit_info_action}
use agent_brain.Delta.Store.{Contents}
use agent_brain.Base.{Option}
use agent_brain.Base.Int.{ℤ, sub_ℕ, pos_part, max_int64}
use agent_brain.Retry.Errors.{Error, Result, ok, err}
use agent_brain.Retry.Breaker.{CircuitBreaker}
use agent_brain.Retry.Policy.{RetryPolicy}
use agent_brain.Retry.Executor.{Runtime, notify}
use agent_brain.Retry.Executor.Rule.{Ends}
use agent_brain.Delta.Store.{S3Store}
use agent_brain.Delta.Keys.Names.{directory}
use agent_brain.Delta.Log.Latest.{IsLog}
use agent_brain.Delta.Checkpoint.{CheckpointManager}
use agent_brain.Delta.Table.{DeltaTable, Managed, commit}
use agent_brain.Delta.Table.Commit.{Stays, IsSuited, commit-Ends}
use agent_brain.Delta.Snapshot.{Snapshot, replay}
use agent_brain.Delta.Snapshot.Replay.{
  SameTable, SameTable-trans, replay_twice, replay-append, replay-commit_info,
}
use agent_brain.Delta.Snapshot.History.{history}
use agent_brain.Delta.Table.Growth.{IsNote, Grown}

ok_inj : {T : Type 0} (u v : T) → ok u ≡ ok v → u ≡ v
ok_inj u v e = cc

pub Ends_ok :
    {W T : Type 0} (P : W → Type 0) (Q : T → W → Type 0) (r : Result T × W) (v : T)
    → r.0 ≡ ok v
    → Ends P Q r
    → Q v r.1
Ends_ok P Q (ok u, w) v e h = subst (λ x. Q x w) (ok_inj u v e) h
Ends_ok P Q (err x, w) v e h = cc

history_agree :
    (f g : ℕ → List Action) (a k : ℕ)
    → ((v : ℕ) → v < a + k → f v ≡ g v)
    → history f a k ≡ history g a k
history_agree f g a zero h = refl
history_agree f g a (suc k) h =
    rw (h a (omega arith))
      (ap (λ l. g a ++ l) (history_agree f g (suc a) k (λ v below. h v (omega arith))))

history-append :
    (f : ℕ → List Action) (a i j b q : ℕ)
    → a + i ≡ b
    → q ≡ i + j
    → history f a q ≡ history f a i ++ history f b j
history-append f a zero j b q e total =
    let whole : q ≡ j = omega arith in let start : b ≡ a = omega arith in rw (whole, start) refl
history-append f a (suc i) j b zero e total = absurd (omega arith)
history-append f a (suc i) j b (suc q) e total =
    ap (λ l. f a ++ l) (history-append f (suc a) i j b q (omega arith) (omega arith))
    ∙ sym (append_assoc (f a) (history f (suc a) i) (history f b j))

replay-note :
    (operation : Bytes) (v : ℕ) (actions es : List Action) (a : Action) (snap : Snapshot)
    → IsNote operation v a
    → es ≡ actions ++ a ∷ []
    → replay es snap ≡ replay actions snap
unfolding new_commit_info_action
replay-note operation v actions es a snap (t, noted) e =
    rw (e, noted) (replay-commit_info actions _ snap)

-- One or more copies of a commit have the effect of its actions once.
replay-copies :
    (operation : Bytes) (actions : List Action) (f : ℕ → List Action) (a j : ℕ) (snap : Snapshot)
    → ((v : ℕ)
        → a ≤ v
        → v < a + suc j
        → (b : Action) × IsNote operation v b × (f v ≡ actions ++ b ∷ []))
    → SameTable (replay (history f a (suc j)) snap) (replay actions snap)
replay-copies operation actions f a zero snap h =
    let (b, noted, e) = h a (omega arith) (omega arith) in
    rw (append-nil (f a), replay-note operation a actions (f a) b snap noted e)
      (record { same_protocol = refl; same_metadata = refl; same_files = λ path. refl })
replay-copies operation actions f a (suc j) snap h =
    let (b, noted, e) = h a (omega arith) (omega arith) in
    rw
      (
        replay-append (f a) (history f (suc a) (suc j)) snap,
        replay-note operation a actions (f a) b snap noted e,
      )
      (SameTable-trans _ _ _
        (replay-copies operation actions f (suc a) j (replay actions snap)
          (λ v above below. h v (omega arith) (omega arith)))
        (replay_twice actions snap))

-- A log that has grown by a commit shows the old table with the commit's actions applied once, however
-- many copies of it the retries left behind.
pub Grown_effect :
    (dir : Bytes) (n : ℕ) (entries : ℕ → List Action) (actions : List Action) (operation : Bytes)
    (k : ℕ) (c : Contents) (g : Grown dir n entries actions operation k c) (snap : Snapshot)
    → n < g.count
    → SameTable
        (replay (history g.content 0 g.count) snap)
        (replay actions (replay (history entries 0 n) snap))
Grown_effect dir n entries actions operation k c g snap more =
    let extra = g.count - suc n in
    let split : g.count ≡ n + suc extra = omega arith in
    rw
      (
        history-append g.content 0 n (suc extra) n g.count (omega arith) split,
        replay-append (history g.content 0 n) (history g.content n (suc extra)) snap,
        history_agree g.content entries 0 n (λ v below. g.old v (omega arith)),
      )
      (replay-copies operation actions g.content n extra (replay (history entries 0 n) snap)
        (λ v above below. g.new v above (omega (arith, split))))

module _ {W : Type 0} (s : S3Store W) (clock : W → ℕ) (unix_milli : W → ℤ) (t : DeltaTable)
    (dir : Bytes) (here : t.log_prefix ≡ directory dir) (n : ℕ) (entries : ℕ → List Action)
    (actions : List Action) (operation : Bytes) where
  -- The log of the state shows the old table with the commit's actions applied once, and its last
  -- version is the one given.
  abbrev pub Shows : ℤ → W → Type 0
  Shows v w =
      (count : ℕ) × (content : ℕ → List Action) × IsLog dir count content (s.contents w)
      × (v ≡ sub_ℕ count 1)
      × ((snap : Snapshot)
          → SameTable (replay (history content 0 count) snap)
              (replay actions (replay (history entries 0 n) snap)))

  -- When a commit to a log of n entries reports version v, the log is complete again, v is its last
  -- version, and its replay over any snapshot shows the old table with the commit's actions applied
  -- exactly once, however often the attempts were retried and whatever the store lost on the way.
  -- Conditions: waits and callbacks leave the bucket and the manager alone, a checkpoint manager
  -- works on this log with a marker key that names no version, and the log has room for as many
  -- versions as the policy has attempts.
  pub commit_effect :
      (rt : Runtime (CircuitBreaker × Managed W)) (p : RetryPolicy (CircuitBreaker × Managed W))
      (cb : CircuitBreaker) (m : Option CheckpointManager) (w : W)
      → ((d : ℤ) (x : CircuitBreaker × Managed W) → Stays s x (rt.wait d x).1)
      → ((j : ℕ) (e : Error) (x : CircuitBreaker × Managed W) → Stays s x (notify p j e x))
      → IsSuited dir m
      → n + pos_part p.max_attempts ≤ max_int64
      → IsLog dir n entries (s.contents w)
      → (v : ℤ) → (commit s clock unix_milli t rt p actions operation (cb, (m, w))).0 ≡ ok v
      → Shows v (commit s clock unix_milli t rt p actions operation (cb, (m, w))).1.1.1
  commit_effect rt p cb m w waits calls suited room log v e =
      let (g, more, last) = Ends_ok _ _ _ v e (
        commit-Ends s clock unix_milli t dir here n entries actions operation rt p cb m w waits
          calls suited room log) in
      (
        g.count,
        g.content,
        g.is_log,
        last,
        λ snap. Grown_effect dir n entries actions operation _ _ g snap more,
      )
