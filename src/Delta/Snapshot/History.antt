-- ===== src/Delta/Snapshot/History.antt =====
-- internal/storage/delta/table.go: snapshots of a complete log.
use agent_brain.Base.{
  some_inj, ℕ, zero, suc, ◌+◌, ◌≤◌, ◌<◌, ◌≡◌, refl, sym, ap, ◌∙◌, List, [], ◌++◌, arith, if_split,
}
use agent_brain.Base.Int.{pos, negsuc, eqb_ℤ}
use agent_brain.Base.Bytes.{Bytes}
use agent_brain.Retry.Errors.{ok}
use agent_brain.Delta.Actions.{Action, Object, log_entry}
use agent_brain.Retry.Executor.Rule.{Ends}
use agent_brain.Delta.Store.{S3Store, context}
use agent_brain.Delta.Store.Rules.{Ends-mono, bind-Ends, context-Ends, download-Ends}
use agent_brain.Delta.Keys.{version_key}
use agent_brain.Delta.Keys.Names.{directory}
use agent_brain.Delta.Log.{decode_actions, read_version}
use agent_brain.Delta.Log.Latest.{IsLog}
use agent_brain.Delta.Snapshot.{Snapshot, empty_snapshot, replay, replay_versions, snapshot}
use agent_brain.Delta.Snapshot.Replay.{replay-append}

-- The actions of n entries from the one numbered v.
abbrev pub history : (ℕ → List Action) → ℕ → ℕ → List Action
history entries v zero = []
history entries v (suc n) = entries v ++ history entries (suc v) n

decoded : (o : Object) (acts : List Action) → o ≡ log_entry acts → decode_actions o ≡ ok acts
unfolding decode_actions
decoded o acts e = rw e

module _ {W : Type 0} (s : S3Store W) (dir : Bytes) (n : ℕ) (entries : ℕ → List Action) where
  abbrev pub Logged : W → Type 0
  Logged w = IsLog dir n entries (s.contents w)

  abbrev IsEntry : ℕ → List Action → W → Type 0
  IsEntry v acts w = (acts ≡ entries v) × Logged w

  -- `ReadVersion` of an entry can only answer with its actions.
  pub read_version-Ends :
      (v : ℕ) (w : W)
      → Logged w
      → v < n
      → Ends Logged (IsEntry v) (read_version s (directory dir) (pos v) w)
  unfolding read_version
  read_version-Ends v w h below =
      bind-Ends Logged (λ o w'. (o ≡ log_entry (entries v)) × Logged w') (IsEntry v)
        (context _ (s.download (version_key (directory dir) (pos v))))
        (λ o w'. (decode_actions o, w')) w
        (context-Ends Logged _ _ (s.download (version_key (directory dir) (pos v))) w (
          Ends-mono Logged _ _ (s.download (version_key (directory dir) (pos v)) w)
            (download-Ends s (IsLog dir n entries) _ w h)
            (λ o w' (there, kept). (some_inj (sym there ∙ h.held v below), kept))))
        (λ o w' (same, kept). rw (decoded o (entries v) same) (refl, kept))

  -- The snapshot is the replay of the actions, and the log is as it was.
  abbrev pub Replays : List Action → Snapshot → Snapshot → W → Type 0
  Replays acts snap t w = (t ≡ replay acts snap) × Logged w

  pub replay_versions-Ends :
      (k v : ℕ) (snap : Snapshot) (w : W)
      → Logged w
      → v + k ≤ n
      → Ends Logged
          (Replays (history entries v k) snap)
          (replay_versions s (directory dir) k v snap w)
  unfolding replay_versions
  replay_versions-Ends zero v snap w h fits = (unfold replay in refl, h)
  replay_versions-Ends (suc k) v snap w h fits =
      bind-Ends Logged (IsEntry v) (Replays (history entries v (suc k)) snap)
        (context _ (read_version s (directory dir) (pos v))) _ w
        (context-Ends Logged (IsEntry v) _ (read_version s (directory dir) (pos v)) w
          (read_version-Ends v w h (omega arith)))
        (λ acts w' (same, kept).
          Ends-mono Logged (Replays (history entries (suc v) k) (replay acts snap)) _
            (replay_versions s (directory dir) k (suc v) (replay acts snap) w')
            (replay_versions-Ends k (suc v) (replay acts snap) w' kept (omega arith))
            (λ t w'' (e, kept''). (
              e
                  ∙ ap (λ a. replay (history entries (suc v) k) (replay a snap)) same
                  ∙ sym (replay-append (entries v) (history entries (suc v) k) snap),
              kept'',
            )))

  snapshot_of_version :
      (v : ℕ)
      → snapshot s (directory dir) (pos v)
        ≡ replay_versions s (directory dir) (suc v) 0 (empty_snapshot (pos v))
  unfolding snapshot
  snapshot_of_version v =
      if_split (λ m. m ≡ replay_versions s (directory dir) (suc v) 0 (empty_snapshot (pos v)))
        (eqb_ℤ (pos v) (negsuc 0)) _ _ (λ e. absurd (ground arith)) (λ _. refl)

  -- Over a log with n entries, Snapshot at a version v below n leaves the log alone, and when it
  -- answers, its answer is the replay of the actions of the entries 0 to v in their order.
  pub snapshot-Ends :
      (v : ℕ) (w : W)
      → Logged w
      → v < n
      → Ends Logged
          (Replays (history entries 0 (suc v)) (empty_snapshot (pos v)))
          (snapshot s (directory dir) (pos v) w)
  snapshot-Ends v w h below =
      rw (snapshot_of_version v)
        (replay_versions-Ends (suc v) 0 (empty_snapshot (pos v)) w h (omega arith))
