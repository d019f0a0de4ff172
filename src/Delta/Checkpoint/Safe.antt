-- ===== src/Delta/Checkpoint/Safe.antt =====
-- internal/storage/delta/checkpoint_manager.go: what the calls of a checkpoint keep of the bucket.
use agent_brain.Base.{
  ℕ, zero, suc, ◌≡◌, Bool, not, none, some, List, [], ◌∷◌, if◌then◌else◌, if_cases, Option-cases,
  inl, inr,
}
use agent_brain.Base.Int.{ℤ, pos, pos_part, ◌-ℤ◌, negsuc, eqb_ℤ, ◌+ℤ◌, ltb_ℤ}
use agent_brain.Base.Bytes.{Bytes}
use agent_brain.Retry.Errors.{Result, ok, err}
use agent_brain.Retry.Executor.{Operation}
use agent_brain.Delta.Actions.{Action, Add, Object, LastCheckpoint}
use agent_brain.Delta.Store.{S3Store, Contents, write}
use agent_brain.Delta.Store.Keeping.{
  Keeps, bind-Keeps, context-Keeps, if-Keeps, download-Keeps, list-Keeps, exists-Keeps,
  upload-Keeps, still-Keeps,
}
use agent_brain.Delta.Keys.{checkpoint_key, version_of_key}
use agent_brain.Delta.Keys.Names.{directory, version_of_key-checkpoint_key}
use agent_brain.Delta.Log.Latest.{IsLog, write_other-IsLog}
use agent_brain.Delta.Log.{read_version, latest_version, list_versions}
use agent_brain.Delta.Snapshot.{
  Snapshot, snapshot, snapshot_at, latest_snapshot, replay, replay_versions,
}
use agent_brain.Delta.Validation.{
  ValidationError, ValidationResult, validate_checkpoint, Integrity, note_exists, file_integrity,
  add_integrity,
}
use agent_brain.Delta.Checkpoint.{
  CheckpointManager, is_multiple, get_last_checkpoint, volume_from, estimate_data_volume, by_volume,
  adaptive, should_create_checkpoint, cleanup_old_checkpoints, create_checkpoint, maybe_checkpoint,
  logged,
}

module _ {W : Type 0} (s : S3Store W) (C : Contents → Type 0) (clock : W → ℕ) where
  kept_if :
      {X : Type 0} (b : Bool) (p q : X × W)
      → C (s.contents p.1)
      → C (s.contents q.1)
      → C (s.contents (if b then p else q).1)
  kept_if {X} b p q h k = if_cases (λ (r : X × W). C (s.contents r.1)) b p q h k

  pub read_version-Keeps : (p : Bytes) (v : ℤ) → Keeps s C (read_version s p v)
  unfolding read_version
  read_version-Keeps p v =
      bind-Keeps s C _ _ (context-Keeps s C _ _ (download-Keeps s C _)) (λ o. still-Keeps s C _)

  pub latest_version-Keeps : (p : Bytes) → Keeps s C (latest_version s p)
  unfolding latest_version list_versions
  latest_version-Keeps p =
      bind-Keeps s C _ _
        (bind-Keeps s C _ _ (context-Keeps s C _ _ (list-Keeps s C p)) (λ ks. still-Keeps s C _))
        (λ vs. still-Keeps s C _)

  replay_versions-Keeps :
      (p : Bytes) (n v : ℕ) (snap : Snapshot) → Keeps s C (replay_versions s p n v snap)
  unfolding replay_versions
  replay_versions-Keeps p zero v snap = still-Keeps s C _
  replay_versions-Keeps p (suc n) v snap =
      bind-Keeps s C _ _ (context-Keeps s C _ _ (read_version-Keeps p (pos v)))
        (λ acts. replay_versions-Keeps p n (suc v) (replay acts snap))

  pub snapshot-Keeps : (p : Bytes) (v : ℤ) → Keeps s C (snapshot s p v)
  unfolding snapshot snapshot_at latest_snapshot
  snapshot-Keeps p v =
      if-Keeps s C (eqb_ℤ v (negsuc 0)) _ _
        (bind-Keeps s C _ _ (latest_version-Keeps p) (λ latest.
          if-Keeps s C (ltb_ℤ latest (pos 0)) _ _ (still-Keeps s C _)
            (replay_versions-Keeps p _ _ _)))
        (replay_versions-Keeps p _ _ _)

  note_exists-Keeps :
      (p : Bytes) (f : Add) (es : List ValidationError)
      (rest : List ValidationError → W → Integrity s p) (r : Result Bool × W)
      → ((es' : List ValidationError) → Keeps s C (rest es'))
      → C (s.contents r.1)
      → C (s.contents (note_exists s p f es rest r).1)
  unfolding note_exists
  note_exists-Keeps p f es rest (err e, w) k h = h
  note_exists-Keeps p f es rest (ok there, w) k h = (k _).at w h

  file_integrity-Keeps :
      (p : Bytes) (acts : List Action) (es : List ValidationError)
      → Keeps s C (file_integrity s p acts es)
  unfolding file_integrity
  file_integrity-Keeps p [] es = still-Keeps s C _
  file_integrity-Keeps p (a ∷ acts) es = record {
    at = λ w h. elim (Option-cases a.add) [
      | inl e ↦ rw e ((file_integrity-Keeps p acts es).at w h)
      | inr (f, e) ↦ rw e (
          note_exists-Keeps p f es (file_integrity s p acts) (s.exists f.path w)
            (file_integrity-Keeps p acts) ((exists-Keeps s C f.path).at w h))
    ];
  }

  get_last_checkpoint-Keeps : (m : CheckpointManager) → Keeps s C (get_last_checkpoint s clock m)
  unfolding get_last_checkpoint
  get_last_checkpoint-Keeps m = bind-Keeps s C _ _ (download-Keeps s C _) (λ o. still-Keeps s C _)

  add_integrity-Keeps :
      (p : Bytes) (r : Integrity s p) (result : ValidationResult)
      → C (s.contents r.1)
      → C (s.contents (add_integrity s p r result).1)
  unfolding add_integrity
  add_integrity-Keeps p ((none, es), w) result h = h
  add_integrity-Keeps p ((some e, es), w) result h = h

  volume_from-Keeps :
      (m : CheckpointManager) (n : ℕ) (v total : ℤ) → Keeps s C (volume_from s clock m n v total)
  unfolding volume_from
  volume_from-Keeps m zero v total = still-Keeps s C _
  volume_from-Keeps m (suc n) v total = record {
    at = λ w h. (volume_from-Keeps m n _ _).at _ ((read_version-Keeps m.log_prefix v).at w h);
  }

  estimate_data_volume-Keeps :
      (m : CheckpointManager) (from to : ℤ) → Keeps s C (estimate_data_volume s clock m from to)
  unfolding estimate_data_volume
  estimate_data_volume-Keeps m from to = record {
    at = λ w h. (volume_from-Keeps m (pos_part (to -ℤ from)) (from +ℤ pos 1) (pos 0)).at w h;
  }

  by_volume-Keeps :
      (m : CheckpointManager) (v : ℤ) (last : LastCheckpoint)
      → Keeps s C (by_volume s clock m v last)
  unfolding by_volume
  by_volume-Keeps m v last = record {
    at = λ w h. let there = (estimate_data_volume-Keeps m last.version v).at w h in search kept_if;
  }

  adaptive-Keeps :
      (m : CheckpointManager) (v : ℤ) (r : Result LastCheckpoint × W)
      → C (s.contents r.1)
      → C (s.contents (adaptive s clock m v r).1)
  unfolding adaptive
  adaptive-Keeps m v (err e, w) h = h
  adaptive-Keeps m v (ok last, w) h = (by_volume-Keeps m v last).at w h

  should_create_checkpoint-Keeps :
      (m : CheckpointManager) (v : ℤ) → Keeps s C (should_create_checkpoint s clock m v)
  unfolding should_create_checkpoint
  should_create_checkpoint-Keeps m v = record {
    at = λ w h.
        kept_if (not m.config.adaptive_mode) (is_multiple v m.config.frequency, w)
          (adaptive s clock m v (get_last_checkpoint s clock m w)) h
          (adaptive-Keeps m v (get_last_checkpoint s clock m w)
            ((get_last_checkpoint-Keeps m).at w h));
  }

  validate_checkpoint-Keeps :
      (p key : Bytes) (snap : Snapshot) → Keeps s C (validate_checkpoint s p key snap)
  unfolding validate_checkpoint
  validate_checkpoint-Keeps p key snap =
      bind-Keeps s C _ _ (context-Keeps s C _ _ (download-Keeps s C _)) (λ text.
        bind-Keeps s C _ _ (context-Keeps s C _ _ (still-Keeps s C _)) (λ acts.
          bind-Keeps s C _ _ (still-Keeps s C _) (λ result. record {
            at = λ w h. (add_integrity-Keeps p _ _ ((file_integrity-Keeps p acts _).at w h));
          })))

  logged-Keeps : {A : Type 0} (m : Operation W A) → Keeps s C m → Keeps s C (logged s clock m)
  logged-Keeps m h = record { at = λ w start. h.at w start }

  cleanup-Keeps : (m : CheckpointManager) (v : ℤ) → Keeps s C (cleanup_old_checkpoints s clock m v)
  unfolding cleanup_old_checkpoints
  cleanup-Keeps m v =
      bind-Keeps s C _ _ (context-Keeps s C _ _ (list-Keeps s C _)) (λ keys. still-Keeps s C _)

  module _ (m : CheckpointManager)
      (checkpoints : (v : ℤ) (o : Object) (c : Contents)
        → C c
        → C (write (checkpoint_key m.log_prefix v) o c))
      (marked : (o : Object) (c : Contents) → C c → C (write m.last_checkpoint_key o c)) where
    create_checkpoint-Keeps : (v : ℤ) → Keeps s C (create_checkpoint s clock m v)
    unfolding create_checkpoint
    create_checkpoint-Keeps v =
        bind-Keeps s C _ _ (context-Keeps s C _ _ (snapshot-Keeps m.log_prefix v)) (λ snap.
          bind-Keeps s C _ _ (context-Keeps s C _ _ (upload-Keeps s C _ _ (checkpoints v _))) (λ _.
            bind-Keeps s C _ _
              (logged-Keeps _ (
                if-Keeps s C m.config.validation_enabled _ _
                  (validate_checkpoint-Keeps m.log_prefix _ snap) (still-Keeps s C _)))
              (λ _.
                bind-Keeps s C _ _ (context-Keeps s C _ _ (upload-Keeps s C _ _ (marked _))) (λ _.
                  bind-Keeps s C _ _ (logged-Keeps _ (cleanup-Keeps m v))
                    (λ _. still-Keeps s C _)))))

    -- Whatever fails on the way, `MaybeCheckpoint` keeps every property of the bucket that writes to
    -- the checkpoint files and the marker keep.
    pub maybe_checkpoint-Keeps : (v : ℤ) → Keeps s C (maybe_checkpoint s clock m v)
    unfolding maybe_checkpoint
    maybe_checkpoint-Keeps v = record {
      at = λ w h.
          let there = (should_create_checkpoint-Keeps m v).at w h in
          let written = (create_checkpoint-Keeps v).at _ there in search kept_if;
    }

-- MaybeCheckpoint leaves a log with all its entries as it was, whatever fails on the way, if it
-- writes under the log's directory and its marker's key names no version.
pub maybe_checkpoint-IsLog :
    {W : Type 0} (s : S3Store W) (clock : W → ℕ) (dir : Bytes) (n : ℕ) (entries : ℕ → List Action)
    (m : CheckpointManager) (v : ℤ) (w : W)
    → m.log_prefix ≡ directory dir
    → version_of_key m.last_checkpoint_key ≡ none
    → IsLog dir n entries (s.contents w)
    → IsLog dir n entries (s.contents (maybe_checkpoint s clock m v w).1)
maybe_checkpoint-IsLog s clock dir n entries m v w here nameless h =
    (maybe_checkpoint-Keeps s (IsLog dir n entries) clock m
        (λ u o c k.
          write_other-IsLog dir n entries _ o c (rw here (version_of_key-checkpoint_key dir u)) k)
        (λ o c k. write_other-IsLog dir n entries _ o c nameless k) v).at
      w h
