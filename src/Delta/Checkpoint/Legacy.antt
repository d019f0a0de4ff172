-- ===== src/Delta/Checkpoint/Legacy.antt =====
-- internal/storage/delta/checkpoint.go: `LegacyCheckpointManager`, which the sync engine uses. The table
-- that it reads and the log have the same prefix.
use agent_brain.Base.{ℕ, suc, ◌%◌, Bool, if◌then◌else◌, length, ◌++◌}
use agent_brain.Base.Int.{ℤ, pos, negsuc, eqb_ℤ}
use agent_brain.Base.Bytes.{Bytes, codes}
use agent_brain.Base.Decimal.{decimal_int}
use agent_brain.Retry.Executor.{Operation}
use agent_brain.Delta.Actions.{LastCheckpoint, Object, checkpoint, marker}
use agent_brain.Delta.Store.{S3Store, Contents, write, ◌>>=◌, ◌>>◌, return, context}
use agent_brain.Delta.Store.Keeping.{
  Keeps, still-Keeps, bind-Keeps, context-Keeps, if-Keeps, upload-Keeps,
}
use agent_brain.Delta.Keys.{checkpoint_key}
use agent_brain.Delta.Snapshot.{snapshot}
use agent_brain.Delta.Checkpoint.{build_checkpoint_actions, parse_marker}
use agent_brain.Delta.Checkpoint.Safe.{snapshot-Keeps}

pub record LegacyCheckpointManager : Type 0 where
  pub last_checkpoint_key : Bytes
  pub log_prefix : Bytes

-- `version%checkpointInterval != 0`, the interval being 10.
unfoldable pub is_tenth : ℤ → Bool
is_tenth (pos n) = eqb_ℤ (pos (n % 10)) (pos 0)
is_tenth (negsuc n) = eqb_ℤ (pos (suc n % 10)) (pos 0)

module _ {W : Type 0} (s : S3Store W) (m : LegacyCheckpointManager) where
  -- `CreateCheckpoint`
  unfoldable pub create_checkpoint : ℤ → Operation W (Unit {0})
  create_checkpoint version = do
    snap ←
        context (codes "snapshot for checkpoint at version " ++ decimal_int version)
          (snapshot s m.log_prefix version)
    let acts = build_checkpoint_actions snap
    context (codes "upload checkpoint")
        (s.upload (checkpoint_key m.log_prefix version) (checkpoint acts))
    context (codes "write last checkpoint marker") (
        s.upload m.last_checkpoint_key
          (marker (record { version = version; size = pos (length acts) })))

  -- `MaybeCheckpoint`
  unfoldable pub maybe_checkpoint : ℤ → Operation W (Unit {0})
  maybe_checkpoint version =
      if eqb_ℤ version (pos 0)
      then return tt
      else if is_tenth version
      then create_checkpoint version
      else return tt

  -- `GetLastCheckpoint`
  unfoldable pub get_last_checkpoint : Operation W LastCheckpoint
  get_last_checkpoint = do text ← s.download m.last_checkpoint_key; λ w. (parse_marker text, w)

-- What the writes of a checkpoint's file and of the marker keep, a checkpoint keeps.
module _ {W : Type 0} (s : S3Store W) (C : Contents → Type 0) (clock : W → ℕ)
    (m : LegacyCheckpointManager)
    (checkpoints : (v : ℤ) (o : Object) (c : Contents)
      → C c
      → C (write (checkpoint_key m.log_prefix v) o c))
    (marked : (o : Object) (c : Contents) → C c → C (write m.last_checkpoint_key o c)) where
  create_checkpoint-Keeps : (v : ℤ) → Keeps s C (create_checkpoint s m v)
  unfolding create_checkpoint
  create_checkpoint-Keeps v =
      bind-Keeps s C _ _ (context-Keeps s C _ _ (snapshot-Keeps s C clock m.log_prefix v)) (λ snap.
        bind-Keeps s C _ _ (context-Keeps s C _ _ (upload-Keeps s C _ _ (checkpoints v _)))
          (λ _. context-Keeps s C _ _ (upload-Keeps s C _ _ (marked _))))

  pub maybe_checkpoint-Keeps : (v : ℤ) → Keeps s C (maybe_checkpoint s m v)
  unfolding maybe_checkpoint
  maybe_checkpoint-Keeps v =
      if-Keeps s C (eqb_ℤ v (pos 0)) _ _ (still-Keeps s C _)
        (if-Keeps s C (is_tenth v) _ _ (create_checkpoint-Keeps v) (still-Keeps s C _))
