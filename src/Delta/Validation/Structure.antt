-- ===== src/Delta/Validation/Structure.antt =====
-- What the two callers of the structure check make of its result.
use agent_brain.Base.{◌≡◌, true, List, ◌∷◌, arith}
use agent_brain.Base.Int.{ℤ}
use agent_brain.Base.Bytes.{Bytes}
use agent_brain.Retry.Errors.{ok, is_err}
use agent_brain.Delta.Actions.{Action, checkpoint}
use agent_brain.Delta.Keys.{checkpoint_key}
use agent_brain.Delta.Store.{S3Store, context, ◌>>=◌}
use agent_brain.Delta.Validation.{
  ValidationError, parse_checkpoint, validate_checkpoint_file, validate_structure, new_result,
  recover_from_checkpoint, verdict,
}

module _ {W : Type 0} (s : S3Store W) (log_prefix : Bytes) (version : ℤ) (acts : List Action)
    (e : ValidationError) (es : List ValidationError) where
  -- A checkpoint that the structure check reports errors about is refused by RecoverFromCheckpoint,
  -- but accepted by validateCheckpointFile, on which FindValidCheckpoint relies, provided that the
  -- store serves the file to both.
  pub bad_checkpoint_found :
      (w w' : W)
      → (s.exists (checkpoint_key log_prefix version) w).0 ≡ ok true
      → (s.download
          (checkpoint_key log_prefix version)
          (s.exists (checkpoint_key log_prefix version) w).1).0
        ≡ ok (checkpoint acts)
      → (s.download (checkpoint_key log_prefix version) w').0 ≡ ok (checkpoint acts)
      → (validate_structure acts (new_result version)).1.errors ≡ e ∷ es
      → (is_err (recover_from_checkpoint s log_prefix version w).0 ≡ true)
        × ((validate_checkpoint_file s log_prefix (checkpoint_key log_prefix version) w').0 ≡ ok tt)
  unfolding validate_checkpoint_file parse_checkpoint context ◌>>=◌ recover_from_checkpoint verdict
      validate_structure
  bad_checkpoint_found w w' there read again bad = ground arith
