-- ===== src/Delta/Table.antt =====
-- internal/storage/delta/table.go: `DeltaTable`. What a commit may change is the breaker, the
-- checkpoint manager and the world; the log's prefix, the retry policy and the names are settings.
pub mod Growth
pub mod Commit
pub mod Effect
pub mod Attempts
pub mod Success
pub mod Keeping
use agent_brain.Base.{
  ◌*◌, ℕ, zero, suc, Bool, true, false, not, Option, none, some, List, [], ◌∷◌, ◌++◌, if◌then◌else◌,
}
use agent_brain.Base.Int.{ℤ, pos, negsuc, ◌+ℤ◌, leb_ℤ, ltb_ℤ, wrap64}
use agent_brain.Base.Bytes.{Bytes, codes, bytes_eq}
use agent_brain.Base.Decimal.{decimal_int}
use agent_brain.Retry.Errors.{Error, message, Result, ok, err, default_retryable}
use agent_brain.Retry.Breaker.{CircuitBreaker, new_circuit_breaker}
use agent_brain.Retry.Policy.{RetryPolicy, linear_backoff, millisecond, second}
use agent_brain.Retry.Executor.{Runtime, Operation, with_retry_and_circuit_breaker}
use agent_brain.Delta.Actions.{
  Action, new_protocol_action, new_metadata_action, new_commit_info_action,
}
use agent_brain.Delta.Store.{S3Store, ◌>>=◌, ◌>>◌, return, fail, context, wrap_error}
use agent_brain.Delta.Log.{write_version, latest_version}
use agent_brain.Delta.Snapshot.{Snapshot, snapshot}
use agent_brain.Delta.Checkpoint.{CheckpointManager, maybe_checkpoint}

pub record DeltaTable : Type 0 where
  pub log_prefix : Bytes
  pub source : Bytes
  pub object : Bytes

-- `initializeRetryPolicies`
unfoldable pub delta_retry_policy : (W : Type 0) → RetryPolicy W
delta_retry_policy W = record {
  max_attempts = pos 3;
  base_delay = pos (500 * millisecond);
  max_delay = pos (10 * second);
  backoff = some linear_backoff;
  retryable = some default_retryable;
  on_retry = none;
  jitter = false;
}

unfoldable pub delta_circuit_breaker : CircuitBreaker
delta_circuit_breaker = new_circuit_breaker (codes "delta_operations") (pos 5) (pos (120 * second))

-- The checkpoint manager, if there is one, beside the world.
abbrev pub Managed : Type 0 → Type 0
Managed W = Option CheckpointManager × W

module _ {W : Type 0} (s : S3Store W) (clock : W → ℕ) (unix_milli : W → ℤ) (t : DeltaTable) where
  -- `Initialize`
  unfoldable pub initialize : Bytes → Operation W (Unit {0})
  initialize schema_string = do
    latest ← context (codes "check existing table") (latest_version s t.log_prefix)
    λ w.
        if leb_ℤ (pos 0) latest
        then (ok tt, w)
        else context (codes "initialize table")
            (write_version s t.log_prefix (pos 0) (
              new_protocol_action
              ∷ new_metadata_action (t.source ++ (codes "_" ++ t.object)) t.object schema_string
                  (unix_milli w)
              ∷ new_commit_info_action (codes "CREATE TABLE") (negsuc 0) true (unix_milli w)
              ∷ []))
            w

  -- The checkpoint after a commit, whose error is only logged.
  keep_manager : CheckpointManager → Result CheckpointManager × W → Managed W
  keep_manager m (ok m', w) = (some m', w)
  keep_manager m (err e, w) = (some m, w)

  after_commit : ℤ → Managed W → Managed W
  unfolding keep_manager
  after_commit version (none, w) = (none, w)
  after_commit version (some m, w) = keep_manager m (maybe_checkpoint s clock m version w)

  -- The write of `commitOp`, at the version that was found to be the latest.
  commit_after : List Action → Bytes → ℤ → Operation W ℤ
  commit_after actions operation latest w =
      let version = wrap64 (latest +ℤ pos 1) in
      let all = actions ++ new_commit_info_action operation latest true (unix_milli w) ∷ [] in
      (context (codes "commit version " ++ decimal_int version)
            (write_version s t.log_prefix version all)
          >> return version)
        w

  -- Finding the latest version and writing the next.
  write_next : List Action → Bytes → Operation W ℤ
  unfolding commit_after
  write_next actions operation = do
    latest ← context (codes "get latest version") (latest_version s t.log_prefix)
    commit_after actions operation latest

  settle : Option CheckpointManager → Result ℤ × W → Result ℤ × Managed W
  unfolding after_commit
  settle m (ok version, w) = (ok version, after_commit version (m, w))
  settle m (err e, w) = (err e, (m, w))

  -- `commitOp`
  unfoldable pub commit_op : List Action → Bytes → Operation (Managed W) ℤ
  unfolding write_next settle
  commit_op actions operation (m, w) = settle m (write_next actions operation w)

  -- `Commit`, with its retry policy and breaker set.
  unfoldable pub commit :
      Runtime (CircuitBreaker × Managed W)
      → RetryPolicy (CircuitBreaker × Managed W)
      → List Action
      → Bytes
      → Operation (CircuitBreaker × Managed W) ℤ
  unfolding commit_op
  commit rt p actions operation =
      with_retry_and_circuit_breaker rt p (λ (m, w). clock w) (commit_op actions operation)

  -- `CreateBackup` checks that the table has a snapshot.
  unfoldable pub create_backup : Operation W (Unit {0})
  create_backup = do
    latest ← context (codes "get latest version for backup") (latest_version s t.log_prefix)
    let missing = fail (message (codes "cannot backup table with no versions"))
    let read =
        context (codes "cannot create snapshot for backup") (snapshot s t.log_prefix latest)
        >> return tt
    if ltb_ℤ latest (pos 0) then missing else read

-- `RestoreFromBackup` and `ValidateBackup` only look at the path.
unfoldable pub check_backup_path : {W : Type 0} → Bytes → Operation W (Unit {0})
check_backup_path path =
    if bytes_eq path [] then fail (message (codes "backup path cannot be empty")) else return tt
