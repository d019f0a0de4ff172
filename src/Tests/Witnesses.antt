-- ===== src/Tests/Witnesses.antt =====
-- The theorems on the table log at concrete inputs.
use mathlib.Core.Path.{subst}
use agent_brain.Base.{
  some_inj, ℕ, ◌+◌, ◌≤◌, ◌<◌, ◌≡◌, refl, none, some, List, [], ◌∷◌, true, arith, In, length, ◌≢◌,
}
use agent_brain.Base.Int.{ℤ, pos, negsuc, pos_part, sub_ℕ}
use agent_brain.Base.Bytes.{codes}
use agent_brain.Retry.Errors.{Error, ok, is_err}
use agent_brain.Retry.Breaker.{CircuitBreaker}
use agent_brain.Retry.Executor.{notify}
use agent_brain.Retry.Executor.Rule.{Ends}
use agent_brain.Delta.Actions.{checkpoint}
use agent_brain.Base.Strings.{base_of, has_suffix, has_prefix}
use agent_brain.Base.Bytes.{bytes_eq}
use agent_brain.Base.Map.{lookup}
use agent_brain.Delta.Keys.{checkpoint_key}
use agent_brain.Delta.Keys.Names.{version_of_key-version_key}
use agent_brain.Delta.Snapshot.Replay.{replay-last_word, last_word, or_keep}
use agent_brain.Delta.Actions.{log_entry}
use agent_brain.Delta.Checkpoint.{
  CheckpointManager, CheckpointFile, maybe_checkpoint, new_checkpoint_manager,
  select_checkpoints_for_deletion,
}
use agent_brain.Delta.Checkpoint.Selection.{select_checkpoints_for_deletion_lem}
use agent_brain.Delta.Validation.{
  no_protocol, no_metadata, recover_from_checkpoint, validate_checkpoint_file, validate_structure,
}
use agent_brain.Delta.Validation.Structure.{bad_checkpoint_found}
use agent_brain.Delta.Checkpoint.Safe.{maybe_checkpoint-IsLog}
use agent_brain.Delta.Keys.Names.{directory}
use agent_brain.Delta.Keys.{version_key, version_of_key}
use agent_brain.Delta.Log.{latest_version, list_versions, versions_of, sort_versions, last_version}
use agent_brain.Base.Decimal.{pad20, parse_int}
use agent_brain.Base.Strings.{trim_suffix}
use agent_brain.Delta.Store.{◌>>=◌, context}
use agent_brain.Delta.Log.Latest.{IsLog, latest_version_lem, write-IsLog, append_entry}
use agent_brain.Delta.Store.{write}
use agent_brain.Delta.Snapshot.{snapshot, replay, empty_snapshot}
use agent_brain.Delta.Snapshot.History.{history, Logged, Replays, snapshot-Ends}
use agent_brain.Delta.Table.{Managed, delta_retry_policy, delta_circuit_breaker, commit}
use agent_brain.Delta.Table.Commit.{IsSuited, Stays}
use agent_brain.Delta.Table.Attempts.{IsAttempted, commit-IsAttempted}
use agent_brain.Retry.Breaker.{new_circuit_breaker, timed_out}
use agent_brain.Delta.Table.Success.{commit_succeeds}
use agent_brain.Delta.Table.Effect.{Shows, commit_effect}
use agent_brain.Tests.Memory.{
  Bucket, memory, calm, table, eager, one_file, one_version, one_entry, one_version-IsLog,
}
use agent_brain.Tests.Runs.{commit_run}

eager-IsSuited : IsSuited (codes "t/_delta_log") (some eager)
unfolding eager new_checkpoint_manager version_of_key base_of has_suffix has_prefix bytes_eq
eager-IsSuited c e =
    subst
      (λ (m : CheckpointManager).
        (m.log_prefix ≡ directory (codes "t/_delta_log"))
        × (version_of_key m.last_checkpoint_key ≡ none))
      (some_inj e) (refl, refl)

delta-Stays :
    (j : ℕ) (e : Error) (x : CircuitBreaker × Managed Bucket)
    → Stays memory x (notify (delta_retry_policy _) j e x)
unfolding notify delta_retry_policy
delta-Stays j e x = (refl, refl)

room :
    1 + pos_part (delta_retry_policy (CircuitBreaker × Managed Bucket)).max_attempts
    ≤ 9223372036854775807
unfolding delta_retry_policy
room = omega arith

commit_effect_example :
    Shows memory
      (λ b. 1000)
      (λ b. pos 5)
      table
      (codes "t/_delta_log")
      refl
      1
      one_entry
      (one_file ∷ [])
      (codes "WRITE")
      (pos 1)
      (commit memory
        (λ b. 1000)
        (λ b. pos 5)
        table
        calm
        (delta_retry_policy _)
        (one_file ∷ [])
        (codes "WRITE")
        (delta_circuit_breaker, (some eager, one_version))).1.1.1
commit_effect_example =
    commit_effect memory (λ b. 1000) (λ b. pos 5) table (codes "t/_delta_log") refl 1 one_entry
      (one_file ∷ []) (codes "WRITE") calm (delta_retry_policy _) delta_circuit_breaker (some eager)
      one_version (λ d x. (refl, refl)) delta-Stays eager-IsSuited room one_version-IsLog (pos 1)
      commit_run

commit-IsAttempted_example :
    IsAttempted memory
      (λ b. 1000)
      (λ b. pos 5)
      table
      (codes "t/_delta_log")
      refl
      1
      one_entry
      (one_file ∷ [])
      (codes "WRITE")
      calm
      (delta_retry_policy _)
      (some eager)
      (delta_circuit_breaker, (some eager, one_version))
      (commit memory
        (λ b. 1000)
        (λ b. pos 5)
        table
        calm
        (delta_retry_policy _)
        (one_file ∷ [])
        (codes "WRITE")
        (delta_circuit_breaker, (some eager, one_version)))
unfolding delta_retry_policy
commit-IsAttempted_example =
    commit-IsAttempted memory (λ b. 1000) (λ b. pos 5) table (codes "t/_delta_log") refl 1 one_entry
      (one_file ∷ []) (codes "WRITE") calm (delta_retry_policy _) (some eager) (λ d x. (refl, refl))
      delta-Stays eager-IsSuited room delta_circuit_breaker one_version (omega arith)
      one_version-IsLog

latest_run : (latest_version memory (directory (codes "t/_delta_log")) one_version).0 ≡ ok (pos 0)
unfolding latest_version list_versions ◌>>=◌ context memory version_key version_of_key versions_of
    sort_versions last_version pad20 parse_int has_prefix has_suffix trim_suffix base_of bytes_eq
latest_run = refl

latest_version_lem_example : pos 0 ≡ sub_ℕ 1 1
latest_version_lem_example =
    latest_version_lem memory (codes "t/_delta_log") 1 one_entry one_version (pos 0)
      one_version-IsLog latest_run

write-IsLog_example :
    IsLog (codes "t/_delta_log") 2 (append_entry 1 (one_file ∷ one_file ∷ []) one_entry) (
      write
        (version_key (directory (codes "t/_delta_log")) (pos 1))
        (log_entry (one_file ∷ one_file ∷ []))
        (memory.contents one_version))
write-IsLog_example =
    write-IsLog (codes "t/_delta_log") 1 one_entry (one_file ∷ one_file ∷ [])
      (memory.contents one_version) (omega arith) one_version-IsLog

maybe_checkpoint-IsLog_example :
    IsLog
      (codes "t/_delta_log")
      1
      one_entry
      (memory.contents (maybe_checkpoint memory (λ b. 1000) eager (pos 4) one_version).1)
unfolding eager new_checkpoint_manager version_of_key base_of has_suffix has_prefix bytes_eq
maybe_checkpoint-IsLog_example =
    maybe_checkpoint-IsLog memory (λ b. 1000) (codes "t/_delta_log") 1 one_entry eager (pos 4)
      one_version refl refl one_version-IsLog

snapshot-Ends_example :
    Ends
      (Logged memory (codes "t/_delta_log") 1 one_entry)
      (Replays memory
        (codes "t/_delta_log")
        1
        one_entry
        (history one_entry 0 1)
        (empty_snapshot (pos 0)))
      (snapshot memory (directory (codes "t/_delta_log")) (pos 0) one_version)
snapshot-Ends_example =
    snapshot-Ends memory (codes "t/_delta_log") 1 one_entry 0 one_version one_version-IsLog
      (omega arith)

replay-last_word_example :
    lookup (codes "a") (replay (one_file ∷ []) (empty_snapshot (pos 0))).files
    ≡ or_keep (last_word (codes "a") (one_file ∷ [])) (lookup (codes "a") [])
replay-last_word_example = replay-last_word (codes "a") (one_file ∷ []) (empty_snapshot (pos 0))

version_of_key-version_key_example :
    version_of_key (version_key (directory (codes "t")) (negsuc 6)) ≡ some (negsuc 6)
version_of_key-version_key_example = version_of_key-version_key (codes "t") (negsuc 6) (omega arith)

abbrev file_at : ℤ → CheckpointFile
file_at v = record { key = checkpoint_key (directory (codes "t")) v; version = v }

abbrev three_files : List CheckpointFile
three_files = file_at (pos 1) ∷ file_at (pos 2) ∷ file_at (pos 3) ∷ []

select_checkpoints_for_deletion_lem_example :
    let chosen = select_checkpoints_for_deletion eager three_files (pos 3) in
    ((f : CheckpointFile) → In f chosen → f.version ≢ pos 3)
    × (length three_files ≤ 1 → chosen ≡ [])
    × (0 < length chosen
        → pos_part eager.config.max_checkpoints + length chosen ≤ length three_files)
select_checkpoints_for_deletion_lem_example =
    select_checkpoints_for_deletion_lem eager three_files (pos 3)

-- An empty checkpoint at version 3.
abbrev no_actions : Bucket
no_actions = (checkpoint_key (directory (codes "t")) (pos 3), checkpoint []) ∷ []

bad_checkpoint_found_example :
    (is_err (recover_from_checkpoint memory (directory (codes "t")) (pos 3) no_actions).0 ≡ true)
    × ((validate_checkpoint_file memory
          (directory (codes "t"))
          (checkpoint_key (directory (codes "t")) (pos 3))
          no_actions).0
        ≡ ok tt)
unfolding memory lookup bytes_eq checkpoint_key pad20 validate_structure
bad_checkpoint_found_example =
    bad_checkpoint_found memory (directory (codes "t")) (pos 3) [] no_protocol (no_metadata ∷ [])
      no_actions no_actions refl refl refl refl

commit_succeeds_example :
    (commit memory
      (λ b. 1000)
      (λ b. pos 5)
      table
      calm
      (delta_retry_policy _)
      (one_file ∷ [])
      (codes "WRITE")
      (delta_circuit_breaker, (some eager, one_version))).0
    ≡ ok (pos 1)
unfolding memory delta_circuit_breaker new_circuit_breaker timed_out delta_retry_policy
commit_succeeds_example =
    commit_succeeds memory (λ b. 1000) (λ b. pos 5) table (codes "t/_delta_log") refl 1 one_entry
      (one_file ∷ []) (codes "WRITE") calm (delta_retry_policy _) delta_circuit_breaker (some eager)
      one_version _ (omega arith) refl (omega arith) one_version-IsLog refl (λ k o. refl)
