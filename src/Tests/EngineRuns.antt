-- ===== src/Tests/EngineRuns.antt =====
-- The sync engine on a source with one object, over the store in memory.
use agent_brain.Base.{
  ℕ, ◌/◌, ◌≡◌, refl, true, false, Option, none, some, List, [], ◌∷◌, ◌++◌, arith, length,
}
use agent_brain.Base.Int.{pos, ◌+ℤ◌, ◌-ℤ◌, wrap64, ◌*ℤ◌}
use agent_brain.Base.Bytes.{codes, bytes_eq}
use agent_brain.Base.Map.{Map, lookup, insert}
use agent_brain.Base.Decimal.{pad20, parse_int, decimal_int, decimal, decimal_int-differs}
use agent_brain.Base.Strings.{has_prefix, has_suffix, trim_suffix, base_of}
use agent_brain.Retry.Errors.{Result, ok, err}
use agent_brain.Retry.Breaker.{execute_guarded, can_execute, record_result, new_circuit_breaker}
use agent_brain.Retry.Executor.{execute, with_circuit_breaker, with_retry_and_circuit_breaker}
use agent_brain.Delta.Actions.{Action}
use agent_brain.Delta.Store.{◌>>=◌, context}
use agent_brain.Delta.Keys.{version_key, version_of_key}
use agent_brain.Delta.Log.{
  latest_version, list_versions, versions_of, sort_versions, last_version, write_version,
}
use agent_brain.Delta.Log.Latest.{IsLog}
use agent_brain.Delta.Table.{
  delta_retry_policy, delta_circuit_breaker, commit, commit_op, initialize,
}
use agent_brain.Layout
use agent_brain.Layout.Nameless.{log_directory}
use agent_brain.Schema.{Schema}
use agent_brain.Tests.Hashing.{by_insertion}
use agent_brain.Sync.Planner.{ObjectPlan, ObjectState, full, plan, plan_from, first_run, start_plan}
use agent_brain.Sync.State.{new_state, load, save}
use agent_brain.Sync.Recovery
use agent_brain.Sync.Recovery.{
  Site, RecoveryState, default_recovery_config, connect, done, recall, can_retry, rounds,
  execute_with_retry, increment_attempt, guarded, after_attempt, await, attempt, round,
}
use agent_brain.Sync.Engine.Object.{
  Host, BatchValidationResult, has_errors, sync_object, initialize_table, initialize_by, gather,
  process, process_batch, write_records, write_file, validate_batch, note_file, extract_by, store,
  commit_new, after_commit, object_state, keep_schema, legacy_manager, only_logged,
  extraction_error, extract, no_progress,
}
use agent_brain.Delta.Checkpoint.Legacy.{maybe_checkpoint, is_tenth}
use agent_brain.Sync.Engine.Files.{IsQuiet}
use agent_brain.Sync.Engine.Run.{
  Services, Settings, run, is_skipped, and_then, sync_plan, sync_plans, shared_site, note_outcome,
  sync_object_op, save_run, plan_objects, check_consistency, check_by, connect_step, discover_step,
  sync_failure, wrap_failure, sync_all, after_syncs, after_check, run_connected, after_connect,
  closing, finish, report_errors,
}
use agent_brain.Sync.Recovery.Resume.{aggregate}
use agent_brain.Tests.Memory.{Bucket, memory, calm}

-- A batch is bad when its first record is 9.
abbrev pub judge : List ℕ → Option Schema → BatchValidationResult
judge [] schema = record { error_records = pos 0; errors = [] }
judge (r ∷ rs) schema = record { error_records = pos (r / 9); errors = [] }

abbrev pub two_batches : List (List ℕ)
two_batches = (1 ∷ 2 ∷ []) ∷ [] ∷ (3 ∷ []) ∷ []

abbrev pub host : Host ℕ Bucket
host = record {
  now = λ b. (pos 1000, b);
  new_uuid = λ b. (codes "u" ++ decimal_int (pos (length b)), b);
  uuid_plain = λ b. (refl, decimal_int-differs b'/' (pos (length b)) refl refl);
  write_rows = λ schema rows. ok (codes "rows");
  json = record {
    state_text = λ st. codes "state";
    read_state = λ o. none;
    schema_text = λ sc. [];
  };
  marshal_fields = λ fs. codes "fields";
  hasher = by_insertion (λ fs. codes "digest");
  full_snapshot = λ object b. (record { batches = two_batches; failure = none }, b);
  incremental_changes = λ object field mark b. (record { batches = []; failure = none }, b);
  validator = some judge;
}

pub host-IsQuiet : IsQuiet memory host
unfolding memory
host-IsQuiet = record {
  now_keeps = λ b. refl;
  uuid_keeps = λ b. refl;
  full_keeps = λ object b. refl;
  incremental_keeps = λ object field mark b. refl;
}

abbrev pub first_plan : ObjectPlan
first_plan = record {
  object_name = codes "o";
  mode = full;
  reason = [];
  watermark_field = codes "t";
  schema = some (record { object_name = codes "o"; fields = []; version = pos 1; hash = [] });
  schema_changed = true;
  new_version = pos 1;
}

abbrev pub nothing : ℕ → List Action
nothing v = []

pub nothing-IsLog : IsLog (log_directory (codes "s") (codes "o")) 0 nothing (memory.contents [])
unfolding memory lookup
nothing-IsLog = record {
  sized = omega arith;
  held = λ v below. absurd (omega arith);
  alone = λ k v inside named there. cc;
}

abbrev pub synced : Result (Map ObjectState × List BatchValidationResult)
synced = (sync_object memory host (λ b. pos 5) (codes "s") true first_plan (λ b. 1000) calm [] []).0

abbrev pub value_of : {A : Type 0} → A → Result A → A
value_of default (ok a) = a
value_of default (err e) = default

pub sync_run : synced ≡ ok (value_of ([], []) synced)
unfolding sync_object initialize_table initialize_by initialize ◌>>=◌ context latest_version
    list_versions memory lookup insert bytes_eq has_prefix versions_of sort_versions last_version
    version_key version_of_key pad20 parse_int has_suffix trim_suffix base_of write_version gather
    extract_by process process_batch validate_batch has_errors write_records write_file note_file
    extraction_error store commit_new commit with_retry_and_circuit_breaker execute
    with_circuit_breaker execute_guarded can_execute record_result new_circuit_breaker commit_op
    delta_retry_policy delta_circuit_breaker wrap64 ◌+ℤ◌ Layout.delta_log_prefix Layout.parquet_file
    decimal_int decimal extract no_progress
sync_run = refl

-- A stored recovery state whose next attempt is due.
abbrev due : RecoveryState
due = record {
  source = codes "s";
  object = codes "o";
  phase = connect;
  attempts = pos 0;
  last_attempt = pos 0;
  next_retry = pos 0;
}

abbrev pub site : Site Bucket
site = record {
  now = λ b. (pos 1000, b);
  jitter = λ d b. (pos 0, b);
  wait = λ d b. (none, b);
  load = λ source object b. (some due, b);
  save = λ rs b. (none, b);
  delete = λ source object b. (none, b);
  list = λ source b. (none, b);
  monotone = λ b. omega arith;
}

abbrev pub services : Services Bucket
services = record {
  connect_source = λ b. (ok tt, b);
  close = λ b. b;
  discover_metadata =
      λ b. (ok (record { name = codes "o"; watermark_field = codes "t"; schema = none } ∷ []), b);
  describe_object =
      λ name b. (ok (record { name = name; watermark_field = codes "t"; schema = none }), b);
  catalog_text = λ metas. codes "catalog";
  fresh = λ b object. (pos 1000, pos 1000);
  duration_text = λ cut d. [];
  ratio_above = λ d e k. false;
  store_report = λ report b. b;
  report_validation = λ results b. b;
}

abbrev pub settings : Settings
settings = record {
  source = codes "s";
  objects = [];
  recovery = default_recovery_config;
  consistency = none;
  fail_on_violation = false;
  strict = true;
}

abbrev pub sync_breaker : Recovery.Breaker.CircuitBreaker
sync_breaker = Recovery.Breaker.new_circuit_breaker (codes "sync") (pos 5) (pos 120000000000)

pub engine_run :
    (run memory host services site
      (λ b. pos 5)
      (λ b. 1000)
      calm
      settings
      ([], (sync_breaker, []))).0
    ≡ done tt
unfolding run execute_with_retry can_retry recall default_recovery_config rounds round await attempt
    increment_attempt guarded after_attempt Recovery.Breaker.new_circuit_breaker
    Recovery.Breaker.can_execute Recovery.Breaker.record_success is_skipped plan plan_from
    start_plan first_run lookup insert memory new_state load save and_then sync_plan sync_plans
    shared_site note_outcome sync_object_op save_run aggregate plan_objects check_consistency wrap64
    ◌+ℤ◌ ◌-ℤ◌ ◌*ℤ◌ context bytes_eq Layout.sync_state Layout.catalog sync_object initialize_table
    initialize_by gather extract extract_by process no_progress process_batch validate_batch
    has_errors write_records write_file note_file extraction_error store commit_new commit
    with_retry_and_circuit_breaker execute with_circuit_breaker execute_guarded can_execute
    record_result new_circuit_breaker commit_op delta_retry_policy delta_circuit_breaker
    latest_version list_versions has_prefix versions_of sort_versions last_version version_key
    version_of_key pad20 parse_int has_suffix trim_suffix base_of write_version ◌>>=◌
    Layout.delta_log_prefix Layout.parquet_file decimal_int decimal after_commit object_state
    keep_schema only_logged legacy_manager maybe_checkpoint is_tenth connect_step discover_step
    sync_failure wrap_failure sync_all after_syncs after_check run_connected after_connect closing
    finish report_errors check_by
engine_run = refl
