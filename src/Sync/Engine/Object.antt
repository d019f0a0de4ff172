-- ===== src/Sync/Engine/Object.antt =====
-- internal/sync/engine.go: `syncObject`, which brings one object's new records into its table, and
-- internal/storage/parquet.go, which writes a batch of them to a file. A channel of batches is the
-- list of what it delivers, with the error that the channel of errors gives first. The fields of a
-- validation result that only the logs read are left out, and so are the log lines.
use agent_brain.Base.{
  ℕ, Bool, not, ◌&&◌, ◌||◌, Option, none, some, List, [], ◌∷◌, ◌++◌, if◌then◌else◌, length,
}
use agent_brain.Base.Int.{ℤ, pos, ◌+ℤ◌, ltb_ℤ, wrap64}
use agent_brain.Base.Bytes.{Bytes, codes}
use agent_brain.Base.Map.{Map, lookup, insert}
use agent_brain.Base.Decimal.{decimal_int}
use agent_brain.Base.Strings.{Avoids}
use agent_brain.Retry.Errors.{Error, message, Result, ok, err}
use agent_brain.Retry.Breaker.{CircuitBreaker}
use agent_brain.Retry.Executor.{Runtime, Operation}
use agent_brain.Delta.Actions.{Action, other, new_add_action}
use agent_brain.Delta.Store.{S3Store, ◌>>=◌, ◌>>◌, return, fail, context}
use agent_brain.Delta.Checkpoint.Legacy.{LegacyCheckpointManager, maybe_checkpoint}
use agent_brain.Delta.Table.{
  DeltaTable, Managed, delta_retry_policy, delta_circuit_breaker, initialize, commit,
}
use agent_brain.Schema.{Field, Schema, Hasher, compute_hash, is_empty}
use agent_brain.Sync.Planner.{SyncMode, full, incremental, skip, ObjectPlan, ObjectState, mode_text}
use agent_brain.Sync.State.{Json, save_schema_version}
use agent_brain.Layout

pub record Stream (R : Type 0) : Type 0 where
  pub batches : List (List R)
  pub failure : Option Error

pub record BatchValidationResult : Type 0 where
  pub error_records : ℤ
  pub errors : List Bytes

-- `HasErrors`
unfoldable pub has_errors : BatchValidationResult → Bool
has_errors r = not (is_empty r.errors) || ltb_ℤ (pos 0) r.error_records

pub record WrittenFile : Type 0 where
  pub key : Bytes
  pub filename : Bytes
  pub size : ℤ
  pub num_rows : ℤ

-- The local type `deltaField`, whose metadata is always empty.
pub record DeltaField : Type 0 where
  pub name : Bytes
  pub type : Bytes
  pub nullable : Bool

unfoldable pub delta_fields : List Field → List DeltaField
delta_fields [] = []
delta_fields (f ∷ fs) =
    record { name = f.name; type = f.field_type; nullable = f.nullable } ∷ delta_fields fs

-- What the engine uses of other code: the clock, `uuid.New`, whose text has no slash, the Parquet library, the JSON library,
-- the hasher of schemas, the connector's two extractions, and the validator of batches.
pub record Host (R W : Type 0) : Type 0 where
  pub now : W → ℤ × W
  pub new_uuid : W → Bytes × W
  pub uuid_plain : (w : W) → Avoids b'/' (new_uuid w).0
  pub write_rows : Option Schema → List R → Result Bytes
  pub json : Json
  pub marshal_fields : List DeltaField → Bytes
  pub hasher : Hasher
  pub full_snapshot : Bytes → W → Stream R × W
  pub incremental_changes : Bytes → Bytes → ℤ → W → Stream R × W
  pub validator : Option (List R → Option Schema → BatchValidationResult)

-- What the loop over the batches has gathered.
pub record Progress : Type 0 where
  pub total_records : ℤ
  pub actions : List Action
  pub batch_results : List BatchValidationResult

unfoldable pub no_progress : Progress
no_progress = record { total_records = pos 0; actions = []; batch_results = [] }

unfoldable pub row_stats : ℤ → Bytes
row_stats n = codes "{\"numRecords\":" ++ (decimal_int n ++ codes "}")

unfoldable pub operation_name : SyncMode → Bytes
operation_name full = codes "WRITE (full sync)"
operation_name incremental = codes "WRITE"
operation_name skip = codes "WRITE"

module _ {R W : Type 0} (s : S3Store W) (host : Host R W) where
  -- `WriteRecords`, behind the choice of a name.
  unfoldable pub write_file :
      Bytes → Bytes → Option Schema → List R → Bytes → Operation W (Option WrittenFile)
  write_file source object schema records id =
      let filename = codes "part-00000-" ++ (id ++ codes ".snappy.parquet") in
      let key = Layout.parquet_file source object filename in
      (λ w. (host.write_rows schema records, w)) >>= λ text.
      context (codes "upload parquet file") (s.upload key (other text))
      >> return (
          some (record {
            key = key;
            filename = filename;
            size = pos (length text);
            num_rows = pos (length records);
          }))

  -- `WriteRecords`
  unfoldable pub write_records :
      Bytes → Bytes → Option Schema → List R → Operation W (Option WrittenFile)
  unfolding write_file
  write_records source object schema [] w = (ok none, w)
  write_records source object schema (r ∷ rs) w =
      let (id, w') = host.new_uuid w in write_file source object schema (r ∷ rs) id w'

  module _ (unix_milli : W → ℤ) (source : Bytes) (strict : Bool) (plan : ObjectPlan) where
    -- The validation of a batch: an error in strict mode, or the results with one more.
    unfoldable pub validate_batch :
        Option (List R → Option Schema → BatchValidationResult)
        → List R
        → List BatchValidationResult
        → Result (List BatchValidationResult)
    validate_batch none batch results = ok results
    validate_batch (some validate) batch results =
        let result = validate batch plan.schema in
        if has_errors result && strict
        then err (
            message (
              codes "validation failed for "
              ++ (plan.object_name
                  ++ (codes ": "
                      ++ (decimal_int result.error_records
                          ++ codes " errors found (strict mode enabled)")))))
        else ok (results ++ result ∷ [])

    -- `if written != nil`
    unfoldable pub note_file :
        Progress → List BatchValidationResult → ℤ → Option WrittenFile → Progress
    note_file p results time none = record p { batch_results = results }
    note_file p results time (some f) = record {
      total_records = wrap64 (p.total_records +ℤ f.num_rows);
      actions = p.actions ++ new_add_action f.filename f.size (row_stats f.num_rows) time ∷ [];
      batch_results = results;
    }

    -- One round of the loop.
    unfoldable pub process_batch : List R → Progress → Operation W Progress
    process_batch [] p = return p
    process_batch (r ∷ rs) p =
        (λ w. (validate_batch host.validator (r ∷ rs) p.batch_results, w)) >>= λ results.
        context (codes "write records") (write_records source plan.object_name plan.schema (r ∷ rs))
        >>= λ written. λ w. (ok (note_file p results (unix_milli w) written), w)

    unfoldable pub process : List (List R) → Progress → Operation W Progress
    process [] p = return p
    process (batch ∷ batches) p = process_batch batch p >>= process batches

    -- The batches, by the mode. `Run` passes no plan that is skipped.
    unfoldable pub extract_by : SyncMode → Map ObjectState → W → Stream R × W
    extract_by full objects w = host.full_snapshot plan.object_name w
    extract_by incremental objects w =
        host.incremental_changes plan.object_name plan.watermark_field
          (elim (lookup plan.object_name objects) [ some st ↦ st.watermark_value | none ↦ pos 0 ]) w
    extract_by skip objects w = (record { batches = []; failure = none }, w)

    unfoldable pub extract : Map ObjectState → W → Stream R × W
    unfolding extract_by
    extract = extract_by plan.mode

    -- `if err, ok := <-errsCh; ok && err != nil`
    unfoldable pub extraction_error : Option Error → Operation W (Unit {0})
    extraction_error none = return tt
    extraction_error (some e) = context (codes "extraction error") (fail e)

    -- From the extraction of the batches to the check for its error.
    unfoldable pub gather : Map ObjectState → Operation W Progress
    unfolding process extraction_error
    gather objects w =
        let (stream, w') = extract objects w in
        (process stream.batches no_progress >>= λ p. extraction_error stream.failure >> return p) w'

    abbrev pub table : DeltaTable
    table = record {
      log_prefix = Layout.delta_log_prefix source plan.object_name;
      source = source;
      object = plan.object_name;
    }

    -- The object's state after a commit.
    unfoldable pub object_state : ℤ → ℤ → W → ObjectState × W
    object_state version total w =
        let (synced, w₁) = host.now w in
        let (mark, w₂) = host.now w₁ in
        (
          record {
            last_sync_time = synced;
            watermark_field = plan.watermark_field;
            watermark_value = mark;
            schema_hash = elim plan.schema [
              | some schema ↦ compute_hash host.hasher schema.fields
              | none ↦ []
            ];
            schema_version = elim plan.schema [ some schema ↦ plan.new_version | none ↦ pos 0 ];
            previous_schema = plan.schema;
            delta_version = version;
            total_records = total;
            last_sync_records = total;
            sync_type = mode_text plan.mode;
          },
          w₂,
        )

    -- A call whose error is only logged.
    unfoldable pub only_logged : {A : Type 0} → Operation W A → W → W
    only_logged m w = (m w).1

    unfoldable pub keep_schema : W → W
    keep_schema w = elim plan.schema [
      | none ↦ w
      | some schema ↦
          if plan.schema_changed
          then only_logged
              (save_schema_version s host.json source plan.object_name plan.new_version schema) w
          else w
    ]

    unfoldable pub legacy_manager : LegacyCheckpointManager
    legacy_manager = record {
      last_checkpoint_key = Layout.delta_last_checkpoint source plan.object_name;
      log_prefix = Layout.delta_log_prefix source plan.object_name;
    }

    -- What follows a commit.
    unfoldable pub after_commit : Map ObjectState → Progress → ℤ → W → Map ObjectState × W
    unfolding only_logged
    after_commit objects p version w =
        let (state, w₁) = object_state version p.total_records w in
        (
          insert plan.object_name state objects,
          only_logged (maybe_checkpoint s legacy_manager version) (keep_schema w₁),
        )

    module _ (clock : W → ℕ) (rt : Runtime (CircuitBreaker × Managed W)) where
      -- `table.Commit` of a new table, which has no checkpoint manager of its own.
      unfoldable pub commit_new : List Action → Operation W ℤ
      commit_new actions w =
          let (r, (cb, (m, w'))) =
            commit s clock unix_milli table rt (delta_retry_policy _) actions
              (operation_name plan.mode) (delta_circuit_breaker, (none, w)) in
          (r, w')

      -- `if len(deltaActions) > 0`
      unfoldable pub store : Map ObjectState → Progress → Operation W (Map ObjectState)
      unfolding after_commit
      store objects p =
          if is_empty p.actions
          then return objects
          else (context (codes "delta commit") (commit_new p.actions) >>= λ version.
              λ w. let (objects', w') = after_commit objects p version w in (ok objects', w'))

      -- `if plan.Schema != nil`
      unfoldable pub initialize_by : Option Schema → Operation W (Unit {0})
      initialize_by none = return tt
      initialize_by (some schema) =
          context (codes "initialize delta table")
            (initialize s clock unix_milli table (host.marshal_fields (delta_fields schema.fields)))

      unfoldable pub initialize_table : Operation W (Unit {0})
      unfolding initialize_by
      initialize_table = initialize_by plan.schema

      -- `syncObjectWithValidation`: the states of the objects and the results of the batches.
      unfoldable pub sync_object :
          Map ObjectState → Operation W (Map ObjectState × List BatchValidationResult)
      sync_object objects = do
        initialize_table
        p ← gather objects
        objects' ← store objects p
        return (objects', p.batch_results)
