-- ===== src/Delta/Checkpoint.antt =====
-- internal/storage/delta/checkpoint_manager.go and checkpoint.go: when a checkpoint is written, what
-- it holds, and which old ones are chosen for deletion.
pub mod Selection
pub mod Safe
pub mod Legacy
use agent_brain.Base.{
  ℕ, zero, suc, ◌+◌, ◌-◌, ◌*◌, ◌/◌, ◌%◌, Bool, true, false, not, ◌&&◌, Option, none, some, List, [],
  ◌∷◌, ◌++◌, ltb, leb, ◌==◌, if◌then◌else◌, length,
}
use mathlib.Core.List.{reverse}
use agent_brain.Base.Int.{
  ℤ, pos, negsuc, pos_part, neg_part, ◌+ℤ◌, ◌-ℤ◌, ◌*ℤ◌, eqb_ℤ, ltb_ℤ, leb_ℤ, wrap64,
}
use agent_brain.Base.Bytes.{Bytes, codes}
use agent_brain.Base.Strings.{contains}
use agent_brain.Base.Map.{Map}
use agent_brain.Base.Decimal.{decimal_int}
use agent_brain.Retry.Errors.{Error, message, Result, ok, err}
use agent_brain.Retry.Executor.{Operation}
use agent_brain.Delta.Actions.{
  Action, Protocol, Metadata, Add, Object, LastCheckpoint, log_entry, checkpoint, marker, other,
  protocol_action, metadata_action, add_action,
}
use agent_brain.Delta.Store.{S3Store, ◌>>=◌, ◌>>◌, return, fail, context}
use agent_brain.Delta.Keys.{checkpoint_key, version_of_checkpoint_key}
use agent_brain.Delta.Log.{read_version}
use agent_brain.Delta.Snapshot.{Snapshot, snapshot}
use agent_brain.Delta.Validation.{validate_checkpoint}

-- Durations are nanoseconds.
pub record DeltaCheckpointConfig : Type 0 where
  pub frequency : ℤ
  pub retention_days : ℤ
  pub max_checkpoints : ℤ
  pub validation_enabled : Bool
  pub compaction_enabled : Bool
  pub size_threshold_mb : ℤ
  pub adaptive_mode : Bool
  pub creation_timeout : ℤ

pub record CheckpointManager : Type 0 where
  pub config : DeltaCheckpointConfig
  pub last_checkpoint_key : Bytes
  pub log_prefix : Bytes
  pub checkpoint_count : ℕ
  pub last_checkpoint_time : ℕ

abbrev pub positive_or : ℤ → ℕ → ℤ
positive_or z default = if leb_ℤ z (pos 0) then pos default else z

-- `NewCheckpointManager`
unfoldable pub new_checkpoint_manager : DeltaCheckpointConfig → Bytes → Bytes → CheckpointManager
new_checkpoint_manager config last_checkpoint_key log_prefix = record {
  config = record config {
    frequency = positive_or config.frequency 10;
    retention_days = positive_or config.retention_days 30;
    max_checkpoints = positive_or config.max_checkpoints 50;
    size_threshold_mb = positive_or config.size_threshold_mb 128;
    creation_timeout = positive_or config.creation_timeout 1800000000000;
  };
  last_checkpoint_key = last_checkpoint_key;
  log_prefix = log_prefix;
  checkpoint_count = 0;
  last_checkpoint_time = 0;
}

-- `version % frequency == 0`; the frequency is positive.
abbrev pub is_multiple : ℤ → ℤ → Bool
is_multiple v f = (pos_part v + neg_part v) % (pos_part f + neg_part f) == 0

-- `totalSize / (1024 * 1024)`, truncated towards zero.
to_megabytes : ℤ → ℤ
to_megabytes (pos n) = pos (n / 1048576)
to_megabytes (negsuc n) = pos 0 -ℤ pos (suc n / 1048576)

add_sizes : List Action → ℤ → ℤ
add_sizes [] total = total
add_sizes (a ∷ acts) total =
    add_sizes acts (elim a.add [ none ↦ total | some f ↦ wrap64 (total +ℤ f.size) ])

pub record CheckpointFile : Type 0 where
  pub key : Bytes
  pub version : ℤ

-- The files under the prefix that look like checkpoints. Their time is `time.Now()`, and nothing
-- reads it.
unfoldable pub checkpoint_files : List Bytes → List CheckpointFile
checkpoint_files [] = []
checkpoint_files (k ∷ ks) =
    let rest = checkpoint_files ks in
    if contains k (codes ".checkpoint.json")
    then elim (version_of_checkpoint_key k) [
      | none ↦ rest
      | some v ↦ record { key = k; version = v } ∷ rest
    ]
    else rest

insert_file : CheckpointFile → List CheckpointFile → List CheckpointFile
insert_file f [] = f ∷ []
insert_file f (x ∷ xs) = if leb_ℤ f.version x.version then f ∷ x ∷ xs else x ∷ insert_file f xs

-- `sort.Slice(checkpointFiles, by version)`
unfoldable pub sort_files : List CheckpointFile → List CheckpointFile
unfolding insert_file
sort_files [] = []
sort_files (f ∷ fs) = insert_file f (sort_files fs)

-- The loop of `selectCheckpointsForDeletion`, on the files newest first.
unfoldable pub select_from : ℤ → ℤ → ℕ → List CheckpointFile → List CheckpointFile
select_from max_checkpoints current kept [] = []
select_from max_checkpoints current kept (f ∷ fs) = elim (eqb_ℤ f.version current) [
  | true ↦ select_from max_checkpoints current (suc kept) fs
  | false ↦ elim (ltb_ℤ (pos kept) max_checkpoints) [
    | true ↦ select_from max_checkpoints current (suc kept) fs
    | false ↦ f ∷ select_from max_checkpoints current kept fs
  ]
]

-- `selectCheckpointsForDeletion`. Its parameter `cutoffTime`, which the body does not read, is left
-- out.
unfoldable pub select_checkpoints_for_deletion :
    CheckpointManager → List CheckpointFile → ℤ → List CheckpointFile
unfolding select_from
select_checkpoints_for_deletion m files current =
    if leb (length files) 1
    then []
    else select_from m.config.max_checkpoints current 0 (reverse files)

unfoldable pub file_actions : Map Add → List Action
file_actions [] = []
file_actions ((path, f) ∷ rest) = add_action f ∷ file_actions rest

-- `buildCheckpointActions`
unfoldable pub build_checkpoint_actions : Snapshot → List Action
unfolding file_actions
build_checkpoint_actions snap =
    elim snap.protocol [ none ↦ [] | some p ↦ protocol_action p ∷ [] ]
    ++ (elim snap.metadata [ none ↦ [] | some m ↦ metadata_action m ∷ [] ]
        ++ file_actions snap.files)

-- `json.Unmarshal` into a marker: a log entry with exactly one action is one object with none of the
-- marker's fields; no other text of the log is an object.
unfoldable pub parse_marker : Object → Result LastCheckpoint
parse_marker (marker m) = ok m
parse_marker (log_entry (a ∷ [])) = ok (record { version = pos 0; size = pos 0 })
parse_marker (log_entry acts) = err (message (codes "json: not an object"))
parse_marker (checkpoint acts) = err (message (codes "json: not an object"))
parse_marker (other t) = err (message (codes "json: not an object"))

module _ {W : Type 0} (s : S3Store W) (clock : W → ℕ) where
  -- `GetLastCheckpoint`
  unfoldable pub get_last_checkpoint : CheckpointManager → Operation W LastCheckpoint
  unfolding parse_marker
  get_last_checkpoint m = do text ← s.download m.last_checkpoint_key; λ w. (parse_marker text, w)

  -- The loop of `estimateDataVolume`, with the rounds that are left; a version that cannot be read is
  -- passed over.
  unfoldable pub volume_from : CheckpointManager → ℕ → ℤ → ℤ → W → ℤ × W
  unfolding add_sizes
  volume_from m zero v total w = (total, w)
  volume_from m (suc n) v total w =
      let (r, w') = read_version s m.log_prefix v w in
      volume_from m n (v +ℤ pos 1) (elim r [ ok acts ↦ add_sizes acts total | err e ↦ total ]) w'

  -- `estimateDataVolume`
  unfoldable pub estimate_data_volume : CheckpointManager → ℤ → ℤ → W → ℤ × W
  unfolding volume_from to_megabytes
  estimate_data_volume m from to w =
      let (total, w') = volume_from m (pos_part (to -ℤ from)) (from +ℤ pos 1) (pos 0) w in
      (to_megabytes total, w')

  -- The adaptive branch of `shouldCreateCheckpoint`, once the last checkpoint is known.
  unfoldable pub by_volume : CheckpointManager → ℤ → LastCheckpoint → W → Bool × W
  unfolding estimate_data_volume
  by_volume m version last w =
      let since = wrap64 (version -ℤ last.version) in
      let (volume, w') = estimate_data_volume m last.version version w in
      if leb_ℤ (wrap64 (m.config.frequency *ℤ pos 2)) since
      then (true, w)
      else if leb_ℤ m.config.frequency since
      then (if leb_ℤ m.config.size_threshold_mb volume then true else leb_ℤ (pos 50) since, w')
      else (false, w)

  -- The adaptive mode; without a last checkpoint the static mode is used.
  unfoldable pub adaptive : CheckpointManager → ℤ → Result LastCheckpoint × W → Bool × W
  unfolding by_volume
  adaptive m version (err e, w) = (is_multiple version m.config.frequency, w)
  adaptive m version (ok last, w) = by_volume m version last w

  -- `shouldCreateCheckpoint`; it returns no error.
  unfoldable pub should_create_checkpoint : CheckpointManager → ℤ → W → Bool × W
  unfolding get_last_checkpoint adaptive
  should_create_checkpoint m version w =
      if not m.config.adaptive_mode
      then (is_multiple version m.config.frequency, w)
      else adaptive m version (get_last_checkpoint m w)

  -- `cleanupOldCheckpoints`: the files that it chose. The store has no operation to delete one, and
  -- `deleteCheckpointFile` only logs.
  unfoldable pub cleanup_old_checkpoints : CheckpointManager → ℤ → Operation W (List CheckpointFile)
  cleanup_old_checkpoints m current = do
    keys ← context (codes "list checkpoint files") (s.list m.log_prefix)
    return (select_checkpoints_for_deletion m (sort_files (checkpoint_files keys)) current)

  -- A call whose error is only logged.
  abbrev pub logged : {A : Type 0} → Operation W A → Operation W (Unit {0})
  logged m w = let (r, w') = m w in (ok tt, w')

  -- `CreateCheckpoint`; compaction hands its actions back unchanged.
  unfoldable pub create_checkpoint : CheckpointManager → ℤ → Operation W CheckpointManager
  create_checkpoint m version = do
    snap ←
        context (codes "snapshot for checkpoint at version " ++ decimal_int version)
          (snapshot s m.log_prefix version)
    let acts = build_checkpoint_actions snap
    let key = checkpoint_key m.log_prefix version
    context (codes "write checkpoint file") (s.upload key (checkpoint acts))
    logged (
        if m.config.validation_enabled
        then validate_checkpoint s m.log_prefix key snap
        else return tt)
    context (codes "write last checkpoint marker") (
        s.upload m.last_checkpoint_key
          (marker (record { version = version; size = pos (length acts) })))
    logged (cleanup_old_checkpoints m version)
    λ w. (
      ok (record m { checkpoint_count = suc m.checkpoint_count; last_checkpoint_time = clock w }),
      w,
    )

  -- `MaybeCheckpoint`
  unfoldable pub maybe_checkpoint : CheckpointManager → ℤ → Operation W CheckpointManager
  unfolding should_create_checkpoint create_checkpoint
  maybe_checkpoint m version w =
      let (should, w') = should_create_checkpoint m version w in
      if eqb_ℤ version (pos 0)
      then (ok m, w)
      else if not should
      then (ok m, w')
      else create_checkpoint m version w'
