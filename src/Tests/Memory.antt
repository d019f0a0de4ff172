-- ===== src/Tests/Memory.antt =====
-- A store that is a map in memory and never fails.
use mathlib.Core.Path.{fun_ext, subst}
use agent_brain.Base.{
  ℕ, ◌≡◌, refl, sym, ap, inl, true, false, Option, none, some, List, [], ◌∷◌, arith, In, is_some,
  if◌then◌else◌,
}
use agent_brain.Base.Bytes.{Bytes, codes, bytes_eq, bytes_eq_iff}
use agent_brain.Base.Map.{Map, lookup, insert, lookup-insert}
use agent_brain.Base.Strings.{has_prefix}
use agent_brain.Retry.Errors.{message, Result, ok, err}
use agent_brain.Base.{◌*◌, ◌/◌, ◌^◌}
use agent_brain.Base.Int.{ℤ, pos}
use agent_brain.Retry.Policy.{Floats}
use agent_brain.Retry.Executor.{Runtime}
use agent_brain.Delta.Actions.{Object, Action, add_action, log_entry}
use agent_brain.Delta.Keys.Names.{directory}
use agent_brain.Delta.Keys.{version_key}
use agent_brain.Delta.Log.Latest.{IsLog, append_entry, write-IsLog}
use agent_brain.Delta.Checkpoint.{CheckpointManager, new_checkpoint_manager}
use agent_brain.Delta.Table.{DeltaTable}
use agent_brain.Delta.Store.{S3Store}

abbrev pub Bucket : Type 0
Bucket = Map Object

unfoldable pub fetch : Bytes → Option Object → Result Object
fetch k none = err (message (codes "object not found"))
fetch k (some o) = ok o

unfoldable pub keys_under : Bytes → Bucket → List Bytes
keys_under p [] = []
keys_under p ((k, o) ∷ b) = if has_prefix k p then k ∷ keys_under p b else keys_under p b

pub fetch-reads : (k : Bytes) (r : Option Object) (o : Object) → fetch k r ≡ ok o → r ≡ some o
unfolding fetch
fetch-reads k none o e = cc
fetch-reads k (some x) o e = cc

pub keys_under_complete :
    (p : Bytes) (b : Bucket) (k : Bytes)
    → has_prefix k p ≡ true
    → is_some (lookup k b) ≡ true
    → In k (keys_under p b)
unfolding keys_under lookup
keys_under_complete p [] k h there = cc
keys_under_complete p ((j, o) ∷ b) k h there =
    ground (arith, bytes_eq_iff j k, keys_under_complete p b k h)

pub keys_under_sound :
    (p : Bytes) (b : Bucket) (k : Bytes)
    → In k (keys_under p b)
    → (has_prefix k p ≡ true) × (is_some (lookup k b) ≡ true)
unfolding keys_under lookup
keys_under_sound p [] k h = absurd h
keys_under_sound p ((j, o) ∷ b) k h = ground (arith, bytes_eq_iff j k, keys_under_sound p b k)

pub ok_inj : {A : Type 0} {x y : A} → ok x ≡ ok y → x ≡ y
ok_inj e = cc

unfoldable pub memory : S3Store Bucket
unfolding fetch keys_under
memory = record {
  upload = λ k o b. (ok tt, insert k o b);
  download = λ k b. (fetch k (lookup k b), b);
  list = λ p b. (ok (keys_under p b), b);
  exists = λ k b. (ok (is_some (lookup k b)), b);
  contents = λ b k. lookup k b;
  upload_writes = λ k o b. inl (fun_ext (λ j. lookup-insert k j o b));
  download_reads = λ k b o e. fetch-reads k (lookup k b) o e;
  download_keeps = λ k b. refl;
  list_complete = λ p b ks k e h there. subst (In k) (ok_inj e) (keys_under_complete p b k h there);
  list_sound = λ p b ks k e h. keys_under_sound p b k (subst (In k) (sym (ok_inj e)) h);
  list_keeps = λ p b. refl;
  exists_keeps = λ k b. refl;
}

-- Whole numbers for the floating point, with the largest jitter there is.
scaled : ℕ → ℕ → ℤ → ℤ → ℤ
scaled a b (pos k) (pos d) = pos (d * a ^ k / b)
scaled a b k d = d

tenth : ℕ → ℤ → ℤ
tenth r (pos d) = pos (d / 10)
tenth r d = d

pub div_one : (x : ℕ) → x / 1 ≡ x
div_one x = omega arith

abbrev pub whole : Floats
unfolding scaled tenth
whole = record {
  pow_scaled = scaled;
  jitter = tenth;
  doubles = λ k d small fits. ap pos (div_one (d * 2 ^ k));
  jitter_small = λ r d small. (d / 10, refl, omega arith);
}

-- A runtime that never cancels, over any state.
abbrev pub calm : {W : Type 0} → Runtime W
calm = record { floats = whole; clock = λ w. 1000; draw = λ w. 0; wait = λ d w. (none, w) }

abbrev pub table : DeltaTable
table = record {
  log_prefix = directory (codes "t/_delta_log");
  source = codes "s";
  object = codes "o";
}

-- A manager that writes a checkpoint at every version but the first.
unfoldable pub eager : CheckpointManager
unfolding new_checkpoint_manager
eager =
    new_checkpoint_manager
      (record {
        frequency = pos 1;
        retention_days = pos 1;
        max_checkpoints = pos 1;
        validation_enabled = true;
        compaction_enabled = false;
        size_threshold_mb = pos 1;
        adaptive_mode = false;
        creation_timeout = pos 1;
      })
      (codes "t/_delta_log/_last_checkpoint") (directory (codes "t/_delta_log"))

abbrev pub one_file : Action
one_file = add_action (record {
  path = codes "a";
  partition_values = [];
  size = pos 7;
  modification_time = pos 1;
  data_change = true;
  stats = [];
  tags = [];
})

abbrev pub one_version : Bucket
unfolding version_key
one_version =
    (version_key (directory (codes "t/_delta_log")) (pos 0), log_entry (one_file ∷ [])) ∷ []

abbrev pub no_entry : ℕ → List Action
no_entry v = []

pub empty-IsLog : IsLog (codes "t/_delta_log") 0 no_entry (λ k. none)
empty-IsLog = record {
  sized = omega arith;
  held = λ v below. absurd (omega arith);
  alone = λ k v inside named there. cc;
}

abbrev pub one_entry : ℕ → List Action
one_entry = append_entry 0 (one_file ∷ []) no_entry

pub one_version-IsLog : IsLog (codes "t/_delta_log") 1 one_entry (memory.contents one_version)
unfolding memory lookup one_version bytes_eq
one_version-IsLog =
    write-IsLog (codes "t/_delta_log") 0 no_entry (one_file ∷ []) (λ k. none) (omega arith)
      empty-IsLog
