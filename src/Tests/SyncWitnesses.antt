-- ===== src/Tests/SyncWitnesses.antt =====
-- The theorems on schemas, plans, recovery and consistency at concrete inputs.
use mathlib.Core.Bool.{Bool-set}
use mathlib.Core.List.{Pairwise, Pairwise-singleton, forall_mem-cons, not-mem-nil}
use mathlib.Core.List.Perm
use agent_brain.Base.{
  ℕ, suc, ◌+◌, ◌*◌, ◌≡◌, ◌↔◌, refl, true, false, Option, none, some, List, [], ◌∷◌, ◌++◌, arith,
  if◌then◌else◌, ltb,
}
use agent_brain.Base.Int.{ℤ, pos, negsuc, pos_part, ◌≤ℤ◌, ◌<ℤ◌, ◌-ℤ◌, max_int64}
use agent_brain.Base.Bytes.{Bytes, codes, bytes_eq, bytes_lt}
use agent_brain.Base.Map.{lookup, insert}
use agent_brain.Schema.{
  Field, Schema, HashField, compute_hash, hash_fields, by_name, diff, is_breaking, has_changes,
  field_map, add_fields, missing_from, changed_types, compare_types, overall_change,
}
use agent_brain.Schema.Hash.{HasDistinctNames, insert_field, insertion_sort, compute_hash-perm}
use agent_brain.Tests.Hashing.{by_insertion}
use agent_brain.Schema.Change.{Keeps, Covers, diff_lem}
use agent_brain.Sync.Planner.{
  ObjectMetadata, ObjectState, plan, plan_from, check_schema, changed_plan, incremental_plan,
  start_plan, contains,
}
use agent_brain.Sync.Planner.Choice.{plan-Keeps}
use agent_brain.Sync.Recovery.Breaker.{CircuitBreaker, new_circuit_breaker}
use agent_brain.Sync.Recovery.{
  Site, RecoveryConfig, default_recovery_config, Outcome, done, failed, Failure, plain, extract,
  rounds, recall, refuse, can_retry, execute_with_retry,
}
use agent_brain.Sync.Recovery.Waiting.{patient, execute_with_retry_waits_never}
use agent_brain.Sync.Recovery.Ending.{execute_with_retry_ends}
use agent_brain.Sync.Consistency.{ConsistencyTracker, healthy, sync_gap}
use agent_brain.Sync.Consistency.Checks.{validate_sync, object_results}
use agent_brain.Sync.Consistency.Healthy.{IsConsistent, validate_sync-IsConsistent}
use agent_brain.Sync.Consistency.Gap.{sync_gap_lem, distance}

-- A digest that keeps the names and the types.
abbrev spelled : List HashField → Bytes
spelled [] = []
spelled ((n, t) ∷ fs) = n ++ (t ++ spelled fs)

abbrev id_field : Field
id_field = record { name = codes "Id"; field_type = codes "string"; nullable = false }

abbrev age_field : Field
age_field = record { name = codes "Age"; field_type = codes "long"; nullable = true }

abbrev first_schema : Schema
first_schema = record {
  object_name = codes "Account";
  fields = id_field ∷ [];
  version = pos 1;
  hash = codes "old";
}

abbrev grown_schema : Schema
grown_schema = record {
  object_name = codes "Account";
  fields = id_field ∷ (age_field ∷ []);
  version = pos 2;
  hash = codes "new";
}

id_and_age : HasDistinctNames (id_field ∷ (age_field ∷ []))
unfolding bytes_eq
id_and_age =
    Pairwise.cons ((forall_mem-cons (λ x. Bool-set _ _)).1 (refl, λ x m. absurd (not-mem-nil m)))
      (Pairwise-singleton _ age_field)

compute_hash-perm_example :
    compute_hash (by_insertion spelled) (id_field ∷ (age_field ∷ []))
    ≡ compute_hash (by_insertion spelled) (age_field ∷ (id_field ∷ []))
compute_hash-perm_example =
    compute_hash-perm (by_insertion spelled) (id_field ∷ (age_field ∷ []))
      (age_field ∷ (id_field ∷ [])) id_and_age (Perm.swap age_field id_field [])

diff_lem_example :
    ((is_breaking (diff first_schema grown_schema) ≡ false)
      ↔ Keeps (field_map first_schema) (field_map grown_schema))
    × ((has_changes (diff first_schema grown_schema) ≡ false) ↔ (
        Keeps (field_map first_schema) (field_map grown_schema)
        × Covers (field_map first_schema) (field_map grown_schema)))
diff_lem_example = diff_lem first_schema grown_schema

abbrev account : ObjectMetadata
account = record {
  name = codes "Account";
  watermark_field = codes "LastModifiedDate";
  schema = some grown_schema;
}

abbrev account_state : ObjectState
account_state = record {
  last_sync_time = pos 500;
  watermark_field = codes "LastModifiedDate";
  watermark_value = pos 400;
  schema_hash = codes "old";
  schema_version = pos 1;
  previous_schema = some first_schema;
  delta_version = pos 3;
  total_records = pos 10;
  last_sync_records = pos 2;
  sync_type = codes "full";
}

plan-Keeps_example :
    (old : Schema) × (account_state.previous_schema ≡ some old)
    × Keeps (field_map old) (field_map grown_schema)
unfolding plan contains plan_from check_schema changed_plan incremental_plan start_plan diff
    is_breaking field_map add_fields missing_from changed_types compare_types overall_change lookup
    insert bytes_eq compute_hash hash_fields insertion_sort insert_field by_name bytes_lt
plan-Keeps_example =
    plan-Keeps (by_insertion spelled) account account_state (codes "Account" ∷ []) grown_schema refl
      refl refl refl

-- A world that is its own clock: each reading is a second later. No state was stored.
abbrev ticking : Site ℕ
ticking = record {
  now = λ w. (pos (w * 1000000000), suc w);
  jitter = λ d w. (pos 0, w);
  wait = λ d w. (none, w);
  load = λ source object w. (none, w);
  save = λ state w. (none, w);
  delete = λ source object w. (none, w);
  list = λ source w. (some [], w);
  monotone = λ w. omega arith;
}

abbrev eager : RecoveryConfig
eager = record default_recovery_config { base_delay = pos 0 }

-- An operation that fails until the tenth second.
abbrev late : ℕ → Outcome ℕ × ℕ
late w = (if ltb w 10 then failed (plain (codes "timeout")) else done w, suc w)

abbrev impatient : ℤ → ℕ → Option Failure × ℕ
impatient d w = (some (plain (codes "canceled")), w)

abbrev extract_breaker : CircuitBreaker
extract_breaker = new_circuit_breaker (codes "sync") (pos 5) (pos 120000000000)

execute_with_retry_waits_never_example :
    execute_with_retry
      (patient ticking eager (codes "sf") (codes "Account") extract late impatient)
      eager
      (codes "sf")
      (codes "Account")
      extract
      late
      0
      (extract_breaker, 0)
    ≡ execute_with_retry ticking eager
        (codes "sf")
        (codes "Account")
        extract
        late
        0
        (extract_breaker, 0)
execute_with_retry_waits_never_example =
    execute_with_retry_waits_never ticking eager (codes "sf") (codes "Account") extract late
      impatient 0 (extract_breaker, 0)

execute_with_retry_ends_example :
    let (rs, w') = recall ticking eager (codes "sf") (codes "Account") extract late 0 in
    let (can, w'') = can_retry ticking eager rs w' in
    execute_with_retry ticking eager
      (codes "sf")
      (codes "Account")
      extract
      late
      0
      (extract_breaker, 0)
    ≡ (if can
        then rounds ticking eager
            (codes "sf")
            (codes "Account")
            extract
            late
            (suc (pos_part (pos 3 -ℤ rs.attempts)) + 7)
            rs
            none
            (extract_breaker, w'')
        else refuse ticking eager
            (codes "sf")
            (codes "Account")
            extract
            late
            0
            rs
            (extract_breaker, w''))
unfolding recall default_recovery_config
execute_with_retry_ends_example =
    execute_with_retry_ends ticking eager (codes "sf") (codes "Account") extract late 7 0
      extract_breaker 0 (omega arith, omega arith) (omega arith, omega arith)

abbrev tracker : ConsistencyTracker
tracker = record {
  source = codes "sf";
  relationships = (codes "Account", codes "Contact" ∷ []) ∷ [];
  windows = [];
  max_staleness = pos 86400000000000;
}

validate_sync-IsConsistent_example :
    ((validate_sync tracker
        (λ cut d. [])
        (λ d e k. false)
        (λ o. (pos 7, pos 8))
        (pos 9)
        (plan (by_insertion spelled) account none [] ∷ [])
        ((codes "Account", account_state) ∷ [])).overall_status
      ≡ healthy)
    ↔ IsConsistent tracker
        (λ cut d. [])
        (λ d e k. false)
        (pos 9)
        (object_results tracker
          (λ cut d. [])
          (λ d e k. false)
          (λ o. (pos 7, pos 8))
          ((codes "Account", account_state) ∷ [])
          (plan (by_insertion spelled) account none [] ∷ [])
          [])
validate_sync-IsConsistent_example =
    validate_sync-IsConsistent tracker (λ cut d. []) (λ d e k. false) (λ o. (pos 7, pos 8)) (pos 9)
      (plan (by_insertion spelled) account none [] ∷ []) ((codes "Account", account_state) ∷ [])

sync_gap_lem_example :
    (pos 5 -ℤ pos 9 ≤ℤ pos max_int64
      → negsuc max_int64 <ℤ pos 5 -ℤ pos 9
      → sync_gap (pos 5) (pos 9) ≡ distance (pos 5 -ℤ pos 9))
    × (pos max_int64 <ℤ pos 5 -ℤ pos 9 → sync_gap (pos 5) (pos 9) ≡ pos max_int64)
    × (pos 5 -ℤ pos 9 ≤ℤ negsuc max_int64 → sync_gap (pos 5) (pos 9) ≡ negsuc max_int64)
sync_gap_lem_example = sync_gap_lem (pos 5) (pos 9)
