-- ===== src/Sync/Planner.antt =====
-- internal/sync/planner.go and state.go: the plan for one object. Times are nanoseconds.
pub mod Choice
use agent_brain.Base.{
  ℕ, Bool, true, false, not, ◌&&◌, Option, none, some, List, [], ◌∷◌, if◌then◌else◌, is_some,
}
use agent_brain.Base.Int.{ℤ, pos, ◌+ℤ◌, eqb_ℤ, wrap64}
use agent_brain.Base.Bytes.{Bytes, codes, bytes_eq}
use agent_brain.Schema.{Hasher, Schema, compute_hash, diff, is_breaking, is_empty}

pub data SyncMode : Type 0 where
  full incremental skip : SyncMode

unfoldable pub mode_text : SyncMode → Bytes
mode_text full = codes "full"
mode_text incremental = codes "incremental"
mode_text skip = codes "skip"

pub record ObjectMetadata : Type 0 where
  pub name : Bytes
  pub watermark_field : Bytes
  pub schema : Option Schema

pub record ObjectState : Type 0 where
  pub last_sync_time : ℤ
  pub watermark_field : Bytes
  pub watermark_value : ℤ
  pub schema_hash : Bytes
  pub schema_version : ℤ
  pub previous_schema : Option Schema
  pub delta_version : ℤ
  pub total_records : ℤ
  pub last_sync_records : ℤ
  pub sync_type : Bytes

pub record ObjectPlan : Type 0 where
  pub object_name : Bytes
  pub mode : SyncMode
  pub reason : Bytes
  pub watermark_field : Bytes
  pub schema : Option Schema
  pub schema_changed : Bool
  pub new_version : ℤ

unfoldable pub contains : List Bytes → Bytes → Bool
contains [] item = false
contains (s ∷ slice) item = if bytes_eq s item then true else contains slice item

unfoldable pub skip_plan : Bytes → ObjectPlan
skip_plan name = record {
  object_name = name;
  mode = skip;
  reason = codes "not in allowed objects list";
  watermark_field = [];
  schema = none;
  schema_changed = false;
  new_version = pos 0;
}

unfoldable pub start_plan : ObjectMetadata → ObjectPlan
start_plan meta = record {
  object_name = meta.name;
  mode = full;
  reason = [];
  watermark_field = meta.watermark_field;
  schema = meta.schema;
  schema_changed = false;
  new_version = pos 0;
}

unfoldable pub first_run : ObjectPlan → ObjectPlan
first_run plan = record plan {
  mode = full;
  reason = codes "no prior sync state";
  new_version = pos 1;
}

-- The end of `Plan`.
unfoldable pub incremental_plan : ObjectState → ObjectPlan → ObjectPlan
incremental_plan state plan = record plan {
  mode = incremental;
  reason = codes "incremental from watermark";
  new_version = if eqb_ℤ plan.new_version (pos 0) then state.schema_version else plan.new_version;
}

-- The branch of a changed hash: a full sync, or on to the end.
unfoldable pub changed_plan : ObjectState → Schema → Option Schema → ObjectPlan → ObjectPlan
unfolding incremental_plan
changed_plan state schema (some previous) plan =
    if is_breaking (diff previous schema)
    then record plan { mode = full; reason = codes "breaking schema change detected" }
    else incremental_plan state plan
changed_plan state schema none plan = record plan {
  mode = full;
  reason = codes "schema changed (no prior schema for diffing)";
}

module _ (hasher : Hasher) where
  -- The check of the schema.
  unfoldable pub check_schema : ObjectState → Option Schema → ObjectPlan → ObjectPlan
  unfolding changed_plan incremental_plan
  check_schema state none plan = incremental_plan state plan
  check_schema state (some schema) plan =
      let changed = changed_plan state schema state.previous_schema (record plan {
        schema_changed = true;
        new_version = wrap64 (state.schema_version +ℤ pos 1);
      }) in
      if not (bytes_eq state.schema_hash [])
        && not (bytes_eq (compute_hash hasher schema.fields) state.schema_hash)
      then changed
      else incremental_plan state plan

  unfoldable pub plan_from : Option ObjectState → Option Schema → ObjectPlan → ObjectPlan
  unfolding first_run check_schema
  plan_from none schema plan = first_run plan
  plan_from (some state) schema plan = check_schema state schema plan

  -- `Plan`
  unfoldable pub plan : ObjectMetadata → Option ObjectState → List Bytes → ObjectPlan
  unfolding contains skip_plan start_plan plan_from
  plan meta state allowed =
      if not (is_empty allowed) && not (contains allowed meta.name)
      then skip_plan meta.name
      else plan_from state meta.schema (start_plan meta)
