-- ===== src/Sync/State.antt =====
-- internal/sync/state.go: the state of a source between two runs, and the store that keeps it. The JSON
-- text of a state and of a schema is a parameter.
use agent_brain.Base.{Option, none, some, [], List, ◌++◌}
use agent_brain.Base.Int.{ℤ, pos}
use agent_brain.Base.Bytes.{Bytes, codes}
use agent_brain.Base.Map.{Map}
use agent_brain.Base.Decimal.{decimal_int}
use agent_brain.Retry.Errors.{Result, ok, err}
use agent_brain.Retry.Executor.{Operation}
use agent_brain.Delta.Actions.{Object, other}
use agent_brain.Delta.Store.{S3Store, context}
use agent_brain.Schema.{Schema}
use agent_brain.Sync.Planner.{ObjectState}
use agent_brain.Sync.Consistency.{ConsistencyViolation}
use agent_brain.Layout

pub record SyncState : Type 0 where
  pub source : Bytes
  pub objects : Map ObjectState
  pub last_run_at : ℤ
  pub run_count : ℤ
  pub last_consistency_check : ℤ
  pub consistency_violations : List ConsistencyViolation

-- A state that the source has before its first run; the zero time is the number 0.
unfoldable pub new_state : Bytes → SyncState
new_state source = record {
  source = source;
  objects = [];
  last_run_at = pos 0;
  run_count = pos 0;
  last_consistency_check = pos 0;
  consistency_violations = [];
}

-- `json.Marshal` and `json.Unmarshal` of what the store keeps; the second is none on an error.
pub record Json : Type 0 where
  pub state_text : SyncState → Bytes
  pub read_state : Object → Option SyncState
  pub schema_text : Schema → Bytes

module _ {W : Type 0} (s : S3Store W) (json : Json) where
  -- `Load`, which never fails: whatever `GetJSON` reports, the state is a new one.
  or_new : Bytes → Option SyncState → SyncState
  or_new source none = new_state source
  or_new source (some state) = state

  loaded : Bytes → Result Object → SyncState
  unfolding or_new
  loaded source (ok text) = or_new source (json.read_state text)
  loaded source (err e) = new_state source

  unfoldable pub load : Bytes → W → SyncState × W
  unfolding loaded
  load source w =
      let (text, w') = s.download (Layout.sync_state source) w in (loaded source text, w')

  -- `Save`
  unfoldable pub save : SyncState → Operation W (Unit {0})
  save state =
      context (codes "save sync state for " ++ state.source)
        (s.upload (Layout.sync_state state.source) (other (json.state_text state)))

  -- `SaveSchemaVersion`
  unfoldable pub save_schema_version : Bytes → Bytes → ℤ → Schema → Operation W (Unit {0})
  save_schema_version source object version schema =
      context
        (codes "save schema v"
          ++ (decimal_int version ++ (codes " for " ++ (source ++ (codes "/" ++ object)))))
        (s.upload (Layout.schema_version source object version) (other (json.schema_text schema)))
