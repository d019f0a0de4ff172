-- ===== src/Sync/Engine/Synced.antt =====
-- internal/sync/engine.go: a sync of an object that succeeds, from its log to its table.
use agent_brain.Base.{ℕ, Bool, List}
use agent_brain.Base.Int.{ℤ}
use agent_brain.Base.Bytes.{Bytes}
use agent_brain.Base.Map.{Map}
use agent_brain.Retry.Breaker.{CircuitBreaker}
use agent_brain.Retry.Executor.{Runtime}
use agent_brain.Delta.Actions.{Action}
use agent_brain.Delta.Store.{S3Store}
use agent_brain.Delta.Log.Latest.{IsLog}
use agent_brain.Delta.Snapshot.{Snapshot, replay}
use agent_brain.Delta.Snapshot.Replay.{SameTable}
use agent_brain.Delta.Snapshot.History.{history}
use agent_brain.Delta.Table.{Managed}
use agent_brain.Delta.Table.Commit.{Stays}
use agent_brain.Layout.Nameless.{log_directory}
use agent_brain.Schema.{Schema}
use agent_brain.Sync.Planner.{ObjectPlan, ObjectState}
use agent_brain.Sync.Engine.Object.{Host, Progress, no_progress, extract, initialize_table}
use agent_brain.Sync.Engine.Files.{IsQuiet}
use agent_brain.Sync.Engine.Written.{IsWritten, HasWritten}

module _ {R W : Type 0} (s : S3Store W) (host : Host R W) (quiet : IsQuiet s host)
    (unix_milli : W → ℤ) (source : Bytes) (strict : Bool) (plan : ObjectPlan) (clock : W → ℕ)
    (rt : Runtime (CircuitBreaker × Managed W))
    (waits : (d : ℤ) (x : CircuitBreaker × Managed W) → Stays s x (rt.wait d x).1) where
  abbrev dir : Bytes
  dir = log_directory source plan.object_name

  abbrev Gathered : ℕ → (ℕ → List Action) → Map ObjectState → W → Progress → W → Type 0
  Gathered n entries objects w p w' =
      IsLog dir n entries (s.contents w')
      × HasWritten s host unix_milli source strict plan no_progress
          (extract s host unix_milli source strict plan objects w).0.batches p w'

  -- The log shows the table with the actions, each of which adds a file of a batch.
  abbrev pub HasSynced : ℕ → (ℕ → List Action) → List (List R) → W → Type 0
  HasSynced n entries batches w =
      (new : List Action) × IsWritten source plan.object_name (s.contents w) batches new
      × (count : ℕ) × (content : ℕ → List Action) × IsLog dir count content (s.contents w)
      × ((snap : Snapshot)
          → SameTable (replay (history content 0 count) snap)
              (replay new (replay (history entries 0 n) snap)))

  -- The batches that the connector gives the sync.
  abbrev pub extracted : Map ObjectState → W → List (List R)
  extracted objects w =
      (extract s host unix_milli source strict plan objects
        (initialize_table s host unix_milli source strict plan clock rt w).1).0.batches
