-- ===== src/Delta/Snapshot.antt =====
-- internal/storage/delta/table.go: replaying the log.
pub mod Replay
pub mod History
use agent_brain.Base.{
  ℕ, zero, suc, ◌+◌, ◌≡◌, Bool, true, false, Option, none, some, List, [], ◌∷◌, ◌++◌, if◌then◌else◌,
  map,
}
use agent_brain.Base.Int.{ℤ, pos, negsuc, ◌+ℤ◌, eqb_ℤ, ltb_ℤ, leb_ℤ}
use agent_brain.Base.Bytes.{Bytes, codes}
use agent_brain.Base.Map.{Map, insert, erase}
use agent_brain.Base.Decimal.{decimal_int}
use agent_brain.Retry.Errors.{Error, message, Result, ok, err}
use agent_brain.Retry.Executor.{Operation}
use agent_brain.Delta.Actions.{Action, Protocol, Metadata, Add, Remove, CommitInfo}
use agent_brain.Delta.Store.{S3Store, ◌>>=◌, ◌>>◌, return, fail, context}
use agent_brain.Delta.Log.{read_version, latest_version}

pub record Snapshot : Type 0 where
  pub version : ℤ
  pub protocol : Option Protocol
  pub metadata : Option Metadata
  pub files : Map Add

abbrev pub empty_snapshot : ℤ → Snapshot
empty_snapshot version = record { version = version; protocol = none; metadata = none; files = [] }

-- The `switch` of the replay loop, on the fields in its order.
apply_fields : Option Protocol → Option Metadata → Option Add → Option Remove → Snapshot → Snapshot
apply_fields (some p) m a r snap = record snap { protocol = some p }
apply_fields none (some m) a r snap = record snap { metadata = some m }
apply_fields none none (some a) r snap = record snap { files = insert a.path a snap.files }
apply_fields none none none (some r) snap = record snap { files = erase r.path snap.files }
apply_fields none none none none snap = snap

unfoldable pub apply_action : Action → Snapshot → Snapshot
unfolding apply_fields
apply_action a snap = apply_fields a.protocol a.meta_data a.add a.remove snap

unfoldable pub replay : List Action → Snapshot → Snapshot
replay [] snap = snap
replay (a ∷ acts) snap = replay acts (apply_action a snap)

module _ {W : Type 0} (s : S3Store W) (log_prefix : Bytes) where
  -- `for v := ...; v <= version; v++`, with the rounds that are left.
  unfoldable pub replay_versions : ℕ → ℕ → Snapshot → Operation W Snapshot
  replay_versions zero v snap = return snap
  replay_versions (suc n) v snap = do
    actions ←
        context (codes "read version " ++ decimal_int (pos v)) (read_version s log_prefix (pos v))
    replay_versions n (suc v) (replay actions snap)

  -- The rounds of the loop from 0 to `version`.
  abbrev pub rounds_to : ℤ → ℕ
  rounds_to (pos n) = suc n
  rounds_to (negsuc n) = 0

  unfoldable pub snapshot_at : ℤ → Operation W Snapshot
  unfolding replay_versions
  snapshot_at version = replay_versions (rounds_to version) 0 (empty_snapshot version)

  unfoldable pub latest_snapshot : Operation W Snapshot
  unfolding snapshot_at
  latest_snapshot = do
    latest ← latest_version s log_prefix
    if ltb_ℤ latest (pos 0)
        then fail (message (codes "table has no versions"))
        else snapshot_at latest

  unfoldable pub snapshot : ℤ → Operation W Snapshot
  unfolding snapshot_at latest_snapshot
  snapshot version = if eqb_ℤ version (negsuc 0) then latest_snapshot else snapshot_at version

  -- The paths, in the order in which the map is visited.
  unfoldable pub active_files : Operation W (List Bytes)
  active_files = do snap ← snapshot (negsuc 0); return (map (λ entry. entry.0) snap.files)
