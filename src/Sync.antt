-- ===== src/Sync.antt =====
-- internal/sync: what is synced and how, the recovery of failed syncs, and the checks after a run.
pub mod Planner
pub mod State
pub mod Engine
pub mod Recovery
pub mod Consistency
