-- ===== src/Sync/Engine.antt =====
-- internal/sync/engine.go: the engine that syncs the objects of one source.
pub mod Object
pub mod Files
pub mod Written
pub mod Effect
pub mod Synced
pub mod Validated
pub mod Run
pub mod Finished
