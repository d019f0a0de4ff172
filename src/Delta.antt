-- ===== src/Delta.antt =====
-- internal/storage/delta: a table as a log of numbered files in an object store.
pub mod Actions
pub mod Store
pub mod Keys
pub mod Log
pub mod Snapshot
pub mod Validation
pub mod Checkpoint
pub mod Table
