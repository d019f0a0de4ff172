-- ===== src/Tests.antt =====
-- Runs of the model and concrete inputs for the theorems.
mod Memory
mod Runs
mod Witnesses
mod RetryWitnesses
mod SyncWitnesses
mod MigrationWitnesses
mod ServiceWitnesses
mod Hashing
mod EngineRuns
mod EngineWitnesses
mod ConfigWitnesses
