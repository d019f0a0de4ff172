-- ===== src/Lib.antt =====
-- AgentBrain's syncs, from the configuration to the tables: their engine, planning, recovery and
-- checks, the table storage below them, and the retries around it.
--
-- AgentBrain copies the objects of external systems into tables on an object store. A table is a
-- log of JSON files, one for each version, in the manner of Delta Lake: a commit finds the latest
-- version and writes the next one, a snapshot replays the log, and a checkpoint holds the replay
-- of a prefix of it. Every commit runs under a retry policy and a circuit breaker.
--
-- Base: numbers, bytes, maps and decimal text. An int64 is an integer with its wrap-around written
-- out (`wrap64`), a string is its bytes, a Go map is an association list in the order of its
-- `range`.
--
-- Retry (internal/retry): `Retry.Errors` has the error values and the functions of policy.go that
-- tell which are worth a retry, `Retry.Contains` their substring search, `Retry.Policy` the
-- policies and their delays. `Retry.Breaker` is circuit_breaker.go: each locked section of the
-- code is one function on the breaker, and `Retry.Breaker.Sections` runs the sections of any
-- number of callers in any order. `Retry.Registry` is the registry of breakers: names lead to
-- addresses in a heap, through which callers share a breaker. `Retry.Executor` is executor.go:
-- `Execute` and, in `Retry.Executor.Stats`, its copy `ExecuteWithStats`. The loop is recursion on
-- the attempts that are left, which is the loop's own bound, so no fuel is added. An operation
-- takes the state of the rest of the program to its result and the state after; the clock, the
-- timer beside the context, the random source and floating point are parameters.
-- `Retry.Executor.Rule` is the rule by which a client reasons about the loop.
--
-- Delta (internal/storage/delta): `Delta.Actions` is actions.go. `Delta.Store` is the interface
-- `S3Store` of log.go: the bucket's contents are seen only through its operations, each of which
-- may fail at any time, and a failed upload may or may not have been carried out. A file's JSON is
-- the value that it encodes. `Delta.Keys` has the names of the files, `Delta.Log` the
-- `TransactionLog` of log.go, `Delta.Snapshot` and `Delta.Table` are table.go, `Delta.Validation`
-- is validation.go and `Delta.Checkpoint` is checkpoint_manager.go; `Delta.Checkpoint.Legacy` is
-- checkpoint.go, the manager that the sync engine uses. The loops over versions are
-- recursion on the number of versions left. `Delta.Store.Rules` and `Delta.Store.Keeping` are the
-- rules for chains of calls: what holds after a success and after an error, and what a chain keeps
-- in either case.
--
-- Layout (internal/storage/layout.go): the names of all files on the store; the logs of Delta lie
-- under its log prefixes.
--
-- Connector (internal/connector/registry.go): factories of connectors by type and those of
-- plugins, with validation and schemas. Factories and plugins are calls that act on the world.
--
-- Monitoring (internal/monitoring): `Monitoring.Alerts` is alerting.go, the cooldown between
-- alerts of a rule and the notification of channels, which are calls that may fail.
--
-- Schema (internal/schema): `Schema` is schema.go and evolution.go, the schemas of objects, their
-- hash and what changed between two of them. `sort.Slice` is a parameter, and so is the digest,
-- which is JSON and SHA-256.
--
-- Sync (internal/sync): `Sync.Planner` is planner.go, which decides from the metadata and the
-- state of an object whether it is synced in full, incrementally or not at all, with the schemas
-- above. `Sync.Recovery` is recovery.go and errors.go: attempts that are remembered in a store of
-- recovery states, behind the breaker of that file in `Sync.Recovery.Breaker`, which is not the
-- one of Retry. Its loop is recursion on one more than the attempts that are left: each round that
-- goes on counts one attempt, and at the limit `CanRetry` ends the loop. `Sync.Consistency` is
-- consistency.go, the checks after a run on the plans and the states of its objects. `Sync.State`
-- is state.go, the state of a source and its store. `Sync.Engine` is engine.go: in
-- `Sync.Engine.Object` the sync of one object, with `WriteRecords` of internal/storage/parquet.go,
-- and in `Sync.Engine.Run` the whole cycle. The channel of batches is the list of what it delivers;
-- the objects are synced one after another, in the order in which they get to run. The connector,
-- the Parquet library, the validator, JSON, unique ids and the clock are parameters.
--
-- Config (internal/config/config.go): `Config.Sections`, `Config.Retry`, `Config.Security` and
-- `Config.Observing` are the sections with their defaults, `Config.Env` is the expansion of
-- environment variables, whose rounds are bounded by the length of the text, and `Config.Load` puts
-- them together. `Retry.Settings` is internal/retry/config.go, with what the engine and the S3
-- client (internal/storage/s3.go) make of the policies in the configuration.
--
-- Migration (internal/migration): `Migration` is engine.go, migrations by version and the paths
-- through them; the loops over versions have as many turns as there are versions between the two
-- ends, and one to see the end. `Migration.Data` is schema.go and `MigrateData`: stored text, its
-- version, the backup and the registry of schemas. A migration takes data and the world to its
-- result.
--
-- The proofs are in the modules below the code they are about. A retry is a commit's `Execute`
-- over the state of breaker, checkpoint manager and store; `Delta.Table.Commit` follows it through
-- the rule, `Delta.Table.Attempts` counts the attempts that are made, `Delta.Table.Effect` says
-- what a reader of the log sees, and `Delta.Table.Success` when a commit succeeds.
-- `Sync.Engine.Files` says which properties of the bucket the files of a sync keep,
-- `Sync.Engine.Written` what the loop over the batches writes, `Sync.Engine.Effect` and
-- `Sync.Engine.Synced` what a sync leaves of the log, and `Sync.Engine.Finished` what the end of a
-- run says. `Config.Stable` and `Config.Ready` are about the defaults.
--
-- Not modelled: setters that only store a value, logging, metrics, tracing and reports of
-- validation; batches and deadlines of the executor; the timeout of a checkpoint's creation; the
-- Parquet types of a schema; the store of recovery states; two syncs that run at the same time; a
-- source of the configuration that is null; and the packages beside these. The commit without
-- retry policy or breaker is the function `commit_op` that is retried. Two writers that interleave
-- their commits are not considered.
pub mod Base
pub mod Retry
pub mod Delta
pub mod Layout
pub mod Migration
pub mod Schema
pub mod Config
pub mod Connector
pub mod Monitoring
pub mod Sync
pub mod Tests
