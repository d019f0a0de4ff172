-- ===== src/Config/Stable/Sections.antt =====
-- internal/config/config.go: the defaults of the agent, its sources, backups, profiling, plugins and
-- migrations, set twice.
use agent_brain.Base.{◌≡◌, refl, Bool, true, false, not, ◌&&◌, [], ◌∷◌, if◌then◌else◌}
use agent_brain.Base.Int.{pos}
use agent_brain.Base.Bytes.{codes}
use agent_brain.Config.Values.{
  minute, second, millionths, nonempty_or, positive_or_twice, nonzero_or_twice, nonempty_or_twice,
  map_option_twice,
}
use agent_brain.Config.Sections.{
  AgentConfig, SourceConfig, CheckpointConfig, ErrorHandlingConfig, BackupConfig, ProfilerConfig,
  PluginConfig, PluginSecurityConfig, MigrationConfig, set_agent_defaults, set_checkpoint_defaults,
  set_error_handling_defaults, set_source_defaults, set_backup_defaults, set_profiler_defaults,
  set_plugin_security_defaults, set_plugin_defaults, set_migration_defaults,
}

pub set_agent_defaults_twice :
    (a : AgentConfig) → set_agent_defaults (set_agent_defaults a) ≡ set_agent_defaults a
unfolding set_agent_defaults
set_agent_defaults_twice a =
    rw
      (
        nonempty_or_twice (codes "info") a.log_level,
        nonempty_or_twice (codes "json") a.log_format,
        nonempty_or_twice (codes ":8080") a.health_addr,
        nonempty_or_twice (codes "@every 1h") a.schedule,
        nonzero_or_twice (minute 30) a.timeout,
      )
      refl

pub set_checkpoint_defaults_twice :
    (c : CheckpointConfig)
    → set_checkpoint_defaults (set_checkpoint_defaults c) ≡ set_checkpoint_defaults c
unfolding set_checkpoint_defaults
set_checkpoint_defaults_twice c =
    rw
      (
        positive_or_twice (pos 10) c.frequency,
        positive_or_twice (pos 30) c.retention_days,
        positive_or_twice (pos 50) c.max_checkpoints,
        positive_or_twice (pos 128) c.size_threshold_mb,
      )
      refl

pub set_error_handling_defaults_twice :
    (e : ErrorHandlingConfig)
    → set_error_handling_defaults (set_error_handling_defaults e) ≡ set_error_handling_defaults e
unfolding set_error_handling_defaults
set_error_handling_defaults_twice e =
    rw
      (
        positive_or_twice (pos 3) e.max_retries,
        positive_or_twice (second 1) e.base_delay,
        positive_or_twice (second 60) e.max_delay,
        positive_or_twice (pos 5) e.circuit_breaker_threshold,
        positive_or_twice (minute 2) e.circuit_breaker_timeout,
      )
      refl

pub set_source_defaults_twice :
    (src : SourceConfig) → set_source_defaults (set_source_defaults src) ≡ set_source_defaults src
unfolding set_source_defaults
set_source_defaults_twice src =
    rw
      (
        positive_or_twice (pos 4) src.concurrency,
        positive_or_twice (pos 10000) src.batch_size,
        map_option_twice set_checkpoint_defaults src.checkpoint set_checkpoint_defaults_twice,
        map_option_twice set_error_handling_defaults src.error_handling
            set_error_handling_defaults_twice,
      )
      refl

pub set_backup_defaults_twice :
    (b : BackupConfig) → set_backup_defaults (set_backup_defaults b) ≡ set_backup_defaults b
unfolding set_backup_defaults
set_backup_defaults_twice b =
    rw
      (
        nonempty_or_twice (codes "@daily") b.schedule,
        positive_or_twice (pos 30) b.retention_days,
        nonempty_or_twice (codes "checksum") b.validation_mode,
        positive_or_twice (pos 4) b.concurrent_uploads,
        positive_or_twice (pos 64) b.chunk_size_mb,
      )
      refl

pub set_profiler_defaults_twice :
    (p : ProfilerConfig) → set_profiler_defaults (set_profiler_defaults p) ≡ set_profiler_defaults p
unfolding set_profiler_defaults
set_profiler_defaults_twice p =
    rw
      (
        positive_or_twice (millionths 100000) p.sample_rate,
        nonempty_or_twice (codes "./profiles") p.output_dir,
        positive_or_twice (second 30) p.cpu_profile_duration,
        positive_or_twice (minute 5) p.memory_profile_interval,
        positive_or_twice (pos 1000) p.goroutine_threshold,
      )
      refl

pub set_plugin_security_defaults_twice :
    (p : PluginSecurityConfig)
    → set_plugin_security_defaults (set_plugin_security_defaults p) ≡ set_plugin_security_defaults p
unfolding set_plugin_security_defaults
set_plugin_security_defaults_twice p =
    rw
      (
        positive_or_twice (pos 512) p.max_memory_mb,
        positive_or_twice (millionths 25000000) p.max_cpu_percent,
      )
      refl

pub set_plugin_defaults_twice :
    (p : PluginConfig) → set_plugin_defaults (set_plugin_defaults p) ≡ set_plugin_defaults p
unfolding set_plugin_defaults
set_plugin_defaults_twice p =
    let directory = nonempty_or (codes "/etc/agentbrain/plugins") p.directory in
    rw
      (
        nonempty_or_twice (codes "/etc/agentbrain/plugins") p.directory,
        nonempty_or_twice (directory ∷ []) p.watch_paths,
        map_option_twice set_plugin_security_defaults p.security set_plugin_security_defaults_twice,
      )
      refl

-- A flag that is forced when another is set.
pub forced_twice :
    (e b : Bool)
    → (if e && not (if e && not b then true else b) then true else (if e && not b then true else b))
      ≡ (if e && not b then true else b)
forced_twice true true = refl
forced_twice true false = refl
forced_twice false b = refl

pub set_migration_defaults_twice :
    (m : MigrationConfig)
    → set_migration_defaults (set_migration_defaults m) ≡ set_migration_defaults m
unfolding set_migration_defaults
set_migration_defaults_twice m =
    rw
      (
        nonempty_or_twice (codes "strict") m.validation_mode,
        positive_or_twice (minute 5) m.max_migration_time,
        forced_twice m.enabled m.auto_migrate,
        forced_twice m.enabled m.backup_before_migrate,
      )
      refl
