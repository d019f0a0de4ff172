-- ===== src/Config/Sections.antt =====
-- internal/config/config.go: the sections on sources, checkpoints, error handling, backups, profiling,
-- plugins and migrations, and their defaults. A nil map is an empty one.
use agent_brain.Base.{Bool, true, not, ◌&&◌, Option, List, [], ◌∷◌, if◌then◌else◌}
use agent_brain.Base.Int.{ℤ, pos}
use agent_brain.Base.Bytes.{Bytes, codes}
use agent_brain.Base.Map.{Map}
use agent_brain.Config.Values.{
  Float, millionths, second, minute, positive_or, nonzero_or, nonempty_or, map_option,
}

pub record AgentConfig : Type 0 where
  pub log_level : Bytes
  pub log_format : Bytes
  pub health_addr : Bytes
  pub schedule : Bytes
  pub timeout : ℤ

pub record StorageConfig : Type 0 where
  pub bucket : Bytes
  pub region : Bytes
  pub endpoint : Bytes
  pub prefix : Bytes

pub record CheckpointConfig : Type 0 where
  pub frequency : ℤ
  pub retention_days : ℤ
  pub max_checkpoints : ℤ
  pub validation_enabled : Bool
  pub compaction_enabled : Bool
  pub size_threshold_mb : ℤ
  pub adaptive_mode : Bool

pub record ErrorHandlingConfig : Type 0 where
  pub max_retries : ℤ
  pub base_delay : ℤ
  pub max_delay : ℤ
  pub circuit_breaker_threshold : ℤ
  pub circuit_breaker_timeout : ℤ
  pub partial_recovery : Bool
  pub skip_failed_objects : Bool

pub record ConsistencySection : Type 0 where
  pub enabled : Bool
  pub relationships : Map (List Bytes)
  pub windows : Map Bytes
  pub max_staleness : Bytes
  pub required_objects : List Bytes
  pub fail_on_violation : Bool

pub record CustomRule : Type 0 where
  pub field : Bytes
  pub type : Bytes
  pub min : Option Float
  pub max : Option Float
  pub pattern : Bytes
  pub values : List Bytes
  pub required : Bool

pub record ValidationConfig : Type 0 where
  pub enabled : Bool
  pub error_threshold : Float
  pub drift_threshold : Float
  pub strict_mode : Bool
  pub custom_rules : Map (List CustomRule)

pub record SourceConfig : Type 0 where
  pub type : Bytes
  pub enabled : Bool
  pub schedule : Bytes
  pub concurrency : ℤ
  pub batch_size : ℤ
  pub objects : List Bytes
  pub auth : Map Bytes
  pub options : Map Bytes
  pub checkpoint : Option CheckpointConfig
  pub consistency : Option ConsistencySection
  pub validation : Option ValidationConfig
  pub error_handling : Option ErrorHandlingConfig

pub record BackupConfig : Type 0 where
  pub enabled : Bool
  pub destination_bucket : Bytes
  pub destination_region : Bytes
  pub schedule : Bytes
  pub retention_days : ℤ
  pub cross_region : Bool
  pub encryption_key : Bytes
  pub validation_mode : Bytes
  pub concurrent_uploads : ℤ
  pub chunk_size_mb : ℤ

pub record ProfilerConfig : Type 0 where
  pub enabled : Bool
  pub sample_rate : Float
  pub output_dir : Bytes
  pub cpu_profile_duration : ℤ
  pub memory_profile_interval : ℤ
  pub goroutine_threshold : ℤ

pub record PluginSecurityConfig : Type 0 where
  pub max_memory_mb : ℤ
  pub max_cpu_percent : Float
  pub network_allowed : Bool
  pub allowed_hosts : List Bytes
  pub allowed_env_vars : Map Bytes
  pub sandbox_enabled : Bool

pub record PluginConfig : Type 0 where
  pub enabled : Bool
  pub directory : Bytes
  pub auto_reload : Bool
  pub watch_paths : List Bytes
  pub security : Option PluginSecurityConfig

pub record MigrationConfig : Type 0 where
  pub enabled : Bool
  pub auto_migrate : Bool
  pub backup_before_migrate : Bool
  pub validation_mode : Bytes
  pub max_migration_time : ℤ

unfoldable pub set_agent_defaults : AgentConfig → AgentConfig
set_agent_defaults a = record {
  log_level = nonempty_or (codes "info") a.log_level;
  log_format = nonempty_or (codes "json") a.log_format;
  health_addr = nonempty_or (codes ":8080") a.health_addr;
  schedule = nonempty_or (codes "@every 1h") a.schedule;
  timeout = nonzero_or (minute 30) a.timeout;
}

unfoldable pub set_checkpoint_defaults : CheckpointConfig → CheckpointConfig
set_checkpoint_defaults cp = record cp {
  frequency = positive_or (pos 10) cp.frequency;
  retention_days = positive_or (pos 30) cp.retention_days;
  max_checkpoints = positive_or (pos 50) cp.max_checkpoints;
  size_threshold_mb = positive_or (pos 128) cp.size_threshold_mb;
}

unfoldable pub set_error_handling_defaults : ErrorHandlingConfig → ErrorHandlingConfig
set_error_handling_defaults eh = record eh {
  max_retries = positive_or (pos 3) eh.max_retries;
  base_delay = positive_or (second 1) eh.base_delay;
  max_delay = positive_or (second 60) eh.max_delay;
  circuit_breaker_threshold = positive_or (pos 5) eh.circuit_breaker_threshold;
  circuit_breaker_timeout = positive_or (minute 2) eh.circuit_breaker_timeout;
}

-- The body of the loop over the sources.
unfoldable pub set_source_defaults : SourceConfig → SourceConfig
unfolding set_checkpoint_defaults set_error_handling_defaults
set_source_defaults src = record src {
  concurrency = positive_or (pos 4) src.concurrency;
  batch_size = positive_or (pos 10000) src.batch_size;
  checkpoint = map_option set_checkpoint_defaults src.checkpoint;
  error_handling = map_option set_error_handling_defaults src.error_handling;
}

unfoldable pub set_backup_defaults : BackupConfig → BackupConfig
set_backup_defaults bp = record bp {
  schedule = nonempty_or (codes "@daily") bp.schedule;
  retention_days = positive_or (pos 30) bp.retention_days;
  validation_mode = nonempty_or (codes "checksum") bp.validation_mode;
  concurrent_uploads = positive_or (pos 4) bp.concurrent_uploads;
  chunk_size_mb = positive_or (pos 64) bp.chunk_size_mb;
}

unfoldable pub set_profiler_defaults : ProfilerConfig → ProfilerConfig
set_profiler_defaults pf = record pf {
  sample_rate = positive_or (millionths 100000) pf.sample_rate;
  output_dir = nonempty_or (codes "./profiles") pf.output_dir;
  cpu_profile_duration = positive_or (second 30) pf.cpu_profile_duration;
  memory_profile_interval = positive_or (minute 5) pf.memory_profile_interval;
  goroutine_threshold = positive_or (pos 1000) pf.goroutine_threshold;
}

unfoldable pub set_plugin_security_defaults : PluginSecurityConfig → PluginSecurityConfig
set_plugin_security_defaults ps = record ps {
  max_memory_mb = positive_or (pos 512) ps.max_memory_mb;
  max_cpu_percent = positive_or (millionths 25000000) ps.max_cpu_percent;
}

unfoldable pub set_plugin_defaults : PluginConfig → PluginConfig
unfolding set_plugin_security_defaults
set_plugin_defaults pg =
    let directory = nonempty_or (codes "/etc/agentbrain/plugins") pg.directory in
    record pg {
      directory = directory;
      watch_paths = nonempty_or (directory ∷ []) pg.watch_paths;
      security = map_option set_plugin_security_defaults pg.security;
    }

unfoldable pub set_migration_defaults : MigrationConfig → MigrationConfig
set_migration_defaults mg = record mg {
  validation_mode = nonempty_or (codes "strict") mg.validation_mode;
  max_migration_time = positive_or (minute 5) mg.max_migration_time;
  auto_migrate = if mg.enabled && not mg.auto_migrate then true else mg.auto_migrate;
  backup_before_migrate =
      if mg.enabled && not mg.backup_before_migrate then true else mg.backup_before_migrate;
}
