-- ===== src/Config/Load.antt =====
-- internal/config/config.go: the whole configuration, read, completed and validated.
use agent_brain.Base.{Option, none, some, [], ◌∷◌, ◌++◌}
use agent_brain.Base.Bytes.{Bytes, codes}
use agent_brain.Base.Map.{Map}
use agent_brain.Retry.Errors.{Error, wrapped, Result, ok, err}
use agent_brain.Retry.Executor.{Operation}
use agent_brain.Delta.Store.{◌>>=◌, context, wrap_error}
use agent_brain.Schema.{is_empty}
use agent_brain.Config.Values.{map_option, map_values}
use agent_brain.Config.Retry.{RetryConfig, set_retry_defaults}
use agent_brain.Config.Sections.{
  AgentConfig, StorageConfig, SourceConfig, BackupConfig, ProfilerConfig, PluginConfig,
  MigrationConfig, set_agent_defaults, set_source_defaults, set_backup_defaults,
  set_profiler_defaults, set_plugin_defaults, set_migration_defaults,
}
use agent_brain.Config.Security.{
  SecurityConfig, set_security_defaults, validate_security_config, refuse_if, and_also,
}
use agent_brain.Config.Observing.{
  MonitoringConfig, ObservabilityConfig, set_monitoring_defaults, set_observability_defaults,
}
use agent_brain.Config.Env.{expand_env_vars}

pub record Config : Type 0 where
  pub agent : AgentConfig
  pub storage : StorageConfig
  pub sources : Map SourceConfig
  pub monitoring : MonitoringConfig
  pub backup : Option BackupConfig
  pub profiler : Option ProfilerConfig
  pub plugins : Option PluginConfig
  pub retry : Option RetryConfig
  pub migration : Option MigrationConfig
  pub security : Option SecurityConfig
  pub observability : Option ObservabilityConfig

-- `setDefaults`
unfoldable pub set_defaults : Config → Config
set_defaults cfg = record {
  agent = set_agent_defaults cfg.agent;
  storage = cfg.storage;
  sources = map_values set_source_defaults cfg.sources;
  monitoring = set_monitoring_defaults cfg.monitoring;
  backup = map_option set_backup_defaults cfg.backup;
  profiler = map_option set_profiler_defaults cfg.profiler;
  plugins = map_option set_plugin_defaults cfg.plugins;
  retry = map_option set_retry_defaults cfg.retry;
  migration = map_option set_migration_defaults cfg.migration;
  security = map_option set_security_defaults cfg.security;
  observability = map_option set_observability_defaults cfg.observability;
}

-- What the program uses of the libraries: `%q`, `strings.ToLower`, `regexp.Compile`, `os.ReadFile`,
-- `os.LookupEnv`, `strings.TrimSpace`, and `yaml.Unmarshal`.
pub record Libraries (W : Type 0) : Type 0 where
  pub quoted : Bytes → Bytes
  pub to_lower : Bytes → Bytes
  pub compile : Bytes → Option Error
  pub read_file : Bytes → Operation W Bytes
  pub lookup_env : Bytes → Option Bytes
  pub trim_space : Bytes → Bytes
  pub unmarshal : Bytes → Result Config

module _ {W : Type 0} (lib : Libraries W) where
  -- The loop over the sources, in the order of the map.
  unfoldable pub validate_sources : Map SourceConfig → Result (Unit {0})
  validate_sources [] = ok tt
  validate_sources ((name, src) ∷ rest) =
      refuse_if (is_empty src.type)
        (codes "source " ++ (lib.quoted name ++ codes ": type is required")) (validate_sources rest)

  unfoldable pub validate_security : Option SecurityConfig → Result (Unit {0})
  validate_security none = ok tt
  validate_security (some sc) =
      wrap_error (codes "security configuration invalid")
        (validate_security_config lib.to_lower lib.compile sc)

  -- `validate`
  unfoldable pub validate : Config → Result (Unit {0})
  unfolding validate_sources validate_security
  validate cfg = refuse_if (is_empty cfg.storage.bucket) (codes "storage.bucket is required") (
      refuse_if (is_empty cfg.storage.region) (codes "storage.region is required") (
        refuse_if (is_empty cfg.sources) (codes "at least one source is required")
          (and_also (validate_sources cfg.sources) (validate_security cfg.security))))

  unfoldable pub when_valid : Config → Result (Unit {0}) → Result Config
  when_valid cfg (ok u) = ok cfg
  when_valid cfg (err e) = err e

  unfoldable pub completed : Config → Result Config
  unfolding validate set_defaults when_valid
  completed cfg =
      when_valid (set_defaults cfg)
        (wrap_error (codes "validate config") (validate (set_defaults cfg)))

  unfoldable pub parsed : Result Config → Result Config
  unfolding completed
  parsed (ok cfg) = completed cfg
  parsed (err e) = err (wrapped (codes "parse config") e)

  -- `Load`
  unfoldable pub load : Bytes → Operation W Config
  unfolding parsed expand_env_vars
  load path = do
    text ← context (codes "read config " ++ path) (lib.read_file path)
    λ w. (parsed (lib.unmarshal (expand_env_vars lib.trim_space lib.lookup_env text)), w)

  -- `ValidateWithRegistry`, in the order of the map; the registry's check of a source is given.
  unfoldable pub validate_each :
      (SourceConfig → Operation W (Unit {0})) → Map SourceConfig → Operation W (Unit {0})
  validate_each check [] w = (ok tt, w)
  validate_each check ((name, src) ∷ rest) w =
      (context (codes "invalid config for source " ++ name) (check src) >>= λ _.
      validate_each check rest)
        w

  unfoldable pub validate_with_registry :
      (SourceConfig → Operation W (Unit {0})) → Config → Operation W (Unit {0})
  validate_with_registry check cfg =
      (λ w. (validate cfg, w)) >>= λ _. validate_each check cfg.sources
