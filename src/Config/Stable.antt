-- ===== src/Config/Stable.antt =====
-- internal/config/config.go: setting the defaults a second time changes nothing.
pub mod Retry
pub mod Sections
pub mod Security
pub mod Observing
use agent_brain.Base.{◌≡◌, refl}
use agent_brain.Config.Values.{map_values, map_option, map_values_twice, map_option_twice}
use agent_brain.Config.Retry.{set_retry_defaults}
use agent_brain.Config.Sections.{
  set_agent_defaults, set_source_defaults, set_backup_defaults, set_profiler_defaults,
  set_plugin_defaults, set_migration_defaults,
}
use agent_brain.Config.Security.{set_security_defaults}
use agent_brain.Config.Observing.{set_monitoring_defaults, set_observability_defaults}
use agent_brain.Config.Load.{Config, set_defaults}
use agent_brain.Config.Stable.Retry.{set_retry_defaults_twice}
use agent_brain.Config.Stable.Sections.{
  set_agent_defaults_twice, set_source_defaults_twice, set_backup_defaults_twice,
  set_profiler_defaults_twice, set_plugin_defaults_twice, set_migration_defaults_twice,
}
use agent_brain.Config.Stable.Security.{set_security_defaults_twice}
use agent_brain.Config.Stable.Observing.{
  set_monitoring_defaults_twice, set_observability_defaults_twice,
}

-- Setting the defaults of a configuration a second time changes nothing.
pub set_defaults_twice : (cfg : Config) → set_defaults (set_defaults cfg) ≡ set_defaults cfg
unfolding set_defaults
set_defaults_twice cfg =
    rw
      (
        set_agent_defaults_twice cfg.agent,
        map_values_twice set_source_defaults cfg.sources set_source_defaults_twice,
        set_monitoring_defaults_twice cfg.monitoring,
        map_option_twice set_backup_defaults cfg.backup set_backup_defaults_twice,
        map_option_twice set_profiler_defaults cfg.profiler set_profiler_defaults_twice,
        map_option_twice set_plugin_defaults cfg.plugins set_plugin_defaults_twice,
        map_option_twice set_retry_defaults cfg.retry set_retry_defaults_twice,
        map_option_twice set_migration_defaults cfg.migration set_migration_defaults_twice,
        map_option_twice set_security_defaults cfg.security set_security_defaults_twice,
        map_option_twice set_observability_defaults cfg.observability
            set_observability_defaults_twice,
      )
      refl
