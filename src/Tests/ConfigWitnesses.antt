-- ===== src/Tests/ConfigWitnesses.antt =====
-- The theorems on the configuration at concrete inputs.
use agent_brain.Base.{ℕ, ◌≡◌, refl, true, false, none, some, [], ◌∷◌, ◌&&◌}
use agent_brain.Base.Int.{pos, ltb_ℤ}
use agent_brain.Base.Bytes.{Bytes, codes, bytes_eq}
use agent_brain.Retry.Errors.{ok}
use agent_brain.Delta.Store.{◌>>=◌, context}
use agent_brain.Sync.Planner.{contains}
use agent_brain.Retry.Policy.{RetryPolicy}
use agent_brain.Config.Values.{millionths, nonempty_or}
use agent_brain.Config.Retry.{policy, standard_breakers, standard_policies}
use agent_brain.Config.Sections.{SourceConfig, set_source_defaults}
use agent_brain.Config.Security.{
  SecurityConfig, validate_rules, validate_tls, validate_security_config, set_security_defaults,
  and_also, refuse_if,
}
use agent_brain.Config.Observing.{MonitoringConfig, UsageConfig}
use agent_brain.Config.Env.{expand_env_vars}
use agent_brain.Config.Load.{
  Config, Libraries, set_defaults, load, parsed, completed, when_valid, validate, validate_sources,
  validate_security,
}
use agent_brain.Config.Ready.{IsReady, load-IsReady, validate_security_config_defaults}
use agent_brain.Config.Stable.{set_defaults_twice}
use agent_brain.Retry.Settings.{
  get_operation_policy, default_config, validate_retry, validate_policy, validate_breaker,
  each_valid, valid_strategies,
}
use agent_brain.Retry.Settings.Accepted.{IsSound, get_operation_policy-IsSound}
use agent_brain.Tests.Memory.{whole}

abbrev bare_source : SourceConfig
bare_source = record {
  type = codes "salesforce";
  enabled = true;
  schedule = [];
  concurrency = pos 0;
  batch_size = pos 0;
  objects = [];
  auth = [];
  options = [];
  checkpoint = none;
  consistency = none;
  validation = none;
  error_handling = none;
}

abbrev no_usage : UsageConfig
no_usage = record {
  enabled = false;
  warning_threshold = pos 0;
  critical_threshold = pos 0;
  severity = [];
}

abbrev quiet_monitoring : MonitoringConfig
quiet_monitoring = record {
  enabled = false;
  check_interval = pos 0;
  alert_cooldown = pos 0;
  rules = record {
    agent_failure_rate = record {
      enabled = false;
      threshold = pos 0;
      window = pos 0;
      severity = [];
    };
    workflow_completion = record {
      enabled = false;
      min_success_rate = pos 0;
      window = pos 0;
      severity = [];
    };
    disk_usage = no_usage;
    memory_usage = no_usage;
    api_response_time = no_usage;
  };
  notifications = record {
    slack = record { enabled = false; webhook_url = []; channel = [] };
    email = record {
      enabled = false;
      smtp_host = [];
      smtp_port = pos 0;
      username = [];
      password = [];
      from = [];
      recipients = [];
    };
    webhook = record { enabled = false; url = []; method = [] };
  };
}

abbrev bare : Config
bare = record {
  agent = record {
    log_level = [];
    log_format = [];
    health_addr = [];
    schedule = [];
    timeout = pos 0;
  };
  storage = record { bucket = codes "b"; region = codes "r"; endpoint = []; prefix = [] };
  sources = (codes "sf", bare_source) ∷ [];
  monitoring = quiet_monitoring;
  backup = none;
  profiler = none;
  plugins = none;
  retry = some (record {
    default_policy = policy (pos 0) (pos 0) (pos 0) [] false;
    circuit_breakers = [];
    operation_policies = [];
  });
  migration = none;
  security = none;
  observability = none;
}

abbrev libraries : Libraries ℕ
libraries = record {
  quoted = λ s. s;
  to_lower = λ s. s;
  compile = λ s. none;
  read_file = λ path w. (ok (codes "yaml"), w);
  lookup_env = λ name. none;
  trim_space = λ s. s;
  unmarshal = λ text. ok bare;
}

load_run : (load libraries (codes "c.yaml") 0).0 ≡ ok (set_defaults bare)
unfolding load context ◌>>=◌ parsed completed when_valid validate validate_sources validate_security
    set_defaults set_source_defaults
load_run = refl

load-IsReady_example :
    (text : Bytes) × ((libraries.read_file (codes "c.yaml") 0).0 ≡ ok text)
    × (cfg : Config) × (libraries.unmarshal
          (expand_env_vars libraries.trim_space libraries.lookup_env text)
        ≡ ok cfg)
    × (set_defaults bare ≡ set_defaults cfg)
    × IsReady (set_defaults bare)
load-IsReady_example = load-IsReady libraries (codes "c.yaml") 0 (set_defaults bare) load_run

set_defaults_twice_example : set_defaults (set_defaults bare) ≡ set_defaults bare
set_defaults_twice_example = set_defaults_twice bare

abbrev lax : SecurityConfig
lax = record {
  enabled = true;
  static_analysis = record {
    enabled = true;
    fail_on_high = true;
    skip_directories = [];
    exclude_rules = [];
    custom_rules = [];
  };
  dependency_audit = record {
    enabled = true;
    fail_on_high = true;
    check_interval = pos 0;
    notify_channels = [];
    max_cvss_score = millionths 11000000;
    ignore_packages = [];
  };
  runtime_monitoring = record {
    enabled = true;
    auth_failure_threshold = pos 0;
    network_anomaly_detection = true;
    file_access_monitoring = true;
    memory_anomaly_detection = true;
    process_monitoring = true;
    network_connection_tracking = true;
  };
  encryption = record {
    enforce_tls = true;
    min_tls_version = [];
    credential_encryption = true;
    data_at_rest_encryption = true;
    transit_encryption = true;
  };
}

validate_security_config_defaults_example :
    validate_security_config (λ s. s) (λ s. none) (set_security_defaults lax)
    ≡ and_also (validate_rules (λ s. s) (λ s. none) 0 []) (
        and_also (validate_tls (λ s. s) (λ s. none) (nonempty_or (codes "1.2") [])) (
          refuse_if
            (true && ltb_ℤ (millionths 10000000) (millionths 11000000))
            (codes "max_cvss_score must be between 0 and 10")
            (ok tt)))
validate_security_config_defaults_example =
    validate_security_config_defaults (λ s. s) (λ s. none) lax

default_is_valid : validate_retry (λ d. []) default_config ≡ ok tt
unfolding validate_retry default_config each_valid validate_policy validate_breaker valid_strategies
    contains bytes_eq standard_breakers standard_policies
default_is_valid = refl

get_operation_policy-IsSound_example :
    (p : RetryPolicy ℕ) × (get_operation_policy whole
        (λ a. 0)
        ℕ
        default_config
        (codes "delta_commit")
      ≡ ok p)
    × IsSound whole (λ a. 0) p
get_operation_policy-IsSound_example =
    get_operation_policy-IsSound whole (λ a. 0) ℕ (λ d. []) default_config (codes "delta_commit")
      default_is_valid
