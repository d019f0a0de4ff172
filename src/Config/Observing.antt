-- ===== src/Config/Observing.antt =====
-- internal/config/config.go: the sections on observability and monitoring, and their defaults; the
-- types of the latter are those of internal/monitoring/health_monitor.go.
use agent_brain.Base.{Bool, true, not, ◌&&◌, List, [], if◌then◌else◌}
use agent_brain.Base.Int.{ℤ}
use agent_brain.Base.Bytes.{Bytes, codes, bytes_eq}
use agent_brain.Config.Values.{Float, millionths, second, minute, hour, nonzero_or, nonempty_or}

pub record TracingConfig : Type 0 where
  pub enabled : Bool
  pub exporter : Bytes
  pub endpoint : Bytes
  pub sample_rate : Float
  pub service_name : Bytes
  pub service_version : Bytes

pub record MetricsConfig : Type 0 where
  pub enabled : Bool
  pub exporter : Bytes
  pub endpoint : Bytes
  pub collection_interval : ℤ
  pub business_metrics : Bool
  pub http_metrics : Bool

pub record LoggingConfig : Type 0 where
  pub correlation_ids : Bool
  pub structured_context : Bool
  pub trace_integration : Bool

pub record ObservabilityConfig : Type 0 where
  pub tracing : TracingConfig
  pub metrics : MetricsConfig
  pub logging : LoggingConfig

-- The endpoint of an exporter.
unfoldable pub tracing_endpoint : Bytes → Bytes
tracing_endpoint exporter =
    if bytes_eq exporter (codes "jaeger")
    then codes "http://localhost:14268/api/traces"
    else if bytes_eq exporter (codes "zipkin")
    then codes "http://localhost:9411/api/v2/spans"
    else if bytes_eq exporter (codes "otlp")
    then codes "http://localhost:4318/v1/traces"
    else []

unfoldable pub tracing_defaults : TracingConfig → TracingConfig
unfolding tracing_endpoint
tracing_defaults t =
    let exporter = nonempty_or (codes "jaeger") t.exporter in
    record t {
      service_name = nonempty_or (codes "agentbrain") t.service_name;
      service_version = nonempty_or (codes "unknown") t.service_version;
      sample_rate = nonzero_or (millionths 100000) t.sample_rate;
      exporter = exporter;
      endpoint = nonempty_or (tracing_endpoint exporter) t.endpoint;
    }

unfoldable pub metrics_defaults : MetricsConfig → MetricsConfig
metrics_defaults m =
    let exporter = nonempty_or (codes "prometheus") m.exporter in
    let neither = not m.business_metrics && not m.http_metrics in
    record m {
      exporter = exporter;
      endpoint =
          if bytes_eq exporter (codes "prometheus")
          then nonempty_or (codes ":9090") m.endpoint
          else m.endpoint;
      collection_interval = nonzero_or (second 30) m.collection_interval;
      business_metrics = if neither then true else m.business_metrics;
      http_metrics = if neither then true else m.http_metrics;
    }

-- `setObservabilityDefaults`
unfoldable pub set_observability_defaults : ObservabilityConfig → ObservabilityConfig
unfolding tracing_defaults metrics_defaults
set_observability_defaults obs = record obs {
  tracing = tracing_defaults obs.tracing;
  metrics = metrics_defaults obs.metrics;
}

pub record AgentFailureRateConfig : Type 0 where
  pub enabled : Bool
  pub threshold : Float
  pub window : ℤ
  pub severity : Bytes

pub record WorkflowCompletionConfig : Type 0 where
  pub enabled : Bool
  pub min_success_rate : Float
  pub window : ℤ
  pub severity : Bytes

-- `DiskUsageConfig` and `MemoryUsageConfig`, and `APIResponseTimeConfig`, whose thresholds are
-- durations.
pub record UsageConfig : Type 0 where
  pub enabled : Bool
  pub warning_threshold : ℤ
  pub critical_threshold : ℤ
  pub severity : Bytes

pub record RulesConfig : Type 0 where
  pub agent_failure_rate : AgentFailureRateConfig
  pub workflow_completion : WorkflowCompletionConfig
  pub disk_usage : UsageConfig
  pub memory_usage : UsageConfig
  pub api_response_time : UsageConfig

pub record SlackConfig : Type 0 where
  pub enabled : Bool
  pub webhook_url : Bytes
  pub channel : Bytes

pub record EmailConfig : Type 0 where
  pub enabled : Bool
  pub smtp_host : Bytes
  pub smtp_port : ℤ
  pub username : Bytes
  pub password : Bytes
  pub from : Bytes
  pub recipients : List Bytes

pub record WebhookConfig : Type 0 where
  pub enabled : Bool
  pub url : Bytes
  pub method : Bytes

pub record NotificationsConfig : Type 0 where
  pub slack : SlackConfig
  pub email : EmailConfig
  pub webhook : WebhookConfig

pub record MonitoringConfig : Type 0 where
  pub enabled : Bool
  pub check_interval : ℤ
  pub alert_cooldown : ℤ
  pub rules : RulesConfig
  pub notifications : NotificationsConfig

unfoldable pub failure_rate_defaults : AgentFailureRateConfig → AgentFailureRateConfig
failure_rate_defaults r = record r {
  threshold = nonzero_or (millionths 100000) r.threshold;
  window = nonzero_or (hour 1) r.window;
  severity = nonempty_or (codes "warning") r.severity;
}

unfoldable pub completion_defaults : WorkflowCompletionConfig → WorkflowCompletionConfig
completion_defaults r = record r {
  min_success_rate = nonzero_or (millionths 800000) r.min_success_rate;
  window = nonzero_or (hour 6) r.window;
  severity = nonempty_or (codes "critical") r.severity;
}

unfoldable pub usage_defaults : ℤ → ℤ → UsageConfig → UsageConfig
usage_defaults warning critical r = record r {
  warning_threshold = nonzero_or warning r.warning_threshold;
  critical_threshold = nonzero_or critical r.critical_threshold;
  severity = nonempty_or (codes "warning") r.severity;
}

-- `setRuleDefaults`
unfoldable pub set_rule_defaults : RulesConfig → RulesConfig
unfolding failure_rate_defaults completion_defaults usage_defaults
set_rule_defaults r = record {
  agent_failure_rate = failure_rate_defaults r.agent_failure_rate;
  workflow_completion = completion_defaults r.workflow_completion;
  disk_usage = usage_defaults (millionths 80000000) (millionths 90000000) r.disk_usage;
  memory_usage = usage_defaults (millionths 80000000) (millionths 90000000) r.memory_usage;
  api_response_time = usage_defaults (second 5) (second 10) r.api_response_time;
}

unfoldable pub set_monitoring_defaults : MonitoringConfig → MonitoringConfig
unfolding set_rule_defaults
set_monitoring_defaults m = record m {
  check_interval = nonzero_or (minute 5) m.check_interval;
  alert_cooldown = nonzero_or (minute 30) m.alert_cooldown;
  rules = set_rule_defaults m.rules;
}
