-- ===== src/Config/Stable/Observing.antt =====
-- internal/config/config.go: the defaults of observability and monitoring, set twice.
use agent_brain.Base.{◌≡◌, refl, Bool, true, false, not, ◌&&◌, if◌then◌else◌}
use agent_brain.Base.Int.{ℤ}
use agent_brain.Base.Bytes.{codes, bytes_eq}
use agent_brain.Config.Values.{
  minute, second, hour, millionths, nonempty_or, nonzero_or_twice, nonempty_or_twice,
}
use agent_brain.Config.Observing.{
  UsageConfig, MonitoringConfig, ObservabilityConfig, TracingConfig, MetricsConfig,
  tracing_endpoint, tracing_defaults, metrics_defaults, set_monitoring_defaults,
  set_observability_defaults, set_rule_defaults, failure_rate_defaults, completion_defaults,
  usage_defaults,
}
use agent_brain.Config.Stable.Security.{under_flag}

pub tracing_defaults_twice :
    (t : TracingConfig) → tracing_defaults (tracing_defaults t) ≡ tracing_defaults t
unfolding tracing_defaults
tracing_defaults_twice t =
    let exporter = nonempty_or (codes "jaeger") t.exporter in
    rw
      (
        nonempty_or_twice (codes "jaeger") t.exporter,
        nonempty_or_twice (codes "agentbrain") t.service_name,
        nonempty_or_twice (codes "unknown") t.service_version,
        nonzero_or_twice (millionths 100000) t.sample_rate,
        nonempty_or_twice (tracing_endpoint exporter) t.endpoint,
      )
      refl

-- Two flags that are both set if neither is.
pub neither_twice :
    (a b : Bool)
    → let n = not a && not b in
      let a' = if n then true else a in
      let b' = if n then true else b in
      ((if not a' && not b' then true else a') ≡ a')
      × ((if not a' && not b' then true else b') ≡ b')
neither_twice true b = (refl, refl)
neither_twice false true = (refl, refl)
neither_twice false false = (refl, refl)

pub metrics_defaults_twice :
    (m : MetricsConfig) → metrics_defaults (metrics_defaults m) ≡ metrics_defaults m
unfolding metrics_defaults
metrics_defaults_twice m =
    let exporter = nonempty_or (codes "prometheus") m.exporter in
    let (first, second_flag) = neither_twice m.business_metrics m.http_metrics in
    rw
      (
        nonempty_or_twice (codes "prometheus") m.exporter,
        under_flag (bytes_eq exporter (codes "prometheus")) (nonempty_or (codes ":9090")) m.endpoint
            (nonempty_or_twice (codes ":9090")),
        nonzero_or_twice (second 30) m.collection_interval,
        first,
        second_flag,
      )
      refl

pub set_observability_defaults_twice :
    (o : ObservabilityConfig)
    → set_observability_defaults (set_observability_defaults o) ≡ set_observability_defaults o
unfolding set_observability_defaults
set_observability_defaults_twice o =
    rw (tracing_defaults_twice o.tracing, metrics_defaults_twice o.metrics) refl

pub usage_defaults_twice :
    (w c : ℤ) (r : UsageConfig) → usage_defaults w c (usage_defaults w c r) ≡ usage_defaults w c r
unfolding usage_defaults
usage_defaults_twice w c r =
    rw
      (
        nonzero_or_twice w r.warning_threshold,
        nonzero_or_twice c r.critical_threshold,
        nonempty_or_twice (codes "warning") r.severity,
      )
      refl

pub set_monitoring_defaults_twice :
    (m : MonitoringConfig)
    → set_monitoring_defaults (set_monitoring_defaults m) ≡ set_monitoring_defaults m
unfolding set_monitoring_defaults set_rule_defaults failure_rate_defaults completion_defaults
set_monitoring_defaults_twice m =
    let f = m.rules.agent_failure_rate in
    let c = m.rules.workflow_completion in
    rw
      (
        nonzero_or_twice (minute 5) m.check_interval,
        nonzero_or_twice (minute 30) m.alert_cooldown,
        nonzero_or_twice (millionths 100000) f.threshold,
        nonzero_or_twice (hour 1) f.window,
        nonempty_or_twice (codes "warning") f.severity,
        nonzero_or_twice (millionths 800000) c.min_success_rate,
        nonzero_or_twice (hour 6) c.window,
        nonempty_or_twice (codes "critical") c.severity,
        usage_defaults_twice (millionths 80000000) (millionths 90000000) m.rules.disk_usage,
        usage_defaults_twice (millionths 80000000) (millionths 90000000) m.rules.memory_usage,
        usage_defaults_twice (second 5) (second 10) m.rules.api_response_time,
      )
      refl
