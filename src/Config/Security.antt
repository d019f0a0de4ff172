-- ===== src/Config/Security.antt =====
-- internal/config/config.go: the security section, its defaults and its validation. `to_lower` is
-- `strings.ToLower`, and `compile` the error of `regexp.Compile`, if there is one.
use agent_brain.Base.{
  ℕ, suc, Bool, true, false, not, ◌&&◌, ◌||◌, Option, none, some, List, [], ◌∷◌, ◌++◌,
  if◌then◌else◌,
}
use agent_brain.Base.Int.{ℤ, pos, ltb_ℤ, leb_ℤ}
use agent_brain.Base.Bytes.{Bytes, codes}
use agent_brain.Base.Map.{Map}
use agent_brain.Base.Decimal.{decimal}
use agent_brain.Retry.Errors.{Error, message, wrapped, Result, ok, err}
use agent_brain.Schema.{is_empty}
use agent_brain.Sync.Planner.{contains}
use agent_brain.Config.Values.{Float, millionths, hour, positive_or, nonempty_or}

pub record SecurityRule : Type 0 where
  pub id : Bytes
  pub name : Bytes
  pub description : Bytes
  pub pattern : Bytes
  pub severity : Bytes
  pub cwe : Bytes
  pub fix : Bytes
  pub tags : List Bytes
  pub metadata : Map Bytes

pub record StaticAnalysisConfig : Type 0 where
  pub enabled : Bool
  pub fail_on_high : Bool
  pub skip_directories : List Bytes
  pub exclude_rules : List Bytes
  pub custom_rules : List SecurityRule

pub record DependencyAuditConfig : Type 0 where
  pub enabled : Bool
  pub fail_on_high : Bool
  pub check_interval : ℤ
  pub notify_channels : List Bytes
  pub max_cvss_score : Float
  pub ignore_packages : List Bytes

pub record RuntimeMonitoringConfig : Type 0 where
  pub enabled : Bool
  pub auth_failure_threshold : ℤ
  pub network_anomaly_detection : Bool
  pub file_access_monitoring : Bool
  pub memory_anomaly_detection : Bool
  pub process_monitoring : Bool
  pub network_connection_tracking : Bool

pub record EncryptionConfig : Type 0 where
  pub enforce_tls : Bool
  pub min_tls_version : Bytes
  pub credential_encryption : Bool
  pub data_at_rest_encryption : Bool
  pub transit_encryption : Bool

pub record SecurityConfig : Type 0 where
  pub enabled : Bool
  pub static_analysis : StaticAnalysisConfig
  pub dependency_audit : DependencyAuditConfig
  pub runtime_monitoring : RuntimeMonitoringConfig
  pub encryption : EncryptionConfig

unfoldable pub analysis_defaults : StaticAnalysisConfig → StaticAnalysisConfig
analysis_defaults a = record a {
  skip_directories =
      if a.enabled
      then nonempty_or (codes "vendor" ∷ codes "node_modules" ∷ codes ".git" ∷ [])
          a.skip_directories
      else a.skip_directories;
}

unfoldable pub audit_defaults : DependencyAuditConfig → DependencyAuditConfig
audit_defaults d = record d {
  check_interval = if d.enabled then positive_or (hour 24) d.check_interval else d.check_interval;
  max_cvss_score =
      if d.enabled then positive_or (millionths 10000000) d.max_cvss_score else d.max_cvss_score;
}

unfoldable pub runtime_defaults : RuntimeMonitoringConfig → RuntimeMonitoringConfig
runtime_defaults r = record r {
  auth_failure_threshold =
      if r.enabled then positive_or (pos 5) r.auth_failure_threshold else r.auth_failure_threshold;
}

unfoldable pub encryption_defaults : EncryptionConfig → EncryptionConfig
encryption_defaults e = record e { min_tls_version = nonempty_or (codes "1.2") e.min_tls_version }

-- `setSecurityDefaults`
unfoldable pub set_security_defaults : SecurityConfig → SecurityConfig
unfolding analysis_defaults audit_defaults runtime_defaults encryption_defaults
set_security_defaults sc = record sc {
  static_analysis = analysis_defaults sc.static_analysis;
  dependency_audit = audit_defaults sc.dependency_audit;
  runtime_monitoring = runtime_defaults sc.runtime_monitoring;
  encryption = encryption_defaults sc.encryption;
}

unfoldable pub valid_severities : List Bytes
valid_severities = codes "low" ∷ codes "medium" ∷ codes "high" ∷ codes "critical" ∷ []

unfoldable pub valid_versions : List Bytes
valid_versions = codes "1.0" ∷ codes "1.1" ∷ codes "1.2" ∷ codes "1.3" ∷ []

-- A test that fails the validation with a text.
abbrev pub refuse_if : Bool → Bytes → Result (Unit {0}) → Result (Unit {0})
refuse_if true text rest = err (message text)
refuse_if false text rest = rest

-- One check after another.
abbrev pub and_also : Result (Unit {0}) → Result (Unit {0}) → Result (Unit {0})
and_also (ok u) rest = rest
and_also (err e) rest = err e

unfoldable pub rule_text : SecurityRule → Bytes → Bytes
rule_text rule t = codes "custom rule " ++ (rule.id ++ t)

unfoldable pub compiled : SecurityRule → Option Error → Result (Unit {0})
unfolding rule_text
compiled rule none = ok tt
compiled rule (some e) = err (wrapped (rule_text rule (codes " has invalid pattern")) e)

module _ (to_lower : Bytes → Bytes) (compile : Bytes → Option Error) where
  -- The body of the loop over the custom rules.
  unfoldable pub validate_rule : ℕ → SecurityRule → Result (Unit {0})
  unfolding compiled rule_text
  validate_rule i rule =
      refuse_if (is_empty rule.id) (codes "custom rule " ++ (decimal i ++ codes " missing ID")) (
        refuse_if (is_empty rule.name) (rule_text rule (codes " missing name")) (
          refuse_if (is_empty rule.pattern) (rule_text rule (codes " missing pattern")) (
            refuse_if (is_empty rule.severity) (rule_text rule (codes " missing severity")) (
              refuse_if (not (contains valid_severities (to_lower rule.severity)))
                (rule_text rule (codes " has invalid severity " ++ rule.severity))
                (compiled rule (compile rule.pattern))))))

  unfoldable pub validate_rules : ℕ → List SecurityRule → Result (Unit {0})
  validate_rules i [] = ok tt
  validate_rules i (rule ∷ rules) = and_also (validate_rule i rule) (validate_rules (suc i) rules)

  unfoldable pub validate_tls : Bytes → Result (Unit {0})
  validate_tls version =
      refuse_if (not (is_empty version) && not (contains valid_versions version))
        (codes "invalid minimum TLS version: " ++ version) (ok tt)

  unfoldable pub validate_audit : DependencyAuditConfig → Result (Unit {0})
  validate_audit d =
      refuse_if
        (d.enabled
          && (ltb_ℤ d.max_cvss_score (pos 0) || ltb_ℤ (millionths 10000000) d.max_cvss_score))
        (codes "max_cvss_score must be between 0 and 10")
        (refuse_if (d.enabled && leb_ℤ d.check_interval (pos 0))
          (codes "check_interval must be positive") (ok tt))

  unfoldable pub validate_runtime : RuntimeMonitoringConfig → Result (Unit {0})
  validate_runtime r =
      refuse_if (r.enabled && ltb_ℤ r.auth_failure_threshold (pos 0))
        (codes "auth_failure_threshold must be non-negative") (ok tt)

  -- `validateSecurityConfig`
  unfoldable pub validate_security_config : SecurityConfig → Result (Unit {0})
  unfolding validate_rules validate_tls validate_audit validate_runtime
  validate_security_config sc = and_also (validate_rules 0 sc.static_analysis.custom_rules) (
      and_also (validate_tls sc.encryption.min_tls_version)
        (and_also (validate_audit sc.dependency_audit) (validate_runtime sc.runtime_monitoring)))
