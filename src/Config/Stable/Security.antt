-- ===== src/Config/Stable/Security.antt =====
-- internal/config/config.go: the defaults of the security section, set twice.
use agent_brain.Base.{◌≡◌, refl, Bool, true, false, [], ◌∷◌, if◌then◌else◌}
use agent_brain.Base.Int.{pos}
use agent_brain.Base.Bytes.{codes}
use agent_brain.Config.Values.{
  hour, millionths, positive_or, nonempty_or, positive_or_twice, nonempty_or_twice,
}
use agent_brain.Config.Security.{
  SecurityConfig, set_security_defaults, analysis_defaults, audit_defaults, runtime_defaults,
  encryption_defaults,
}

-- A default that is set only under a flag.
pub under_flag :
    {A : Type 0} (e : Bool) (f : A → A) (x : A)
    → ((x : A) → f (f x) ≡ f x)
    → (if e then f (if e then f x else x) else (if e then f x else x)) ≡ (if e then f x else x)
under_flag true f x h = h x
under_flag false f x h = refl

pub set_security_defaults_twice :
    (s : SecurityConfig) → set_security_defaults (set_security_defaults s) ≡ set_security_defaults s
unfolding set_security_defaults analysis_defaults audit_defaults runtime_defaults
    encryption_defaults
set_security_defaults_twice s =
    let a = s.static_analysis in
    let d = s.dependency_audit in
    let r = s.runtime_monitoring in
    rw
      (
        under_flag a.enabled
            (nonempty_or (codes "vendor" ∷ codes "node_modules" ∷ codes ".git" ∷ []))
            a.skip_directories (nonempty_or_twice _),
        under_flag d.enabled (positive_or (hour 24)) d.check_interval (positive_or_twice (hour 24)),
        under_flag d.enabled (positive_or (millionths 10000000)) d.max_cvss_score
            (positive_or_twice (millionths 10000000)),
        under_flag r.enabled (positive_or (pos 5)) r.auth_failure_threshold
            (positive_or_twice (pos 5)),
        nonempty_or_twice (codes "1.2") s.encryption.min_tls_version,
      )
      refl
