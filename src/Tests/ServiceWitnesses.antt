-- ===== src/Tests/ServiceWitnesses.antt =====
-- The theorems on alerts, file names and connectors at concrete inputs.
use agent_brain.Base.{ℕ, ◌≡◌, refl, true, none, some, List, [], ◌∷◌, ◌*◌, ◌+◌}
use agent_brain.Base.Int.{ℤ, pos}
use agent_brain.Base.Bytes.{codes, bytes_eq}
use agent_brain.Base.Map.{lookup}
use agent_brain.Base.Strings.{has_prefix}
use agent_brain.Retry.Errors.{message, ok, err, is_err}
use agent_brain.Retry.Executor.{Operation}
use agent_brain.Monitoring.Alerts.{Alert, warning, firing}
use agent_brain.Monitoring.Alerts.Spacing.{calls_of, process_all}
use agent_brain.Layout.{delta_log_prefix, delta_last_checkpoint}
use agent_brain.Layout.Separate.{delta_log_prefix_separates}
use agent_brain.Connector.{
  SourceConfig, Connector, Factory, Registry, create, is_plugin, create_known,
  validate_source_config,
}
use agent_brain.Connector.Checked.{create-validate_source_config}

abbrev disk_alert : ℤ → Alert
disk_alert t = record {
  id = codes "a";
  rule_name = codes "disk";
  severity = warning;
  status = firing;
  text = codes "disk is full";
  timestamp = t;
}

-- A channel that counts its calls.
abbrev counting : Alert → Operation ℕ (Unit {0})
counting alert w = (ok tt, w + 1)

-- Three alerts: the second comes within the cooldown, the third an hour after the first.
abbrev three_alerts : List (ℤ × Alert)
three_alerts =
    (pos 7, disk_alert (pos 5))
    ∷ ((pos 9, disk_alert (pos 8))
        ∷ ((pos (60 * 60000000000), disk_alert (pos (60 * 60000000000))) ∷ []))

abbrev notified : List (ℤ × ℤ)
notified =
    calls_of (codes "disk")
      (process_all (counting ∷ []) (counting ∷ []) counting three_alerts [] (0, [])).1.1

delta_log_prefix_separates_example : (codes "sf" ≡ codes "sf") × (codes "Account" ≡ codes "Account")
unfolding has_prefix delta_log_prefix delta_last_checkpoint
delta_log_prefix_separates_example =
    delta_log_prefix_separates (codes "sf") (codes "Account") (codes "sf") (codes "Account")
      (delta_last_checkpoint (codes "sf") (codes "Account")) (refl, (refl, tt))
      (refl, (refl, (refl, (refl, (refl, (refl, (refl, tt))))))) (refl, (refl, tt))
      (refl, (refl, (refl, (refl, (refl, (refl, (refl, tt))))))) refl refl

-- A factory of connectors that need a password.
abbrev strict : Factory ℕ
strict cfg w = elim (lookup (codes "password") cfg.auth) [
  | some p ↦ (
    ok (record {
      validate_config = λ auth options w. (ok tt, w);
      config_schema = agent_brain.Connector.nil;
    }),
    w,
  )
  | none ↦ (err (message (codes "no password")), w)
]

abbrev one_type : Registry ℕ
one_type = record { factories = (codes "salesforce", strict) ∷ []; plugin_manager = none }

abbrev no_password : SourceConfig
no_password = record { type = codes "salesforce"; enabled = true; auth = []; options = [] }

create-validate_source_config_example :
    is_err (validate_source_config one_type no_password 0).0 ≡ true
unfolding create is_plugin create_known lookup has_prefix bytes_eq
create-validate_source_config_example =
    create-validate_source_config one_type (λ t. t) no_password 0 refl
