-- ===== src/Monitoring/Alerts/Spacing.antt =====
-- internal/monitoring/alerting.go: the time between two notifications.
use agent_brain.Base.{false, Option, none, some, List, [], ◌∷◌, if◌then◌else◌, Bool, map, ◌++◌}
use agent_brain.Base.Int.{ℤ, ◌-ℤ◌, ◌≤ℤ◌, ltb_ℤ, leb_ℤ}
use agent_brain.Base.Bytes.{Bytes, bytes_eq}
use agent_brain.Retry.Executor.{Operation}
use agent_brain.Monitoring.Alerts.{Alert, AlertState, AlertStates, cooldown_period, process_alert}

-- Clock readings and timestamps of notifications, each at least a cooldown after the timestamp before.
pub IsSpaced : Option ℤ → List (ℤ × ℤ) → Type 0
IsSpaced last [] = Unit
IsSpaced none ((now, t) ∷ rest) = IsSpaced (some t) rest
IsSpaced (some l) ((now, t) ∷ rest) = (cooldown_period ≤ℤ now -ℤ l) × IsSpaced (some t) rest

-- When a rule's alert was last notified.
abbrev pub last_of : Option AlertState → Option ℤ
last_of none = none
last_of (some s) = some s.last_fired

-- What `should_suppress_alert` says of a rule's state.
abbrev suppresses : ℤ → Option AlertState → Bool
suppresses now o = elim o [ none ↦ false | some s ↦ ltb_ℤ (now -ℤ s.last_fired) cooldown_period ]

-- The calls of a channel: the reading of the clock and the alert of each.
abbrev pub Journal : Type 0
Journal = List (ℤ × Alert)

-- A channel beside the journal, and one whose calls are written into it.
abbrev pub aside :
    {W : Type 0} → (Alert → Operation W (Unit {0})) → Alert → Operation (W × Journal) (Unit {0})
aside channel a (w, j) = let (r, w') = channel a w in (r, (w', j))

abbrev pub watched :
    {W : Type 0} → ℤ → (Alert → Operation W (Unit {0})) → Alert → Operation (W × Journal) (Unit {0})
watched now channel a (w, j) = let (r, w') = channel a w in (r, (w', j ++ (now, a) ∷ []))

-- The calls about a rule: the reading of the clock and the timestamp of each.
pub calls_of : Bytes → Journal → List (ℤ × ℤ)
calls_of rule [] = []
calls_of rule ((now, a) ∷ j) =
    let rest = calls_of rule j in
    if bytes_eq a.rule_name rule then (now, a.timestamp) ∷ rest else rest

-- What follows where a notification is due at the clock's reading, and where none is.
abbrev pub when_due : ℤ → Option ℤ → List (ℤ × ℤ) → List (ℤ × ℤ) → List (ℤ × ℤ)
when_due now none next rest = next
when_due now (some l) next rest = if leb_ℤ cooldown_period (now -ℤ l) then next else rest

-- The notifications of a rule that are due, where `last` is the timestamp of the last one.
pub due : Bytes → Option ℤ → List (ℤ × Alert) → List (ℤ × ℤ)
due rule last [] = []
due rule last ((now, a) ∷ alerts) =
    let next = (now, a.timestamp) ∷ due rule (some a.timestamp) alerts in
    let rest = due rule last alerts in
    if bytes_eq a.rule_name rule then when_due now last next rest else rest

module _ (rule : Bytes) (now : ℤ) (a : Alert) (alerts : List (ℤ × Alert)) where
  abbrev due_next : List (ℤ × ℤ)
  due_next = (now, a.timestamp) ∷ due rule (some a.timestamp) alerts

  abbrev due_at : Option ℤ → List (ℤ × ℤ)
  due_at last = when_due now last due_next (due rule last alerts)

module _ {W : Type 0} (before after : List (Alert → Operation W (Unit {0})))
    (channel : Alert → Operation W (Unit {0})) where
  -- The channels, with the calls of the one in the middle written down.
  abbrev pub channels_at : ℤ → List (Alert → Operation (W × Journal) (Unit {0}))
  channels_at now = map aside before ++ watched now channel ∷ map aside after

  -- `ProcessAlert` on one alert after another, each with the reading of the clock.
  pub process_all : List (ℤ × Alert) → AlertStates → W × Journal → AlertStates × (W × Journal)
  process_all [] states x = (states, x)
  process_all ((now, a) ∷ alerts) states x =
      let (r, (states', x')) = process_alert (channels_at now) now a states x in
      process_all alerts states' x'
