-- ===== src/Sync/Consistency.antt =====
-- internal/sync/consistency.go: the report on the objects of a source after a sync. Times and
-- durations are nanoseconds. A Go map is an association list in the order in which `range` visits it.
-- The report's id and times, and the log lines, are left out.
pub mod Checks
pub mod Healthy
pub mod Gap
use agent_brain.Base.{
  ℕ, suc, ◌*◌, Bool, true, false, not, Option, none, some, List, [], ◌∷◌, ◌++◌, if◌then◌else◌,
  is_some, filter,
}
use agent_brain.Base.Int.{ℤ, pos, negsuc, ◌-ℤ◌, ltb_ℤ, wrap64, max_int64}
use agent_brain.Base.Bytes.{Bytes, codes}
use agent_brain.Base.Map.{Map, lookup, insert}
use agent_brain.Sync.Planner.{ObjectPlan, ObjectState}

pub data ViolationType : Type 0 where
  staleness missing_object schema_conflict watermark_drift transaction_boundary : ViolationType

pub data Severity : Type 0 where
  low medium high critical : Severity

pub data ConsistencyStatus : Type 0 where
  healthy degraded unhealthy : ConsistencyStatus

-- The error and the duration are not set here.
pub record ObjectResult : Type 0 where
  pub object_name : Bytes
  pub success : Bool
  pub record_count : ℤ
  pub last_sync_time : ℤ
  pub watermark_value : ℤ

pub record ConsistencyViolation : Type 0 where
  pub type : ViolationType
  pub objects : List Bytes
  pub description : Bytes
  pub severity : Severity
  pub suggested_action : Bytes

pub record SyncConsistencyReport : Type 0 where
  pub source : Bytes
  pub object_results : Map ObjectResult
  pub violations : List ConsistencyViolation
  pub overall_status : ConsistencyStatus

-- `HasViolations`
unfoldable pub has_violations : SyncConsistencyReport → Bool
has_violations r = elim r.violations [ [] ↦ false | v ∷ vs ↦ true ]

unfoldable pub is_critical : Severity → Bool
is_critical critical = true
is_critical _ = false

unfoldable pub has_critical : List ConsistencyViolation → Bool
has_critical [] = false
has_critical (v ∷ vs) = if is_critical v.severity then true else has_critical vs

-- `HasCriticalViolations`
unfoldable pub has_critical_violations : SyncConsistencyReport → Bool
has_critical_violations r = has_critical r.violations

pub record ConsistencyTracker : Type 0 where
  pub source : Bytes
  pub relationships : Map (List Bytes)
  pub windows : Map ℤ
  pub max_staleness : ℤ

pub record ConsistencyConfig : Type 0 where
  pub relationships : Map (List Bytes)
  pub windows : Map Bytes
  pub max_staleness : Bytes

abbrev pub hours : ℕ → ℤ
hours n = pos (n * 3600000000000)

-- Those windows whose text `time.ParseDuration` reads.
unfoldable pub parsed_windows : (Bytes → Option ℤ) → Map Bytes → Map ℤ → Map ℤ
parsed_windows parse [] windows = windows
parsed_windows parse ((object, text) ∷ rest) windows = elim (parse text) [
  | some d ↦ parsed_windows parse rest (insert object d windows)
  | none ↦ parsed_windows parse rest windows
]

-- `NewConsistencyTracker`; the argument is `time.ParseDuration`.
unfoldable pub new_consistency_tracker :
    (Bytes → Option ℤ) → Bytes → ConsistencyConfig → ConsistencyTracker
new_consistency_tracker parse source config = record {
  source = source;
  relationships = config.relationships;
  windows = parsed_windows parse config.windows [];
  max_staleness = elim config.max_staleness [
    | [] ↦ hours 24
    | c ∷ text ↦ elim (parse (c ∷ text)) [ some d ↦ d | none ↦ hours 24 ]
  ];
}

-- `time.Time.Sub`: a difference that does not fit is the nearest duration.
unfoldable pub time_sub : ℤ → ℤ → ℤ
time_sub t u =
    let d = t -ℤ u in
    if ltb_ℤ (pos max_int64) d
    then pos max_int64
    else if ltb_ℤ d (negsuc max_int64)
    then negsuc max_int64
    else d

-- The distance that `checkTransactionBoundaryViolations` computes; `-d` on int64.
unfoldable pub sync_gap : ℤ → ℤ → ℤ
unfolding time_sub
sync_gap t u = let d = time_sub t u in if ltb_ℤ d (pos 0) then wrap64 (pos 0 -ℤ d) else d

-- `strings.Join(names, ", ")`
unfoldable pub join_names : List Bytes → Bytes
join_names [] = []
join_names (n ∷ []) = n
join_names (n ∷ (m ∷ ms)) = n ++ (codes ", " ++ join_names (m ∷ ms))

-- `determineWatermarkDriftSeverity`
unfoldable pub drift_severity : ℤ → Severity
drift_severity drift =
    if ltb_ℤ (hours 24) drift
    then critical
    else if ltb_ℤ (hours 12) drift
    then high
    else if ltb_ℤ (hours 6) drift
    then medium
    else low

-- The two flags of `calculateOverallStatus`.
unfoldable pub flags : List ConsistencyViolation → Bool → Bool → Bool × Bool
flags [] has_critical has_high = (has_critical, has_high)
flags (v ∷ vs) has_critical has_high = elim v.severity [
  | critical ↦ flags vs true has_high
  | high ↦ flags vs has_critical true
  | medium ↦ flags vs has_critical has_high
  | low ↦ flags vs has_critical has_high
]

-- `calculateOverallStatus`
unfoldable pub calculate_overall_status : List ConsistencyViolation → ConsistencyStatus
unfolding flags
calculate_overall_status [] = healthy
calculate_overall_status (v ∷ vs) =
    let (has_critical, has_high) = flags (v ∷ vs) false false in
    if has_critical then unhealthy else if has_high then degraded else degraded
