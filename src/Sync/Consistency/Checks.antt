-- ===== src/Sync/Consistency/Checks.antt =====
-- internal/sync/consistency.go: the checks and the report. The text of a duration, and the quotient of
-- two durations as `float64`, are parameters.
use agent_brain.Base.{
  ℕ, Bool, true, false, not, Option, none, some, List, [], ◌∷◌, ◌++◌, if◌then◌else◌, is_some,
  filter,
}
use agent_brain.Base.Int.{ℤ, pos, ltb_ℤ}
use agent_brain.Base.Bytes.{Bytes, codes}
use agent_brain.Base.Map.{Map, lookup, insert}
use agent_brain.Sync.Planner.{ObjectPlan, ObjectState}
use agent_brain.Sync.Consistency.{
  Severity, ObjectResult, ConsistencyViolation, SyncConsistencyReport, ConsistencyTracker, hours,
  time_sub, sync_gap, join_names, drift_severity, calculate_overall_status, staleness,
  missing_object, watermark_drift, transaction_boundary, low, medium, high, critical,
}

-- `text` prints a duration cut to whole seconds or not; `ratio_above d e k` is
-- `float64(d) / float64(e) > k / 2`.
module _ (ct : ConsistencyTracker) (text : Bool → ℤ → Bytes) (ratio_above : ℤ → ℤ → ℕ → Bool) where
  -- `determineStalenessServerity`
  unfoldable pub staleness_severity : ℤ → ℤ → Severity
  staleness_severity age max_age =
      if ratio_above age max_age 8
      then critical
      else if ratio_above age max_age 4
      then high
      else if ratio_above age max_age 3
      then medium
      else low

  unfoldable pub max_age : Bytes → ℤ
  max_age object = elim (lookup object ct.windows) [ some d ↦ d | none ↦ ct.max_staleness ]

  unfoldable pub stale : Bytes → ℤ → ConsistencyViolation
  stale object age = record {
    type = staleness;
    objects = object ∷ [];
    description =
        codes "Object "
        ++ (object
            ++ (codes " is stale (last sync: "
                ++ (text true age
                    ++ (codes " ago, max allowed: "
                        ++ (text false (max_age object) ++ codes ")")))));
    severity = staleness_severity age (max_age object);
    suggested_action = codes "Trigger immediate sync for " ++ object;
  }

  -- `checkStalenessViolations`, the clock read at `now`
  unfoldable pub check_staleness : ℤ → Map ObjectResult → List ConsistencyViolation
  check_staleness now [] = []
  check_staleness now ((object, result) ∷ rest) =
      let age = time_sub now result.last_sync_time in
      if ltb_ℤ (max_age object) age
      then stale object age ∷ check_staleness now rest
      else check_staleness now rest

  module _ (results : Map ObjectResult) where
    unfoldable pub missing_dependents : List Bytes → List Bytes
    missing_dependents dependents = filter (λ d. not (is_some (lookup d results))) dependents

    unfoldable pub missing : Bytes → List Bytes → List ConsistencyViolation
    missing parent [] = []
    missing parent (d ∷ ds) =
        record {
          type = missing_object;
          objects = parent ∷ (d ∷ ds);
          description =
              codes "Parent object "
              ++ (parent
                  ++ (codes " was synced but dependent objects are missing: "
                      ++ join_names (d ∷ ds)));
          severity = high;
          suggested_action = codes "Sync missing dependent objects: " ++ join_names (d ∷ ds);
        }
        ∷ []

    -- `checkMissingObjectViolations`
    unfoldable pub check_missing : Map (List Bytes) → List ConsistencyViolation
    check_missing [] = []
    check_missing ((parent, dependents) ∷ rest) =
        (if is_some (lookup parent results)
          then missing parent (missing_dependents dependents)
          else [])
        ++ check_missing rest

    unfoldable pub drifted : Bytes → Bytes → ℤ → ConsistencyViolation
    drifted parent dependent drift = record {
      type = watermark_drift;
      objects = parent ∷ (dependent ∷ []);
      description =
          codes "Watermark drift between "
          ++ (parent ++ (codes " and " ++ (dependent ++ (codes ": " ++ text true drift))));
      severity = drift_severity drift;
      suggested_action = codes "Sync " ++ (dependent ++ (codes " to catch up with " ++ parent));
    }

    unfoldable pub apart : Bytes → Bytes → ℤ → ConsistencyViolation
    apart parent dependent gap = record {
      type = transaction_boundary;
      objects = parent ∷ (dependent ∷ []);
      description =
          codes "Sync time gap between related objects "
          ++ (parent ++ (codes " and " ++ (dependent ++ (codes ": " ++ text true gap))));
      severity = medium;
      suggested_action =
          codes "Consider syncing related objects "
          ++ (parent ++ (codes " and " ++ (dependent ++ codes " closer together")));
    }

    -- What is wrong between a parent and a dependent that both have results.
    unfoldable pub drift_of :
        Bytes → ObjectResult → Bytes → ObjectResult → List ConsistencyViolation
    drift_of parent p dependent d =
        let drift = time_sub p.watermark_value d.watermark_value in
        if ltb_ℤ (hours 1) drift then drifted parent dependent drift ∷ [] else []

    unfoldable pub gap_of : Bytes → ObjectResult → Bytes → ObjectResult → List ConsistencyViolation
    gap_of parent p dependent d =
        let gap = sync_gap p.last_sync_time d.last_sync_time in
        if ltb_ℤ (hours 6) gap then apart parent dependent gap ∷ [] else []

    -- The two loops over the dependents of a parent and over the relationships, with what is checked.
    unfoldable pub each_dependent :
        (Bytes → ObjectResult → List ConsistencyViolation) → List Bytes → List ConsistencyViolation
    each_dependent check [] = []
    each_dependent check (d ∷ ds) =
        elim (lookup d results) [ some r ↦ check d r | none ↦ [] ] ++ each_dependent check ds

    unfoldable pub each_pair :
        (Bytes → ObjectResult → Bytes → ObjectResult → List ConsistencyViolation)
        → Map (List Bytes)
        → List ConsistencyViolation
    each_pair check [] = []
    each_pair check ((parent, dependents) ∷ rest) =
        elim (lookup parent results) [
          | some p ↦ each_dependent (check parent p) dependents
          | none ↦ []
        ]
        ++ each_pair check rest

    -- `checkWatermarkDriftViolations`
    unfoldable pub check_watermark_drift : List ConsistencyViolation
    check_watermark_drift = each_pair drift_of ct.relationships

    -- `checkTransactionBoundaryViolations`
    unfoldable pub check_transaction_boundary : List ConsistencyViolation
    check_transaction_boundary = each_pair gap_of ct.relationships

  -- The results of the plans; `fresh` gives the two readings of the clock for a plan.
  unfoldable pub object_results :
      (Bytes → ℤ × ℤ) → Map ObjectState → List ObjectPlan → Map ObjectResult → Map ObjectResult
  object_results fresh state [] results = results
  object_results fresh state (plan ∷ plans) results =
      object_results fresh state plans
        (insert plan.object_name (result_of (lookup plan.object_name state)) results)
    where
      result_of : Option ObjectState → ObjectResult
      result_of (some s) = record {
        object_name = plan.object_name;
        success = true;
        record_count = s.total_records;
        last_sync_time = s.last_sync_time;
        watermark_value = s.watermark_value;
      }
      result_of none = record {
        object_name = plan.object_name;
        success = true;
        record_count = pos 0;
        last_sync_time = (fresh plan.object_name).0;
        watermark_value = (fresh plan.object_name).1;
      }

  unfoldable pub find_violations : ℤ → Map ObjectResult → List ConsistencyViolation
  find_violations now results =
      ((check_staleness now results ++ check_missing results ct.relationships)
        ++ check_watermark_drift results)
      ++ check_transaction_boundary results

  -- `ValidateSync`
  unfoldable pub validate_sync :
      (Bytes → ℤ × ℤ) → ℤ → List ObjectPlan → Map ObjectState → SyncConsistencyReport
  validate_sync fresh now plans state =
      let results = object_results fresh state plans [] in
      record {
        source = ct.source;
        object_results = results;
        violations = find_violations now results;
        overall_status = calculate_overall_status (find_violations now results);
      }
