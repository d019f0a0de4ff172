-- ===== src/Sync/Engine/Run.antt =====
-- internal/sync/engine.go: `Run`, one cycle of syncs of a source. The objects are synced one after
-- another, in the order in which they get to run; what two of them do at the same time is not
-- modelled. The tracing, the log lines and the correlation ids are left out.
use agent_brain.Base.{
  ℕ, Bool, true, false, ◌&&◌, Option, none, some, List, [], ◌∷◌, ◌++◌, if◌then◌else◌, length,
}
use agent_brain.Base.Int.{ℤ, pos, ◌+ℤ◌, wrap64}
use agent_brain.Base.Bytes.{Bytes, codes}
use agent_brain.Base.Map.{Map, lookup, insert}
use agent_brain.Base.Decimal.{decimal}
use agent_brain.Retry.Errors.{error_text, Result, ok, err}
use agent_brain.Retry.Breaker
use agent_brain.Retry.Executor.{Runtime, Operation}
use agent_brain.Delta.Actions.{other}
use agent_brain.Delta.Store.{S3Store}
use agent_brain.Delta.Table.{Managed}
use agent_brain.Layout
use agent_brain.Sync.Planner.{
  SyncMode, full, incremental, skip, ObjectMetadata, ObjectState, ObjectPlan, plan,
}
use agent_brain.Sync.State.{SyncState, load, save}
use agent_brain.Sync.Recovery
use agent_brain.Sync.Recovery.{
  SyncPhase, connect, discover, extract, Failure, plain, sync_error, wrapping, new_sync_error,
  RecoveryState, RecoveryConfig, Site, Outcome, done, failed, panicked, execute_with_retry,
}
use agent_brain.Sync.Recovery.Resume.{ErrorAggregator, add, aggregate}
use agent_brain.Sync.Consistency.{
  ConsistencyTracker, ConsistencyViolation, SyncConsistencyReport, has_violations,
  has_critical_violations,
}
use agent_brain.Sync.Consistency.Checks.{validate_sync}
use agent_brain.Sync.Engine.Object.{Host, BatchValidationResult, sync_object}

-- The connector's other methods, the reports that are only stored, whose errors are logged, and the
-- texts of the catalog and of durations, with the quotient of two of these.
pub record Services (W : Type 0) : Type 0 where
  pub connect_source : Operation W (Unit {0})
  pub close : W → W
  pub discover_metadata : Operation W (List ObjectMetadata)
  pub describe_object : Bytes → Operation W ObjectMetadata
  pub catalog_text : List ObjectMetadata → Bytes
  pub fresh : W → Bytes → ℤ × ℤ
  pub duration_text : Bool → ℤ → Bytes
  pub ratio_above : ℤ → ℤ → ℕ → Bool
  pub store_report : SyncConsistencyReport → W → W
  pub report_validation : Map (List BatchValidationResult) → W → W

-- The settings of an engine.
pub record Settings : Type 0 where
  pub source : Bytes
  pub objects : List Bytes
  pub recovery : RecoveryConfig
  pub consistency : Option ConsistencyTracker
  pub fail_on_violation : Bool
  pub strict : Bool

-- What the syncs of the objects share: the states, and the results of the validation.
abbrev pub Shared : Type 0
Shared = Map ObjectState × Map (List BatchValidationResult)

-- The same services beside what is shared.
abbrev pub beside : {W X : Type 0} → (W → X × W) → Shared × W → X × (Shared × W)
beside m (shared, w) = let (x, w') = m w in (x, (shared, w'))

unfoldable pub shared_site : {W : Type 0} → Site W → Site (Shared × W)
shared_site site = record {
  now = beside site.now;
  jitter = λ d. beside (site.jitter d);
  wait = λ d. beside (site.wait d);
  load = λ source object. beside (site.load source object);
  save = λ rs. beside (site.save rs);
  delete = λ source object. beside (site.delete source object);
  list = λ source. beside (site.list source);
  monotone = λ (shared, w). site.monotone w;
}

-- The next step after one that was done.
unfoldable pub and_then : {A B X : Type 0} → Outcome A × X → (A → X → Outcome B × X) → Outcome B × X
and_then (done a, x) next = next a x
and_then (failed f, x) next = (failed f, x)
and_then (panicked, x) next = (panicked, x)

-- `fmt.Errorf("text: %w", err)`
unfoldable pub wrap_failure : {A X : Type 0} → Bytes → Outcome A × X → Outcome A × X
wrap_failure text (done a, x) = (done a, x)
wrap_failure text (failed f, x) = (failed (wrapping text f), x)
wrap_failure text (panicked, x) = (panicked, x)

-- A call whose error becomes a `SyncError` that may be tried again.
unfoldable pub sync_failure : {A X : Type 0} → SyncPhase → Bytes → Result A × X → Outcome A × X
unfolding new_sync_error
sync_failure phase object (ok a, x) = (done a, x)
sync_failure phase object (err e, x) =
    (failed (sync_error (new_sync_error phase object (plain (error_text e)) true)), x)

unfoldable pub is_skipped : SyncMode → Bool
is_skipped full = false
is_skipped incremental = false
is_skipped skip = true

module _ {R W : Type 0} (s : S3Store W) (host : Host R W) (services : Services W) (site : Site W)
    (unix_milli : W → ℤ) (clock : W → ℕ) (rt : Runtime (Breaker.CircuitBreaker × Managed W))
    (settings : Settings) where
  -- The loop that plans the objects: one that cannot be described is passed over.
  note_plan : Option ObjectState → Result ObjectMetadata → List ObjectPlan → List ObjectPlan
  note_plan state (err e) plans = plans
  note_plan state (ok detailed) plans =
      let p = plan host.hasher detailed state settings.objects in
      if is_skipped p.mode then plans else p ∷ plans

  unfoldable pub plan_objects : Map ObjectState → List ObjectMetadata → W → List ObjectPlan × W
  unfolding note_plan
  plan_objects objects [] w = ([], w)
  plan_objects objects (meta ∷ metas) w =
      let (detailed, w') = services.describe_object meta.name w in
      let (plans, w'') = plan_objects objects metas w' in
      (note_plan (lookup meta.name objects) detailed plans, w'')

  -- `syncObjectOp`
  keep_results :
      Bytes
      → Shared
      → Result (Map ObjectState × List BatchValidationResult) × W
      → Outcome (Unit {0}) × (Shared × W)
  unfolding sync_failure
  keep_results object (objects, results) (ok (objects', batch_results), w) =
      (done tt, ((objects', insert object batch_results results), w))
  keep_results object shared (err e, w) = sync_failure extract object (err e, (shared, w))

  unfoldable pub sync_object_op : ObjectPlan → Shared × W → Outcome (Unit {0}) × (Shared × W)
  unfolding keep_results
  sync_object_op p ((objects, results), w) =
      keep_results p.object_name (objects, results)
        (sync_object s host unix_milli settings.source settings.strict p clock rt objects w)

  -- What becomes of the outcome of an object's sync.
  unfoldable pub note_outcome :
      {X : Type 0} → ErrorAggregator → Outcome (Unit {0}) × X → Outcome ErrorAggregator × X
  note_outcome errors (done u, x) = (done errors, x)
  note_outcome errors (failed f, x) = (done (add (some f) errors), x)
  note_outcome errors (panicked, x) = (panicked, x)

  abbrev pub Running : Type 0
  Running = Recovery.Breaker.CircuitBreaker × (Shared × W)

  unfoldable pub sync_plan :
      ObjectPlan → ErrorAggregator → Running → Outcome ErrorAggregator × Running
  unfolding note_outcome
  sync_plan p errors x = note_outcome errors (
      execute_with_retry (shared_site site) settings.recovery settings.source p.object_name extract
        (sync_object_op p) tt x)

  unfoldable pub sync_plans :
      List ObjectPlan → ErrorAggregator → Running → Outcome ErrorAggregator × Running
  sync_plans [] errors x = (done errors, x)
  sync_plans (p ∷ ps) errors x =
      and_then (sync_plan p errors x) (λ errors' x'. sync_plans ps errors' x')

  -- The check of consistency: the state with what it found, or the failure that it asks for.
  unfoldable pub checked_at : List ConsistencyViolation → SyncState → ℤ → SyncState
  checked_at violations state now = record state {
    last_consistency_check = now;
    consistency_violations = violations;
  }

  unfoldable pub settle_report : SyncConsistencyReport → SyncState → W → Outcome SyncState × W
  unfolding checked_at
  settle_report report state w =
      if has_violations report
      then (let (now, w') = host.now (services.store_report report w) in
          if settings.fail_on_violation && has_critical_violations report
          then (
            failed (
                plain (
                  codes "sync failed due to critical consistency violations: "
                  ++ (decimal (length report.violations) ++ codes " violations detected"))),
            w',
          )
          else (done (checked_at report.violations state now), w'))
      else (let (now, w') = host.now w in (done (checked_at [] state now), w'))

  unfoldable pub check_by :
      Option ConsistencyTracker → List ObjectPlan → SyncState → W → Outcome SyncState × W
  unfolding settle_report
  check_by none plans state w = (done state, w)
  check_by (some tracker) plans state w =
      let (now, w') = host.now w in
      settle_report
        (validate_sync tracker services.duration_text services.ratio_above (services.fresh w') now
          plans state.objects)
        state w'

  unfoldable pub check_consistency : List ObjectPlan → SyncState → W → Outcome SyncState × W
  unfolding check_by
  check_consistency = check_by settings.consistency

  -- The last steps: the state is saved, and the errors of the objects are reported.
  unfoldable pub report_errors : ErrorAggregator → Option Failure → Outcome (Unit {0})
  report_errors errors none = done tt
  report_errors errors (some f) =
      failed
        (wrapping (codes "sync failed with " ++ (decimal (length errors) ++ codes " errors")) f)

  unfoldable pub finish : ErrorAggregator → Result (Unit {0}) × W → Outcome (Unit {0}) × W
  unfolding report_errors
  finish errors (err e, w) = (failed (wrapping (codes "save state") (plain (error_text e))), w)
  finish errors (ok u, w) = (report_errors errors (aggregate errors), w)

  unfoldable pub save_run : ErrorAggregator → SyncState → W → Outcome (Unit {0}) × W
  unfolding finish
  save_run errors state w =
      let (now, w') = host.now w in
      finish errors (
        save s host.json
          (record state { last_run_at = now; run_count = wrap64 (state.run_count +ℤ pos 1) }) w')

  -- How a run ends: with the aggregator and the breaker, which the engine keeps.
  abbrev pub End : Type 0
  End = ErrorAggregator × (Recovery.Breaker.CircuitBreaker × W)

  unfoldable pub connect_step :
      Recovery.Breaker.CircuitBreaker × W
      → Outcome (Unit {0}) × (Recovery.Breaker.CircuitBreaker × W)
  unfolding sync_failure wrap_failure
  connect_step x = wrap_failure (codes "connect to " ++ settings.source) (
      execute_with_retry site settings.recovery settings.source (codes "connection") connect
        (λ w. sync_failure connect [] (services.connect_source w)) tt x)

  unfoldable pub discover_step :
      Recovery.Breaker.CircuitBreaker × W
      → Outcome (List ObjectMetadata) × (Recovery.Breaker.CircuitBreaker × W)
  unfolding sync_failure wrap_failure
  discover_step x = wrap_failure (codes "discover metadata") (
      execute_with_retry site settings.recovery settings.source (codes "discovery") discover
        (λ w. sync_failure discover [] (services.discover_metadata w)) [] x)

  -- From the check of consistency to the end.
  unfoldable pub after_check :
      ErrorAggregator
      → Recovery.Breaker.CircuitBreaker
      → Map (List BatchValidationResult)
      → Outcome SyncState × W
      → Outcome (Unit {0}) × End
  unfolding save_run
  after_check errors cb results (done state, w) =
      let (r, w') = save_run errors state (services.report_validation results w) in
      (r, (errors, (cb, w')))
  after_check errors cb results (failed f, w) = (failed f, (errors, (cb, w)))
  after_check errors cb results (panicked, w) = (panicked, (errors, (cb, w)))

  unfoldable pub after_syncs :
      ErrorAggregator
      → List ObjectPlan
      → SyncState
      → Outcome ErrorAggregator × Running
      → Outcome (Unit {0}) × End
  unfolding after_check check_consistency
  after_syncs before plans state (done errors, (cb, ((objects, results), w))) =
      after_check errors cb results (check_consistency plans (record state { objects = objects }) w)
  after_syncs before plans state (failed f, (cb, (shared, w))) = (failed f, (before, (cb, w)))
  after_syncs before plans state (panicked, (cb, (shared, w))) = (panicked, (before, (cb, w)))

  -- From the discovered objects to the end.
  unfoldable pub sync_all :
      ErrorAggregator
      → SyncState
      → Outcome (List ObjectMetadata) × (Recovery.Breaker.CircuitBreaker × W)
      → Outcome (Unit {0}) × End
  unfolding after_syncs plan_objects sync_plans
  sync_all errors state (done metas, (cb, w)) =
      let w₁ =
        (s.upload (Layout.catalog settings.source) (other (services.catalog_text metas)) w).1 in
      let (plans, w₂) = plan_objects state.objects metas w₁ in
      after_syncs errors plans state (sync_plans plans errors (cb, ((state.objects, []), w₂)))
  sync_all errors state (failed f, x) = (failed f, (errors, x))
  sync_all errors state (panicked, x) = (panicked, (errors, x))

  unfoldable pub run_connected :
      ErrorAggregator → Recovery.Breaker.CircuitBreaker × W → Outcome (Unit {0}) × End
  unfolding sync_all discover_step load
  run_connected errors (cb, w) =
      let (state, w') = load s host.json settings.source w in
      sync_all errors state (discover_step (cb, w'))

  -- The deferred `Close`.
  unfoldable pub closing : Outcome (Unit {0}) × End → Outcome (Unit {0}) × End
  closing (r, (errors, (cb, w))) = (r, (errors, (cb, services.close w)))

  unfoldable pub after_connect :
      ErrorAggregator
      → Outcome (Unit {0}) × (Recovery.Breaker.CircuitBreaker × W)
      → Outcome (Unit {0}) × End
  unfolding run_connected closing
  after_connect errors (done u, x) = closing (run_connected errors x)
  after_connect errors (failed f, x) = (failed f, (errors, x))
  after_connect errors (panicked, x) = (panicked, (errors, x))

  -- `Run`
  unfoldable pub run : End → Outcome (Unit {0}) × End
  unfolding after_connect connect_step
  run (errors, x) = after_connect errors (connect_step x)
