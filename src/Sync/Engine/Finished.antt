-- ===== src/Sync/Engine/Finished.antt =====
-- internal/sync/engine.go: what holds when `Run` returns no error.
use mathlib.Core.Path.{subst}
use agent_brain.Base.{
  ℕ, ◌≡◌, refl, ap, ◌∙◌, inl, inr, true, ◌&&◌, Option, none, some, List, [], ◌∷◌, ◌++◌, if_cases,
}
use agent_brain.Base.Int.{ℤ, pos, ◌+ℤ◌, wrap64}
use agent_brain.Base.Bytes.{Bytes, bytes_eq_refl}
use agent_brain.Base.Map.{Map}
use agent_brain.Retry.Errors.{Result, ok, err, is_err}
use agent_brain.Retry.Breaker
use agent_brain.Retry.Executor.{Runtime}
use agent_brain.Delta.Actions.{other}
use agent_brain.Delta.Store.{S3Store, context, wrap_error}
use agent_brain.Delta.Table.{Managed}
use agent_brain.Layout
use agent_brain.Sync.Planner.{ObjectMetadata, ObjectPlan}
use agent_brain.Sync.State.{SyncState, load, save}
use agent_brain.Sync.Recovery
use agent_brain.Sync.Recovery.{Failure, Site, Outcome, done, failed, panicked, execute_with_retry}
use agent_brain.Sync.Recovery.Resume.{ErrorAggregator, add, aggregate}
use agent_brain.Sync.Consistency.{
  ConsistencyTracker, SyncConsistencyReport, has_violations, has_critical_violations,
}
use agent_brain.Sync.Engine.Object.{Host, BatchValidationResult}
use agent_brain.Sync.Engine.Run.{
  Services, Settings, and_then, note_outcome, sync_plan, sync_plans, checked_at, settle_report,
  check_by, check_consistency, report_errors, finish, save_run, End, Running, connect_step,
  after_check, after_syncs, sync_all, run_connected, closing, after_connect, run,
}

-- `Q` holds of what is done; nothing is said of a failure or a panic.
abbrev pub Then : {A X : Type 0} → (A → X → Type 0) → Outcome A × X → Type 0
Then Q (done a, x) = Q a x
Then Q (failed f, x) = Unit
Then Q (panicked, x) = Unit

pub and_then-Then :
    {A B X : Type 0} (P : A → X → Type 0) (Q : B → X → Type 0) (p : Outcome A × X)
    (next : A → X → Outcome B × X)
    → Then P p
    → ((a : A) (x : X) → P a x → Then Q (next a x))
    → Then Q (and_then p next)
unfolding and_then
and_then-Then P Q (done a, x) next h k = k a x h
and_then-Then P Q (failed f, x) next h k = tt
and_then-Then P Q (panicked, x) next h k = tt

Then_done :
    {A X : Type 0} (Q : A → X → Type 0) (p : Outcome A × X) (a : A)
    → p.0 ≡ done a
    → Then Q p
    → Q a p.1
Then_done Q (done b, x) a e h = subst (λ c. Q c x) (done_inj b a e) h
  where
    done_inj : {A : Type 0} (u v : A) → done u ≡ done v → u ≡ v
    done_inj u v e = cc
Then_done Q (failed f, x) a e h = cc
Then_done Q (panicked, x) a e h = cc

module _ {R W : Type 0} (s : S3Store W) (host : Host R W) (services : Services W) (site : Site W)
    (unix_milli : W → ℤ) (clock : W → ℕ) (rt : Runtime (Breaker.CircuitBreaker × Managed W))
    (settings : Settings) where
  note_outcome-Grows :
      {X : Type 0} (errors : ErrorAggregator) (p : Outcome (Unit {0}) × X)
      → Then
          (λ es x. es ≡ [] → errors ≡ [])
          (note_outcome s host services site unix_milli clock rt settings errors p)
  unfolding note_outcome add
  note_outcome-Grows errors (done u, x) = λ e. e
  note_outcome-Grows errors (failed f, x) = λ e. absurd (not_empty errors e)
    where
      not_empty : (es : ErrorAggregator) → es ++ f ∷ [] ≡ [] → ⊥
      not_empty [] e = cc
      not_empty (g ∷ es) e = cc
  note_outcome-Grows errors (panicked, x) = tt

  sync_plans-Grows :
      (plans : List ObjectPlan) (errors : ErrorAggregator)
      (x : Running s host services site unix_milli clock rt settings)
      → Then
          (λ es x'. es ≡ [] → errors ≡ [])
          (sync_plans s host services site unix_milli clock rt settings plans errors x)
  unfolding sync_plans sync_plan
  sync_plans-Grows [] errors x = λ e. e
  sync_plans-Grows (p ∷ ps) errors x =
      and_then-Then (λ es x'. es ≡ [] → errors ≡ []) (λ es x'. es ≡ [] → errors ≡ []) _ _
        (note_outcome-Grows errors _)
        (λ es x' h.
          Then_mono (λ es' x''. es' ≡ [] → es ≡ []) (λ es' x''. es' ≡ [] → errors ≡ []) _
            (sync_plans-Grows ps es x') (λ es' x'' k e. h (k e)))
    where
      Then_mono :
          {A X : Type 0} (P Q : A → X → Type 0) (p : Outcome A × X)
          → Then P p
          → ((a : A) (x : X) → P a x → Q a x)
          → Then Q p
      Then_mono P Q (done a, x) h k = k a x h
      Then_mono P Q (failed f, x) h k = tt
      Then_mono P Q (panicked, x) h k = tt

  -- The bucket holds a state of the same source with one run more.
  abbrev pub Saved : SyncState → W → Type 0
  Saved loaded w =
      (st : SyncState) × (st.source ≡ loaded.source)
      × (st.run_count ≡ wrap64 (loaded.run_count +ℤ pos 1))
      × (s.contents w (Layout.sync_state loaded.source) ≡ some (other (host.json.state_text st)))

  -- A state that differs in neither.
  abbrev Alike : SyncState → SyncState → Type 0
  Alike a b = (a.source ≡ b.source) × (a.run_count ≡ b.run_count)

  settle_report-Alike :
      (report : SyncConsistencyReport) (state : SyncState) (w : W)
      → Then
          (λ st w'. Alike st state)
          (settle_report s host services site unix_milli clock rt settings report state w)
  unfolding settle_report checked_at
  settle_report-Alike report state w =
      if_cases (Then (λ st w'. Alike st state)) (has_violations report) _ _
        (if_cases (Then (λ st w'. Alike st state))
          (settings.fail_on_violation && has_critical_violations report) _ _ tt (refl, refl))
        (refl, refl)

  check_consistency-Alike :
      (plans : List ObjectPlan) (state : SyncState) (w : W)
      → Then
          (λ st w'. Alike st state)
          (check_consistency s host services site unix_milli clock rt settings plans state w)
  unfolding check_consistency check_by
  check_consistency-Alike plans state w = go settings.consistency
    where
      go :
          (tracker : Option ConsistencyTracker)
          → Then
              (λ st w'. Alike st state)
              (check_by s host services site unix_milli clock rt settings tracker plans state w)
      go none = (refl, refl)
      go (some tracker) = settle_report-Alike _ state _

  finish-Then :
      (errors : ErrorAggregator) (K : W → Type 0) (r : Result (Unit {0}) × W)
      → ((u : Unit {0}) → r.0 ≡ ok u → K r.1)
      → Then
          (λ _ w. (errors ≡ []) × K w)
          (finish s host services site unix_milli clock rt settings errors r)
  unfolding finish report_errors aggregate
  finish-Then [] K (ok u, w) h = (refl, h u refl)
  finish-Then (f ∷ []) K (ok u, w) h = tt
  finish-Then (f ∷ (g ∷ fs)) K (ok u, w) h = tt
  finish-Then errors K (err e, w) h = tt

  save-stores :
      (st : SyncState) (w : W) (u : Unit {0})
      → (save s host.json st w).0 ≡ ok u
      → s.contents (save s host.json st w).1 (Layout.sync_state st.source)
        ≡ some (other (host.json.state_text st))
  unfolding save context
  save-stores st w u e =
      elim (s.upload_writes (Layout.sync_state st.source) (other (host.json.state_text st)) w) [
        | inl wrote ↦ rw (wrote, bytes_eq_refl (Layout.sync_state st.source)) refl
        | inr (failure, same) ↦ absurd (contradiction _ _ e failure)
      ]
    where
      contradiction :
          (text : Bytes) (r : Result (Unit {0})) → wrap_error text r ≡ ok u → is_err r ≡ true → ⊥
      contradiction text (ok v) e h = cc
      contradiction text (err x) e h = cc

  save_run-Saved :
      (errors : ErrorAggregator) (state loaded : SyncState) (w : W)
      → Alike state loaded
      → Then
          (λ _ w'. (errors ≡ []) × Saved loaded w')
          (save_run s host services site unix_milli clock rt settings errors state w)
  unfolding save_run
  save_run-Saved errors state loaded w (same, count) =
      let st : SyncState = record state {
        last_run_at = (host.now w).0;
        run_count = wrap64 (state.run_count +ℤ pos 1);
      } in
      finish-Then errors (Saved loaded) (save s host.json st (host.now w).1) (λ u e. (
        st,
        same,
        ap (λ n. wrap64 (n +ℤ pos 1)) count,
        subst
            (λ src.
              s.contents (save s host.json st (host.now w).1).1 (Layout.sync_state src)
              ≡ some (other (host.json.state_text st)))
            same (save-stores st (host.now w).1 u e),
      ))

  -- The errors that the engine has kept are none, and the state is saved.
  abbrev Finishes :
      SyncState → ErrorAggregator → End s host services site unix_milli clock rt settings → Type 0
  Finishes loaded before (errors, (cb, w)) = (errors ≡ []) × (before ≡ []) × Saved loaded w

  after_check-Finishes :
      (before errors : ErrorAggregator) (cb : Recovery.Breaker.CircuitBreaker)
      (results : Map (List BatchValidationResult)) (loaded : SyncState) (r : Outcome SyncState × W)
      → (errors ≡ [] → before ≡ [])
      → Then (λ st w. Alike st loaded) r
      → Then
          (λ _. Finishes loaded before)
          (after_check s host services site unix_milli clock rt settings errors cb results r)
  unfolding after_check
  after_check-Finishes before errors cb results loaded (done st, w) grows alike =
      go _ (save_run-Saved errors st loaded (services.report_validation results w) alike)
    where
      go :
          (r : Outcome (Unit {0}) × W)
          → Then (λ _ w'. (errors ≡ []) × Saved loaded w') r
          → Then (λ _. Finishes loaded before) (r.0, (errors, (cb, r.1)))
      go (done u, w') (none_left, saved) = (none_left, grows none_left, saved)
      go (failed f, w') h = tt
      go (panicked, w') h = tt
  after_check-Finishes before errors cb results loaded (failed f, w) grows alike = tt
  after_check-Finishes before errors cb results loaded (panicked, w) grows alike = tt

  after_syncs-Finishes :
      (before : ErrorAggregator) (plans : List ObjectPlan) (loaded : SyncState)
      (r : Outcome ErrorAggregator × Running s host services site unix_milli clock rt settings)
      → Then (λ es x. es ≡ [] → before ≡ []) r
      → Then
          (λ _. Finishes loaded before)
          (after_syncs s host services site unix_milli clock rt settings before plans loaded r)
  unfolding after_syncs
  after_syncs-Finishes before plans loaded (done errors, (cb, ((objects, results), w))) grows =
      after_check-Finishes before errors cb results loaded _ grows
        (check_consistency-Alike plans (record loaded { objects = objects }) w)
  after_syncs-Finishes before plans loaded (failed f, (cb, (shared, w))) grows = tt
  after_syncs-Finishes before plans loaded (panicked, (cb, (shared, w))) grows = tt

  sync_all-Finishes :
      (before : ErrorAggregator) (loaded : SyncState)
      (r : Outcome (List ObjectMetadata) × (Recovery.Breaker.CircuitBreaker × W))
      → Then
          (λ _. Finishes loaded before)
          (sync_all s host services site unix_milli clock rt settings before loaded r)
  unfolding sync_all
  sync_all-Finishes before loaded (done metas, (cb, w)) =
      after_syncs-Finishes before _ loaded _ (sync_plans-Grows _ before _)
  sync_all-Finishes before loaded (failed f, x) = tt
  sync_all-Finishes before loaded (panicked, x) = tt

  module _ (close_keeps : (w : W) → s.contents (services.close w) ≡ s.contents w) where
    closing-Finishes :
        (before : ErrorAggregator) (loaded : SyncState)
        (r : Outcome (Unit {0}) × End s host services site unix_milli clock rt settings)
        → Then (λ _. Finishes loaded before) r
        → Then
            (λ _. Finishes loaded before)
            (closing s host services site unix_milli clock rt settings r)
    unfolding closing
    closing-Finishes before loaded (done u, (errors, (cb, w))) (none_left, old, (st, e, e', held)) =
        (
          none_left,
          old,
          (st, e, e', ap (λ c. c (Layout.sync_state loaded.source)) (close_keeps w) ∙ held),
        )
    closing-Finishes before loaded (failed f, x) h = tt
    closing-Finishes before loaded (panicked, x) h = tt

    -- The state that the run loads, once it is connected.
    abbrev pub loaded_by : Recovery.Breaker.CircuitBreaker × W → SyncState
    loaded_by x =
        (load s host.json settings.source
          (connect_step s host services site unix_milli clock rt settings x).1.1).0

    -- Run returns no error only if the aggregator of errors, which the engine keeps, was empty
    -- before the run and is empty after it; then the bucket holds, at the key of the state that the
    -- run loaded, the text of a state of the same source whose count of runs is one more, as an
    -- int64. The condition is that closing the connector leaves the bucket alone.
    pub run_finishes :
        (errors : ErrorAggregator) (x : Recovery.Breaker.CircuitBreaker × W)
        → (run s host services site unix_milli clock rt settings (errors, x)).0 ≡ done tt
        → let after = (run s host services site unix_milli clock rt settings (errors, x)).1 in
          (after.0 ≡ []) × (errors ≡ []) × Saved (loaded_by x) after.1.1
    unfolding run after_connect run_connected
    run_finishes errors x e =
        Then_done (λ _. Finishes (loaded_by x) errors) _ tt e
          (go (connect_step s host services site unix_milli clock rt settings x))
      where
        go :
            (r : Outcome (Unit {0}) × (Recovery.Breaker.CircuitBreaker × W))
            → Then
                (λ _. Finishes (load s host.json settings.source r.1.1).0 errors)
                (after_connect s host services site unix_milli clock rt settings errors r)
        go (done u, (cb, w)) =
            closing-Finishes errors (load s host.json settings.source w).0 _
              (sync_all-Finishes errors (load s host.json settings.source w).0 _)
        go (failed f, x) = tt
        go (panicked, x) = tt
