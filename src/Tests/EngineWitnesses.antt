-- ===== src/Tests/EngineWitnesses.antt =====
-- The theorems on the sync engine at a concrete input.
use agent_brain.Base.{◌≡◌, refl, true, []}
use agent_brain.Base.Int.{pos}
use agent_brain.Base.Bytes.{codes}
use agent_brain.Sync.Recovery.Resume.{ErrorAggregator}
use agent_brain.Sync.Engine.Object.{initialize_table, extract}
use agent_brain.Sync.Engine.Validated.{results_of, IsAccepted, sync_object_validated}
use agent_brain.Sync.Engine.Run.{run}
use agent_brain.Sync.Engine.Finished.{Saved, loaded_by, run_finishes}
use agent_brain.Tests.Memory.{memory, calm}
use agent_brain.Tests.EngineRuns.{
  host, first_plan, synced, value_of, sync_run, judge, site, services, settings, sync_breaker,
  engine_run,
}

sync_object_validated_example :
    let batches =
      (extract memory host
        (λ b. pos 5)
        (codes "s")
        true
        first_plan
        []
        (initialize_table memory host
          (λ b. pos 5)
          (codes "s")
          true
          first_plan
          (λ b. 1000)
          calm
          []).1).0.batches in
    ((value_of ([], []) synced).1 ≡ results_of judge first_plan.schema batches)
    × IsAccepted true (results_of judge first_plan.schema batches)
sync_object_validated_example =
    sync_object_validated memory host (λ b. pos 5) (codes "s") true first_plan judge refl
      (λ b. 1000) calm [] [] (value_of ([], []) synced) sync_run

abbrev no_errors : ErrorAggregator
no_errors = []

run_finishes_example :
    let after =
      (run memory host services site
        (λ b. pos 5)
        (λ b. 1000)
        calm
        settings
        ([], (sync_breaker, []))).1 in
    (after.0 ≡ [])
    × (no_errors ≡ [])
    × Saved memory host services site
        (λ b. pos 5)
        (λ b. 1000)
        calm
        settings
        (loaded_by memory host services site
          (λ b. pos 5)
          (λ b. 1000)
          calm
          settings
          (λ b. refl)
          (sync_breaker, []))
        after.1.1
run_finishes_example =
    run_finishes memory host services site (λ b. pos 5) (λ b. 1000) calm settings (λ b. refl) []
      (sync_breaker, []) engine_run
