-- ===== src/Sync/Recovery/Resume.antt =====
-- internal/sync/recovery.go: `ResumeFailedSyncs` and the store of recovery states on the object store;
-- internal/sync/errors.go: the aggregator of errors. The aggregator's lock makes each call one step.
use agent_brain.Base.{
  Bool, true, false, Option, none, some, List, [], ◌∷◌, ◌++◌, if◌then◌else◌, length,
}
use agent_brain.Base.Bytes.{Bytes, codes}
use agent_brain.Base.Decimal.{decimal}
use agent_brain.Sync.Recovery.{
  Failure, plain, wrapping, failure_text, RecoveryState, RecoveryConfig, Site, can_retry,
}

-- Errors as `%v` prints a slice of them.
unfoldable pub spaced : List Failure → Bytes
spaced [] = []
spaced (f ∷ []) = failure_text f
spaced (f ∷ (g ∷ fs)) = failure_text f ++ (codes " " ++ spaced (g ∷ fs))

unfoldable pub listed : List Failure → Bytes
listed fs = codes "[" ++ (spaced fs ++ codes "]")

-- `ErrorAggregator`, the errors in the order in which they were added.
abbrev pub ErrorAggregator : Type 0
ErrorAggregator = List Failure

-- `Add`; none is the nil error.
unfoldable pub add : Option Failure → ErrorAggregator → ErrorAggregator
add none errors = errors
add (some f) errors = errors ++ (f ∷ [])

unfoldable pub has_errors : ErrorAggregator → Bool
has_errors [] = false
has_errors (f ∷ fs) = true

-- `Error`
unfoldable pub aggregate : ErrorAggregator → Option Failure
aggregate [] = none
aggregate (f ∷ []) = some f
aggregate (f ∷ (g ∷ fs)) = some (
    plain (
      codes "multiple sync errors ("
      ++ (decimal (length (f ∷ (g ∷ fs))) ++ (codes " total): " ++ listed (f ∷ (g ∷ fs))))))

module _ {W : Type 0} (site : Site W) (config : RecoveryConfig) where
  -- What one state adds to the errors.
  unfoldable pub resume_one : RecoveryState → List Failure → W → List Failure × W
  resume_one state errors w =
      let (ready, w') = can_retry site config state w in
      let (failed, w'') = site.delete state.source state.object w' in
      if ready
      then elim failed [
        | none ↦ (errors, w'')
        | some f ↦ (
          errors
              ++ (wrapping
                    (codes "delete stale recovery state for "
                      ++ (state.source ++ (codes "/" ++ state.object)))
                    f
                  ∷ []),
          w'',
        )
      ]
      else (errors, w')

  -- The loop of `ResumeFailedSyncs`.
  unfoldable pub resume_all : List RecoveryState → List Failure → W → List Failure × W
  resume_all [] errors w = (errors, w)
  resume_all (state ∷ states) errors w =
      let (errors', w') = resume_one state errors w in resume_all states errors' w'

  -- `ResumeFailedSyncs`; the error of the store, if the listing failed, has a text of its own.
  unfoldable pub resume_failed_syncs : Failure → Bytes → W → Option Failure × W
  resume_failed_syncs list_error source w =
      let (states, w') = site.list source w in
      elim states [
        | none ↦ (some (wrapping (codes "list recovery states") list_error), w')
        | some found ↦
            let (errors, w'') = resume_all found [] w' in
            elim errors [
              | [] ↦ (none, w'')
              | f ∷ fs ↦ (some (plain (codes "resume errors: " ++ listed (f ∷ fs))), w'')
            ]
      ]
