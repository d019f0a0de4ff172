-- ===== src/Sync/Engine/Validated.antt =====
-- internal/sync/engine.go: the validation of the batches of a sync.
use mathlib.Core.Path.{subst}
use mathlib.Core.List.{append_assoc, append-nil}
use agent_brain.Base.{
  ℕ, ◌≡◌, refl, sym, ap, ◌∙◌, inl, inr, Bool, false, ◌&&◌, Option, none, some, List, [], ◌∷◌, ◌++◌,
  Bool-cases, All,
}
use agent_brain.Base.Int.{ℤ}
use agent_brain.Base.Bytes.{Bytes}
use agent_brain.Base.Map.{Map}
use agent_brain.Retry.Errors.{Result, ok, err}
use agent_brain.Retry.Breaker.{CircuitBreaker}
use agent_brain.Retry.Executor.{Runtime}
use agent_brain.Retry.Executor.Rule.{Ends}
use agent_brain.Delta.Store.{S3Store, ◌>>=◌}
use agent_brain.Delta.Store.Rules.{Ends-of, bind-Ends}
use agent_brain.Delta.Table.{Managed}
use agent_brain.Delta.Table.Effect.{Ends_ok}
use agent_brain.Schema.{Schema}
use agent_brain.Sync.Planner.{ObjectPlan, ObjectState}
use agent_brain.Sync.Engine.Object.{
  Host, Progress, WrittenFile, BatchValidationResult, has_errors, no_progress, validate_batch,
  note_file, process_batch, process, extract, extraction_error, gather, initialize_table,
  sync_object,
}

module _ {R : Type 0} (validate : List R → Option Schema → BatchValidationResult)
    (schema : Option Schema) where
  -- The results for the batches that are not empty, in order.
  abbrev pub results_of : List (List R) → List BatchValidationResult
  results_of [] = []
  results_of ([] ∷ bs) = results_of bs
  results_of ((r ∷ rs) ∷ bs) = validate (r ∷ rs) schema ∷ results_of bs

-- In strict mode no result has an error.
abbrev pub IsAccepted : Bool → List BatchValidationResult → Type 0
IsAccepted strict = All (λ r. (has_errors r && strict) ≡ false)

module _ {R W : Type 0} (s : S3Store W) (host : Host R W) (unix_milli : W → ℤ) (source : Bytes)
    (strict : Bool) (plan : ObjectPlan) (validate : List R → Option Schema → BatchValidationResult)
    (valid : host.validator ≡ some validate) where
  abbrev HasChecked : Progress → List (List R) → Progress → Type 0
  HasChecked p bs q =
      (q.batch_results ≡ p.batch_results ++ results_of validate plan.schema bs)
      × IsAccepted strict (results_of validate plan.schema bs)

  abbrev Accepts : List R → List BatchValidationResult → List BatchValidationResult → Type 0
  Accepts batch before after =
      (after ≡ before ++ validate batch plan.schema ∷ [])
      × ((has_errors (validate batch plan.schema) && strict) ≡ false)

  validate_batch-Accepts :
      (batch : List R) (results : List BatchValidationResult) (w : W)
      → Ends
          (λ (_ : W). Unit {0})
          (λ after _. Accepts batch results after)
          (validate_batch s host unix_milli source strict plan host.validator batch results, w)
  unfolding validate_batch
  validate_batch-Accepts batch results w =
      rw valid (elim (Bool-cases (has_errors (validate batch plan.schema) && strict)) [
        | inl bad ↦ rw bad tt
        | inr good ↦ rw good (refl, refl)
      ])

  note_file-results :
      (p : Progress) (results : List BatchValidationResult) (t : ℤ) (f : Option WrittenFile)
      → (note_file s host unix_milli source strict plan p results t f).batch_results ≡ results
  unfolding note_file
  note_file-results p results t none = refl
  note_file-results p results t (some f) = refl

  anything : {A : Type 0} (p : Result A × W) → Ends (λ _. Unit {0}) (λ _ _. Unit {0}) p
  anything (ok a, w) = tt
  anything (err e, w) = tt

  process_batch-Accepts :
      (r : R) (rs : List R) (p : Progress) (w : W)
      → Ends
          (λ _. Unit {0})
          (λ q _. Accepts (r ∷ rs) p.batch_results q.batch_results)
          (process_batch s host unix_milli source strict plan (r ∷ rs) p w)
  unfolding process_batch
  process_batch-Accepts r rs p w =
      bind-Ends (λ _. Unit {0}) (λ after _. Accepts (r ∷ rs) p.batch_results after)
        (λ q _. Accepts (r ∷ rs) p.batch_results q.batch_results) _ _ w
        (validate_batch-Accepts (r ∷ rs) p.batch_results w)
        (λ results w₁ accepted.
          bind-Ends (λ _. Unit {0}) (λ _ _. Unit {0})
            (λ q _. Accepts (r ∷ rs) p.batch_results q.batch_results) _ _ w₁ (anything _)
            (λ written w₂ h.
              subst (Accepts (r ∷ rs) p.batch_results)
                (sym (note_file-results p results (unix_milli w₂) written)) accepted))

  process-HasChecked :
      (bs : List (List R)) (p : Progress) (w : W)
      → Ends
          (λ _. Unit {0})
          (λ q _. HasChecked p bs q)
          (process s host unix_milli source strict plan bs p w)
  unfolding process process_batch
  process-HasChecked [] p w = (sym (append-nil p.batch_results), tt)
  process-HasChecked ([] ∷ bs) p w =
      bind-Ends (λ _. Unit {0}) (λ q _. q ≡ p) (λ q _. HasChecked p ([] ∷ bs) q) _ _ w refl
        (λ q w' e. rw e (process-HasChecked bs p w'))
  process-HasChecked ((r ∷ rs) ∷ bs) p w =
      bind-Ends (λ _. Unit {0}) (λ q _. Accepts (r ∷ rs) p.batch_results q.batch_results)
        (λ q _. HasChecked p ((r ∷ rs) ∷ bs) q) _ _ w (process_batch-Accepts r rs p w)
        (λ q w₁ (noted, good).
          bind_mono (HasChecked q bs) (HasChecked p ((r ∷ rs) ∷ bs)) _ (process-HasChecked bs q w₁)
            (λ q' (more, rest). (
              more
                  ∙ ap (λ l. l ++ results_of validate plan.schema bs) noted
                  ∙ append_assoc p.batch_results (validate (r ∷ rs) plan.schema ∷ [])
                      (results_of validate plan.schema bs),
              (good, rest),
            )))
    where
      bind_mono :
          (P Q : Progress → Type 0) (x : Result Progress × W)
          → Ends (λ _. Unit {0}) (λ q _. P q) x
          → ((q : Progress) → P q → Q q)
          → Ends (λ _. Unit {0}) (λ q _. Q q) x
      bind_mono P Q (ok q, w) h k = k q h
      bind_mono P Q (err e, w) h k = tt

  gather-HasChecked :
      (objects : Map ObjectState) (w : W)
      → Ends
          (λ _. Unit {0})
          (λ p _.
            HasChecked no_progress
              (extract s host unix_milli source strict plan objects w).0.batches
              p)
          (gather s host unix_milli source strict plan objects w)
  unfolding gather
  gather-HasChecked objects w =
      let (stream, w₁) = extract s host unix_milli source strict plan objects w in
      let Checked : Progress → Type 0 = HasChecked no_progress stream.batches in
      bind-Ends (λ _. Unit {0}) (λ q _. Checked q) (λ q _. Checked q)
        (process s host unix_milli source strict plan stream.batches no_progress)
        (λ p.
          extraction_error s host unix_milli source strict plan stream.failure >>= λ _ v. (ok p, v))
        w₁ (process-HasChecked stream.batches no_progress w₁)
        (λ p w₂ h.
          bind-Ends (λ _. Unit {0}) (λ _ _. Unit {0}) (λ q _. Checked q) _ (λ _ v. (ok p, v)) w₂
            (anything _) (λ _ w₃ e. h))

  module _ (clock : W → ℕ) (rt : Runtime (CircuitBreaker × Managed W)) where
    -- When the sync of an object with a validator returns without an error, its results are those
    -- of the validator for the batches of the connector that are not empty, in order, and in strict
    -- mode none of them has an error.
    pub sync_object_validated :
        (objects : Map ObjectState) (w : W) (x : Map ObjectState × List BatchValidationResult)
        → (sync_object s host unix_milli source strict plan clock rt objects w).0 ≡ ok x
        → let batches =
            (extract s host unix_milli source strict plan objects
              (initialize_table s host unix_milli source strict plan clock rt w).1).0.batches in
          (x.1 ≡ results_of validate plan.schema batches)
          × IsAccepted strict (results_of validate plan.schema batches)
    unfolding sync_object no_progress
    sync_object_validated objects w x r =
        let init = initialize_table s host unix_milli source strict plan clock rt in
        let batches = (extract s host unix_milli source strict plan objects (init w).1).0.batches in
        let Good : Map ObjectState × List BatchValidationResult → Type 0 = λ y.
          (y.1 ≡ results_of validate plan.schema batches)
          × IsAccepted strict (results_of validate plan.schema batches) in
        Ends_ok (λ _. Unit {0}) (λ y _. Good y) _ x r
          (bind-Ends (λ _. Unit {0}) (λ _ w'. w' ≡ (init w).1) (λ y _. Good y) _ _ w
            (Ends-of (λ _. Unit {0}) (λ _ w'. w' ≡ (init w).1) (init w) (λ e q. tt) (λ a q. refl))
            (λ _ w₁ same.
              bind-Ends (λ _. Unit {0}) (λ p _. HasChecked no_progress batches p) (λ y _. Good y) _
                _ w₁
                (subst
                  (λ v.
                    Ends (λ _. Unit {0}) (λ p _. HasChecked no_progress batches p)
                      (gather s host unix_milli source strict plan objects v))
                  (sym same) (gather-HasChecked objects (init w).1))
                (λ p w₂ checked.
                  bind-Ends (λ _. Unit {0}) (λ _ _. Unit {0}) (λ y _. Good y) _ _ w₂ (anything _)
                    (λ objects' w₃ h. checked))))
