-- ===== src/Sync/Engine/Written.antt =====
-- internal/sync/engine.go: what the loop over the batches has written when it ends.
use mathlib.Core.List.{append_assoc, append-nil}
use agent_brain.Base.{
  ℕ, ◌+◌, ◌≡◌, refl, sym, ap, ◌∙◌, inl, inr, Bool, true, Option, some, List, [], ◌∷◌, ◌++◌, length,
  is_some, if_cases,
}
use agent_brain.Base.Int.{ℤ, pos}
use agent_brain.Base.Bytes.{Bytes, bytes_eq, bytes_eq_refl}
use agent_brain.Retry.Errors.{Result, ok, err, is_err}
use agent_brain.Retry.Executor.Rule.{Ends}
use agent_brain.Delta.Actions.{Action, Object, new_add_action}
use agent_brain.Delta.Store.{S3Store, Contents, write}
use agent_brain.Delta.Store.Rules.{Ends-of, bind-Ends, context-Ends}
use agent_brain.Delta.Table.Effect.{Ends_ok}
use agent_brain.Schema.{Schema}
use agent_brain.Sync.Planner.{ObjectPlan}
use agent_brain.Layout.{parquet_file}
use agent_brain.Sync.Engine.Object.{
  Host, Progress, WrittenFile, BatchValidationResult, row_stats, write_file, write_records,
  validate_batch, note_file, process_batch, process,
}
use agent_brain.Sync.Engine.Files.{IsQuiet, process-Keeps}

-- A key at which there is a file.
abbrev pub IsStored : Bytes → Contents → Type 0
IsStored k c = is_some (c k) ≡ true

pub IsStored-write :
    (j k : Bytes) (o : Object) (c : Contents) → IsStored j c → IsStored j (write k o c)
IsStored-write j k o c h =
    if_cases (λ (x : Option Object). is_some x ≡ true) (bytes_eq k j) _ _ refl h

-- The action adds a file of the bucket with as many rows as the batch has records.
abbrev pub Adds : {R : Type 0} → Bytes → Bytes → Contents → List R → Action → Type 0
Adds source object c batch a =
    (name : Bytes) × (size : ℤ) × (time : ℤ) × (a
      ≡ new_add_action name size (row_stats (pos (length batch))) time)
    × IsStored (parquet_file source object name) c

-- One such action for each batch that is not empty, in order.
abbrev pub IsWritten :
    {R : Type 0} → Bytes → Bytes → Contents → List (List R) → List Action → Type 0
IsWritten source object c [] [] = Unit
IsWritten source object c [] (a ∷ acts) = ⊥
IsWritten source object c ([] ∷ bs) acts = IsWritten source object c bs acts
IsWritten source object c ((r ∷ rs) ∷ bs) [] = ⊥
IsWritten source object c ((r ∷ rs) ∷ bs) (a ∷ acts) =
    Adds source object c (r ∷ rs) a × IsWritten source object c bs acts

pub IsWritten-mono :
    {R : Type 0} (source object : Bytes) (c c' : Contents) (bs : List (List R)) (acts : List Action)
    → ((k : Bytes) → IsStored k c → IsStored k c')
    → IsWritten source object c bs acts
    → IsWritten source object c' bs acts
IsWritten-mono source object c c' [] [] keep h = tt
IsWritten-mono source object c c' [] (a ∷ acts) keep h = h
IsWritten-mono source object c c' ([] ∷ bs) acts keep h =
    IsWritten-mono source object c c' bs acts keep h
IsWritten-mono source object c c' ((r ∷ rs) ∷ bs) [] keep h = h
IsWritten-mono source object c c' ((r ∷ rs) ∷ bs) (a ∷ acts) keep ((n, z, t, e, st), h) =
    ((n, z, t, e, keep _ st), IsWritten-mono source object c c' bs acts keep h)

-- The records of all batches.
abbrev pub rows : {R : Type 0} → List (List R) → ℕ
rows [] = 0
rows (b ∷ bs) = length b + rows bs

module _ {R W : Type 0} (s : S3Store W) (host : Host R W) where
  -- A file with these rows, which is in the bucket.
  abbrev Holds : Bytes → Bytes → List R → Option WrittenFile → W → Type 0
  Holds source object batch written w =
      (f : WrittenFile) × (written ≡ some f)
      × (f.num_rows ≡ pos (length batch))
      × IsStored (parquet_file source object f.filename) (s.contents w)

  -- A step that only has a result.
  result-Ends :
      {A : Type 0} (r : Result A) (w : W)
      → Ends (λ (_ : W). Unit {0}) (λ (_ : A) _. Unit {0}) (r, w)
  result-Ends (ok a) w = tt
  result-Ends (err e) w = tt

  upload_stores :
      (k : Bytes) (o : Object) (w : W)
      → Ends (λ _. Unit {0}) (λ _ w'. IsStored k (s.contents w')) (s.upload k o w)
  upload_stores k o w =
      Ends-of _ _ (s.upload k o w) (λ e r. tt)
        (λ u r. elim (s.upload_writes k o w) [
          | inl wrote ↦ rw (wrote, bytes_eq_refl k) refl
          | inr (failed, same) ↦ absurd (ok-ne-err _ u r failed)
        ])
    where
      ok-ne-err : (r : Result (Unit {0})) (a : Unit {0}) → r ≡ ok a → is_err r ≡ true → ⊥
      ok-ne-err (ok b) a e h = cc
      ok-ne-err (err x) a e h = cc

  write_file-Holds :
      (source object : Bytes) (schema : Option Schema) (records : List R) (id : Bytes) (w : W)
      → Ends
          (λ _. Unit {0})
          (Holds source object records)
          (write_file s host source object schema records id w)
  unfolding write_file
  write_file-Holds source object schema records id w =
      bind-Ends (λ _. Unit {0}) (λ _ _. Unit {0}) _ _ _ w
        (result-Ends (host.write_rows schema records) w)
        (λ text w₁ h.
          bind-Ends (λ _. Unit {0}) (λ _ w'. IsStored _ (s.contents w')) _ _ _ w₁
            (context-Ends _ _ _ _ w₁ (upload_stores _ _ w₁))
            (λ done w₂ stored. (_, refl, refl, stored)))

  module _ (unix_milli : W → ℤ) (source : Bytes) (strict : Bool) (plan : ObjectPlan) where
    -- What a round adds to the actions.
    abbrev HasAdded : Progress → List R → Progress → W → Type 0
    HasAdded p batch q w =
        (a : Action) × (q.actions ≡ p.actions ++ a ∷ [])
        × Adds source plan.object_name (s.contents w) batch a

    note_file-HasAdded :
        (p : Progress) (results : List BatchValidationResult) (batch : List R)
        (written : Option WrittenFile) (w : W)
        → Holds source plan.object_name batch written w
        → HasAdded p batch
            (note_file s host unix_milli source strict plan p results (unix_milli w) written)
            w
    unfolding note_file
    note_file-HasAdded p results batch written w (f, is, counted, stored) = rw is (
      _,
      refl,
      (
        f.filename,
        f.size,
        unix_milli w,
        ap (λ n. new_add_action f.filename f.size (row_stats n) (unix_milli w)) counted,
        stored,
      ),
    )

    process_batch-HasAdded :
        (r : R) (rs : List R) (p : Progress) (w : W)
        → Ends
            (λ _. Unit {0})
            (HasAdded p (r ∷ rs))
            (process_batch s host unix_milli source strict plan (r ∷ rs) p w)
    unfolding process_batch write_records
    process_batch-HasAdded r rs p w =
        bind-Ends (λ _. Unit {0}) (λ _ _. Unit {0}) _ _ _ w
          (result-Ends
            (validate_batch s host unix_milli source strict plan host.validator (r ∷ rs)
              p.batch_results)
            w)
          (λ results w₁ h.
            bind-Ends (λ _. Unit {0}) (Holds source plan.object_name (r ∷ rs)) _ _ _ w₁
              (context-Ends _ _ _ _ w₁
                (write_file-Holds source plan.object_name plan.schema (r ∷ rs) _ _))
              (λ written w₂ held. note_file-HasAdded p results (r ∷ rs) written w₂ held))

    -- What a part of the loop adds.
    abbrev pub HasWritten : Progress → List (List R) → Progress → W → Type 0
    HasWritten p batches q w =
        (new : List Action) × (q.actions ≡ p.actions ++ new)
        × IsWritten source plan.object_name (s.contents w) batches new

    extend :
        (quiet : IsQuiet s host) (r : R) (rs : List R) (bs : List (List R)) (p q : Progress) (w : W)
        → HasAdded p (r ∷ rs) q w
        → Ends
            (λ _. Unit {0})
            (HasWritten q bs)
            (process s host unix_milli source strict plan bs q w)
        → Ends
            (λ _. Unit {0})
            (HasWritten p ((r ∷ rs) ∷ bs))
            (process s host unix_milli source strict plan bs q w)
    extend quiet r rs bs p q w (a, grown, (name, size, time, e, stored)) h =
        Ends-of (λ _. Unit {0}) (HasWritten p ((r ∷ rs) ∷ bs)) _ (λ x is. tt)
          (λ q' is.
            let kept =
              (process-Keeps s host quiet (IsStored (parquet_file source plan.object_name name))
                  (λ k o c nameless h. IsStored-write _ k o c h) unix_milli source strict plan bs
                  q).at
                w stored in
            let (new, more, written) = Ends_ok (λ _. Unit {0}) (HasWritten q bs) _ q' is h in
            (
              a ∷ new,
              more ∙ ap (λ l. l ++ new) grown ∙ append_assoc p.actions (a ∷ []) new,
              ((name, size, time, e, kept), written),
            ))

    pub process-HasWritten :
        (quiet : IsQuiet s host) (batches : List (List R)) (p : Progress) (w : W)
        → Ends
            (λ _. Unit {0})
            (HasWritten p batches)
            (process s host unix_milli source strict plan batches p w)
    unfolding process process_batch
    process-HasWritten quiet [] p w = ([], sym (append-nil p.actions), tt)
    process-HasWritten quiet ([] ∷ bs) p w =
        bind-Ends (λ _. Unit {0}) (λ q w'. q ≡ p) _ _ _ w refl
          (λ q w' e. rw e (process-HasWritten quiet bs p w'))
    process-HasWritten quiet ((r ∷ rs) ∷ bs) p w =
        bind-Ends (λ _. Unit {0}) (HasAdded p (r ∷ rs)) (HasWritten p ((r ∷ rs) ∷ bs)) _ _ w
          (process_batch-HasAdded r rs p w)
          (λ q w' added. extend quiet r rs bs p q w' added (process-HasWritten quiet bs q w'))
