-- ===== src/Sync/Engine/Files.antt =====
-- internal/sync/engine.go and internal/storage/parquet.go: the files that the loop over the batches writes,
-- and what it keeps of the bucket.
use mathlib.Core.Path.{subst}
use agent_brain.Base.{◌≡◌, sym, Bool, Option, none, some, List, [], ◌∷◌}
use agent_brain.Base.Int.{ℤ}
use agent_brain.Base.Bytes.{Bytes}
use agent_brain.Base.Strings.{Avoids}
use agent_brain.Base.Map.{Map}
use agent_brain.Retry.Errors.{Error}
use agent_brain.Delta.Actions.{Object}
use agent_brain.Delta.Store.{S3Store, Contents, write}
use agent_brain.Delta.Store.Keeping.{Keeps, still-Keeps, bind-Keeps, context-Keeps, upload-Keeps}
use agent_brain.Delta.Keys.{version_of_key}
use agent_brain.Schema.{Schema}
use agent_brain.Sync.Planner.{SyncMode, full, incremental, skip, ObjectPlan, ObjectState}
use agent_brain.Layout.Nameless.{parquet_file_nameless}
use agent_brain.Sync.Engine.Object.{
  Host, Progress, no_progress, write_file, write_records, process_batch, process, extract_by,
  extract, extraction_error, gather,
}

-- The clock, the unique ids and the extractions leave the bucket alone.
pub record IsQuiet {R W : Type 0} (s : S3Store W) (host : Host R W) : Type 0 where
  pub now_keeps : (w : W) → s.contents (host.now w).1 ≡ s.contents w
  pub uuid_keeps : (w : W) → s.contents (host.new_uuid w).1 ≡ s.contents w
  pub full_keeps :
      (object : Bytes) (w : W) → s.contents (host.full_snapshot object w).1 ≡ s.contents w
  pub incremental_keeps :
      (object field : Bytes) (mark : ℤ) (w : W)
      → s.contents (host.incremental_changes object field mark w).1 ≡ s.contents w

-- A property of the bucket that the writing of any file but a log's entry keeps.
abbrev pub IsClosed : (Contents → Type 0) → Type 0
IsClosed C =
    (k : Bytes) (o : Object) (c : Contents) → version_of_key k ≡ none → C c → C (write k o c)

pub quiet-Keeps :
    {W X : Type 0} (s : S3Store W) (C : Contents → Type 0) (m : W → X × W)
    → ((w : W) → s.contents (m w).1 ≡ s.contents w)
    → Keeps s C m
quiet-Keeps s C m same = record { at = λ w h. subst C (sym (same w)) h }

module _ {R W : Type 0} (s : S3Store W) (host : Host R W) (quiet : IsQuiet s host)
    (C : Contents → Type 0) (closed : IsClosed C) where
  write_file-Keeps :
      (source object : Bytes) (schema : Option Schema) (records : List R) (id : Bytes)
      → Avoids b'/' id
      → Keeps s C (write_file s host source object schema records id)
  unfolding write_file
  write_file-Keeps source object schema records id plain =
      bind-Keeps s C _ _ (still-Keeps s C _) (λ text.
        bind-Keeps s C _ _
          (context-Keeps s C _ _ (
            upload-Keeps s C _ _
              (λ c h. closed _ _ c (parquet_file_nameless source object id plain) h)))
          (λ done. still-Keeps s C _))

  write_records-Keeps :
      (source object : Bytes) (schema : Option Schema) (records : List R)
      → Keeps s C (write_records s host source object schema records)
  unfolding write_records
  write_records-Keeps source object schema [] = still-Keeps s C _
  write_records-Keeps source object schema (r ∷ rs) = record {
    at = λ w h.
        (write_file-Keeps source object schema (r ∷ rs) _ (host.uuid_plain w)).at
          (host.new_uuid w).1 (subst C (sym (quiet.uuid_keeps w)) h);
  }

  module _ (unix_milli : W → ℤ) (source : Bytes) (strict : Bool) (plan : ObjectPlan) where
    process_batch-Keeps :
        (batch : List R) (p : Progress)
        → Keeps s C (process_batch s host unix_milli source strict plan batch p)
    unfolding process_batch
    process_batch-Keeps [] p = still-Keeps s C _
    process_batch-Keeps (r ∷ rs) p = bind-Keeps s C _ _ (still-Keeps s C _) (λ results.
        bind-Keeps s C _ _
          (context-Keeps s C _ _ (write_records-Keeps source _ plan.schema (r ∷ rs)))
          (λ written. still-Keeps s C _))

    pub process-Keeps :
        (batches : List (List R)) (p : Progress)
        → Keeps s C (process s host unix_milli source strict plan batches p)
    unfolding process
    process-Keeps [] p = still-Keeps s C _
    process-Keeps (b ∷ bs) p =
        bind-Keeps s C _ _ (process_batch-Keeps b p) (λ p'. process-Keeps bs p')

    pub extract_by-Keeps :
        (mode : SyncMode) (objects : Map ObjectState)
        → Keeps s C (extract_by s host unix_milli source strict plan mode objects)
    unfolding extract_by
    extract_by-Keeps full objects = quiet-Keeps s C _ (quiet.full_keeps _)
    extract_by-Keeps incremental objects = quiet-Keeps s C _ (quiet.incremental_keeps _ _ _)
    extract_by-Keeps skip objects = still-Keeps s C _

    extraction_error-Keeps :
        (failure : Option Error)
        → Keeps s C (extraction_error s host unix_milli source strict plan failure)
    unfolding extraction_error
    extraction_error-Keeps none = still-Keeps s C _
    extraction_error-Keeps (some e) = context-Keeps s C _ _ (still-Keeps s C _)

    pub gather-Keeps :
        (objects : Map ObjectState)
        → Keeps s C (gather s host unix_milli source strict plan objects)
    unfolding gather extract
    gather-Keeps objects = record {
      at = λ w h.
          (bind-Keeps s C _ _ (process-Keeps _ no_progress)
              (λ p. bind-Keeps s C _ _ (extraction_error-Keeps _) (λ done. still-Keeps s C _))).at
            (extract_by s host unix_milli source strict plan plan.mode objects w).1
            ((extract_by-Keeps plan.mode objects).at w h);
    }
