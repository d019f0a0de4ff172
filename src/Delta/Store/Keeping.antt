-- ===== src/Delta/Store/Keeping.antt =====
-- Calls that keep a property of the bucket, whether they succeed or fail.
use mathlib.Core.Path.{subst}
use agent_brain.Base.{sym, Bool, inl, inr, if◌then◌else◌, if_cases}
use agent_brain.Base.Bytes.{Bytes}
use agent_brain.Retry.Errors.{Result, ok, err}
use agent_brain.Retry.Executor.{Operation}
use agent_brain.Delta.Actions.{Object}
use agent_brain.Delta.Store.{S3Store, Contents, write, ◌>>=◌, context}

pub record Keeps {W X : Type 0} (s : S3Store W) (C : Contents → Type 0) (m : W → X × W)
    : Type 0 where
  pub at : (w : W) → C (s.contents w) → C (s.contents (m w).1)

module _ {W : Type 0} (s : S3Store W) (C : Contents → Type 0) where
  -- A step that does not touch the world.
  pub still-Keeps : {X : Type 0} (f : W → X) → Keeps s C (λ w. (f w, w))
  still-Keeps f = record { at = λ w h. h }

  pub bind-Keeps :
      {A B : Type 0} (m : Operation W A) (f : A → Operation W B)
      → Keeps s C m
      → ((a : A) → Keeps s C (f a))
      → Keeps s C (m >>= f)
  unfolding ◌>>=◌
  bind-Keeps {A} m f h k = record { at = λ w start. go w (m w) (h.at w start) }
    where
      go : (w : W) (p : Result A × W) → C (s.contents p.1) → C (s.contents (((λ _. p) >>= f) w).1)
      go w (ok a, w') there = (k a).at w' there
      go w (err e, w') there = there

  pub context-Keeps :
      {A : Type 0} (text : Bytes) (m : Operation W A) → Keeps s C m → Keeps s C (context text m)
  unfolding context
  context-Keeps text m h = record { at = λ w start. h.at w start }

  pub if-Keeps :
      {X : Type 0} (b : Bool) (m n : W → X × W)
      → Keeps s C m
      → Keeps s C n
      → Keeps s C (if b then m else n)
  if-Keeps b m n h k = if_cases (Keeps s C) b m n h k

  pub download-Keeps : (k : Bytes) → Keeps s C (s.download k)
  download-Keeps k = record { at = λ w h. subst C (sym (s.download_keeps k w)) h }

  pub list-Keeps : (p : Bytes) → Keeps s C (s.list p)
  list-Keeps p = record { at = λ w h. subst C (sym (s.list_keeps p w)) h }

  pub exists-Keeps : (k : Bytes) → Keeps s C (s.exists k)
  exists-Keeps k = record { at = λ w h. subst C (sym (s.exists_keeps k w)) h }

  -- An upload that the property allows.
  pub upload-Keeps :
      (k : Bytes) (o : Object) → ((c : Contents) → C c → C (write k o c)) → Keeps s C (s.upload k o)
  upload-Keeps k o allowed = record {
    at = λ w h. elim (s.upload_writes k o w) [
      | inl wrote ↦ subst C (sym wrote) (allowed (s.contents w) h)
      | inr (failed, same) ↦ subst C (sym same) h
    ];
  }
