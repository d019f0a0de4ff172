-- ===== src/Delta/Store.antt =====
-- internal/storage/delta/log.go: `S3Store`, the interface behind which the object store stands, with
-- what its documentation promises. `contents` is the state of the bucket, which the program sees only
-- through the operations. An operation may fail at any time; an upload that fails may still have been
-- carried out. `PutJSON` and `GetJSON` are `upload` and `download` of the value's JSON.
pub mod Rules
pub mod Keeping
use agent_brain.Base.{
  ℕ, ◌≡◌, ◌≢◌, ◌⊎◌, Bool, true, Option, none, some, List, if◌then◌else◌, In, is_some,
}
use agent_brain.Base.Bytes.{Bytes, bytes_eq}
use agent_brain.Base.Strings.{has_prefix}
use agent_brain.Retry.Errors.{Error, wrapped, Result, ok, err, is_err}
use agent_brain.Retry.Executor.{Operation}
use agent_brain.Delta.Actions.{Object}

abbrev pub Contents : Type 0
Contents = Bytes → Option Object

-- The bucket after a write.
abbrev pub write : Bytes → Object → Contents → Contents
write k o c j = if bytes_eq k j then some o else c j

pub record S3Store (W : Type 0) : Type 0 where
  pub upload : Bytes → Object → Operation W (Unit {0})
  pub download : Bytes → Operation W Object
  pub list : Bytes → Operation W (List Bytes)
  pub exists : Bytes → Operation W Bool
  pub contents : W → Contents
  pub upload_writes :
      (k : Bytes) (o : Object) (w : W)
      → (contents (upload k o w).1 ≡ write k o (contents w))
        ⊎ ((is_err (upload k o w).0 ≡ true) × (contents (upload k o w).1 ≡ contents w))
  pub download_reads :
      (k : Bytes) (w : W) (o : Object) → (download k w).0 ≡ ok o → contents w k ≡ some o
  pub download_keeps : (k : Bytes) (w : W) → contents (download k w).1 ≡ contents w
  pub list_complete :
      (p : Bytes) (w : W) (ks : List Bytes) (k : Bytes)
      → (list p w).0 ≡ ok ks
      → has_prefix k p ≡ true
      → is_some (contents w k) ≡ true
      → In k ks
  pub list_sound :
      (p : Bytes) (w : W) (ks : List Bytes) (k : Bytes)
      → (list p w).0 ≡ ok ks
      → In k ks
      → (has_prefix k p ≡ true) × (is_some (contents w k) ≡ true)
  pub list_keeps : (p : Bytes) (w : W) → contents (list p w).1 ≡ contents w
  pub exists_keeps : (k : Bytes) (w : W) → contents (exists k w).1 ≡ contents w

-- A chain of fallible calls.
infixl 5 ◌>>=◌ ◌>>◌
unfoldable pub ◌>>=◌ : {W A B : Type 0} → Operation W A → (A → Operation W B) → Operation W B
◌>>=◌ m f w = let (r, w') = m w in elim r [ ok a ↦ f a w' | err e ↦ (err e, w') ]

abbrev pub ◌>>◌ : {W A B : Type 0} → Operation W A → Operation W B → Operation W B
m >> k = m >>= λ _. k

abbrev pub return : {W A : Type 0} → A → Operation W A
return a w = (ok a, w)

abbrev pub fail : {W A : Type 0} → Error → Operation W A
fail e w = (err e, w)

-- `fmt.Errorf("text: %w", err)` round a call.
abbrev pub wrap_error : {A : Type 0} → Bytes → Result A → Result A
wrap_error text (ok a) = ok a
wrap_error text (err e) = err (wrapped text e)

unfoldable pub context : {W A : Type 0} → Bytes → Operation W A → Operation W A
context text m w = let (r, w') = m w in (wrap_error text r, w')
