-- ===== src/Delta/Store/Rules.antt =====
-- Rules for chains of fallible calls: `Ends P Q` says that `Q` holds of a success and `P` of the state
-- after an error.
use mathlib.Core.Path.{subst}
use agent_brain.Base.{◌≡◌, refl, sym, some}
use agent_brain.Base.Bytes.{Bytes}
use agent_brain.Retry.Errors.{Error, Result, ok, err}
use agent_brain.Retry.Executor.{Operation}
use agent_brain.Retry.Executor.Rule.{Ends}
use agent_brain.Delta.Store.{S3Store, Contents, ◌>>=◌, context}

module _ {W A : Type 0} where
  pub Ends-of :
      (P : W → Type 0) (Q : A → W → Type 0) (p : Result A × W)
      → ((e : Error) → p.0 ≡ err e → P p.1)
      → ((a : A) → p.0 ≡ ok a → Q a p.1)
      → Ends P Q p
  Ends-of P Q (ok a, w) f g = g a refl
  Ends-of P Q (err e, w) f g = f e refl

  pub Ends-mono :
      (P : W → Type 0) (Q R : A → W → Type 0) (p : Result A × W)
      → Ends P Q p
      → ((a : A) (w : W) → Q a w → R a w)
      → Ends P R p
  Ends-mono P Q R (ok a, w) h f = f a w h
  Ends-mono P Q R (err e, w) h f = h

  pub context-Ends :
      (P : W → Type 0) (Q : A → W → Type 0) (text : Bytes) (m : Operation W A) (w : W)
      → Ends P Q (m w)
      → Ends P Q (context text m w)
  unfolding context
  context-Ends P Q text m w = go (m w)
    where
      go : (p : Result A × W) → Ends P Q p → Ends P Q (context text (λ _. p) w)
      go (ok a, w') h = h
      go (err e, w') h = h

  pub bind-Ends :
      {B : Type 0} (P : W → Type 0) (Q : A → W → Type 0) (R : B → W → Type 0) (m : Operation W A)
      (f : A → Operation W B) (w : W)
      → Ends P Q (m w)
      → ((a : A) (w' : W) → Q a w' → Ends P R (f a w'))
      → Ends P R ((m >>= f) w)
  unfolding ◌>>=◌
  bind-Ends P Q R m f w h k = go (m w) h
    where
      go : (p : Result A × W) → Ends P Q p → Ends P R (((λ _. p) >>= f) w)
      go (ok a, w') h = k a w' h
      go (err e, w') h = h

-- What a call does to a property of the bucket.
module _ {W : Type 0} (s : S3Store W) (C : Contents → Type 0) where
  abbrev pub Holds : W → Type 0
  Holds w = C (s.contents w)

  pub download-Ends :
      (k : Bytes) (w : W)
      → Holds w
      → Ends Holds (λ o w'. (s.contents w k ≡ some o) × Holds w') (s.download k w)
  download-Ends k w h =
      let kept = subst C (sym (s.download_keeps k w)) h in
      Ends-of Holds _ (s.download k w) (λ e r. kept) (λ o r. (s.download_reads k w o r, kept))
