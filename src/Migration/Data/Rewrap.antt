-- ===== src/Migration/Data/Rewrap.antt =====
-- internal/migration/engine.go: the version of what `MigrateData` returns.
use agent_brain.Base.{◌≡◌, refl, sym, Bool, true, false, if◌then◌else◌, Bool-cases, inl, inr}
use agent_brain.Base.Int.{ℤ, pos, ltb_ℤ, eqb_ℤ, eqb_ℤ→eq}
use agent_brain.Base.Bytes.{Bytes, codes}
use agent_brain.Retry.Errors.{Result, ok, err}
use agent_brain.Retry.Executor.Rule.{Ends}
use agent_brain.Delta.Store.{wrap_error}
use agent_brain.Delta.Store.Rules.{bind-Ends}
use agent_brain.Migration.{Migrations}
use agent_brain.Migration.Data.{
  VersionedState, Config, Codec, Reflection, Services, Schemas, is_versioned, get_current_version,
  finish, carry, migrate_data,
}

pub always : {W A : Type 0} (p : Result A × W) → Ends (λ w. Unit {0}) (λ a w. Unit {0}) p
always (ok a, w) = tt
always (err e, w) = tt

-- The version that a reader sees in stored data of a given version.
abbrev pub seen : ℤ → ℤ
seen version = if ltb_ℤ (pos 0) version then version else pos 1

module _ {D : Type 0} (json : Codec D) where
  is_versioned-print :
      (s : VersionedState D) (b : Bytes)
      → json.print_state s ≡ ok b
      → is_versioned json b ≡ ltb_ℤ (pos 0) s.version
  unfolding is_versioned
  is_versioned-print s b e = rw (is_versioned, json.peek-print s b e) refl

  get_current_version-print :
      (s : VersionedState D) (b : Bytes)
      → json.print_state s ≡ ok b
      → get_current_version json b ≡ ok (seen s.version)
  unfolding get_current_version
  get_current_version-print s b e =
      let (s', parsed, same) = json.parse-print s b e in
      rw (is_versioned-print s b e, parsed, same) (choice (ltb_ℤ (pos 0) s.version))
    where
      choice :
          (t : Bool)
          → (if t then ok s.version else ok (pos 1)) ≡ ok (if t then s.version else pos 1)
      choice true = refl
      choice false = refl

  wrapped-print :
      {W : Type 0} (text : Bytes) (s : VersionedState D) (w : W)
      → Ends
          (λ w'. Unit {0})
          (λ b w'. get_current_version json b ≡ ok (seen s.version))
          (wrap_error text (json.print_state s), w)
  wrapped-print text s w = go (json.print_state s) refl
    where
      go :
          (r : Result Bytes)
          → json.print_state s ≡ r
          → Ends
              (λ w'. Unit {0})
              (λ b w'. get_current_version json b ≡ ok (seen s.version))
              (wrap_error text r, w)
      go (ok b) e = get_current_version-print s b e
      go (err f) e = tt

module _ {W D Tag : Type 0} (json : Codec D) (types : Reflection D Tag) (site : Services W)
    (config : Config) (schemas : Schemas Tag) (es : Migrations W D) where
  Seen : ℤ → Bytes → W → Type 0
  Seen target b w = get_current_version json b ≡ ok (seen target)

  finish-Seen :
      (target created : ℤ) (d : D) (w : W)
      → Ends
          (λ w. Unit {0})
          (Seen target)
          (finish json types site config schemas es target created d w)
  unfolding finish Seen
  finish-Seen target created d w =
      bind-Ends (λ w. Unit {0}) (λ _ w. Unit {0}) (Seen target) _ _ (site.now w).1 (always _)
        (λ _ w' _. wrapped-print json (codes "marshal migrated data") _ w')

  carry-Seen :
      (b : Bytes) (target : ℤ) (s : VersionedState D) (w : W)
      → Ends (λ w. Unit {0}) (Seen target) (carry json types site config schemas es b target s w)
  unfolding carry
  carry-Seen b target s w =
      bind-Ends (λ w. Unit {0}) (λ _ w. Unit {0}) (Seen target) _ _ w (always _)
        (λ _ w' _.
          bind-Ends (λ w. Unit {0}) (λ _ w. Unit {0}) (Seen target) _ _ w' (always _)
            (λ d w'' _. finish-Seen target s.created_at d w''))

  -- When MigrateData returns data for a target version, GetCurrentVersion reads that version from
  -- it if it is positive, and version 1 if it is not.
  pub get_current_version-migrate_data :
      (b : Bytes) (target : ℤ) (w : W)
      → Ends
          (λ w. Unit {0})
          (λ b' w'. get_current_version json b' ≡ ok (seen target))
          (migrate_data json types site config schemas es b target w)
  unfolding migrate_data Seen
  get_current_version-migrate_data b target w =
      bind-Ends (λ w. Unit {0}) (λ _ w. Unit {0}) (Seen target) _ _ w (always _)
        (λ s w' _. elim (Bool-cases (eqb_ℤ s.version target)) [
          | inl same ↦
              rw (same, sym (eqb_ℤ→eq s.version target same))
                (wrapped-print json (codes "marshal existing versioned data") s w')
          | inr apart ↦ rw apart (carry-Seen b target s w')
        ])
