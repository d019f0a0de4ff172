-- ===== src/Migration/Data/First.antt =====
-- internal/migration/engine.go: where `MigrateData` starts from, and which migrations it never runs.
use agent_brain.Base.{◌≡◌, refl, ap, true, arith, if◌then◌else◌, Bool-cases, inl, inr}
use agent_brain.Base.Int.{ℤ, pos, ◌≤ℤ◌, ◌<ℤ◌, ltb_ℤ, eqb_ℤ, max_int64}
use agent_brain.Base.Bytes.{Bytes, codes}
use agent_brain.Retry.Errors.{Result, ok, err}
use agent_brain.Retry.Executor.{Operation}
use agent_brain.Retry.Executor.Rule.{Ends}
use agent_brain.Delta.Store.{◌>>=◌, return, context, wrap_error}
use agent_brain.Delta.Store.Rules.{bind-Ends}
use agent_brain.Migration.Data.{
  VersionedState, Config, Codec, Reflection, Services, Schemas, is_versioned, wrap_legacy_data,
  read_state, finish, carry, create_backup, check_result, lift, migrate_data,
}
use agent_brain.Migration.Data.Rewrap.{always}
use agent_brain.Migration.Amend.{amend, execute-amend}
use agent_brain.Migration.{Migrations}

positive : (v : ℤ) → ltb_ℤ (pos 0) v ≡ true → pos 1 ≤ℤ v
positive v h = ground arith

module _ {W A B : Type 0} where
  -- Chains agree that agree on what their first call can give.
  bind-agree :
      (Q : A → W → Type 0) (m : Operation W A) (g h : A → Operation W B) (w : W)
      → Ends (λ w. Unit {0}) Q (m w)
      → ((a : A) (w' : W) → Q a w' → g a w' ≡ h a w')
      → (m >>= g) w ≡ (m >>= h) w
  unfolding ◌>>=◌
  bind-agree Q m g h w e k = go (m w) e
    where
      go : (p : Result A × W) → Ends (λ w. Unit {0}) Q p → ((λ _. p) >>= g) w ≡ ((λ _. p) >>= h) w
      go (ok a, w') e = k a w' e
      go (err x, w') e = refl

module _ {W D Tag : Type 0} (json : Codec D) (types : Reflection D Tag) (site : Services W)
    (config : Config) (schemas : Schemas Tag) (es : Migrations W D) where
  -- The state that `MigrateData` starts from has a positive version.
  Positive : VersionedState D → W → Type 0
  Positive s w = pos 1 ≤ℤ s.version

  parsed-Positive :
      (b : Bytes) (text : Bytes) (w : W)
      → is_versioned json b ≡ true
      → Ends (λ w. Unit {0}) Positive (wrap_error text (json.parse_state b), w)
  unfolding Positive is_versioned
  parsed-Positive b text w h = go (json.parse_state b) refl
    where
      go :
          (r : Result (VersionedState D))
          → json.parse_state b ≡ r
          → Ends (λ w. Unit {0}) Positive (wrap_error text r, w)
      go (ok s) e = positive s.version (rw (is_versioned, json.peek-parse b s e) at h)
      go (err f) e = tt

  wrapped-Positive :
      (d : D) (w : W)
      → Ends (λ w. Unit {0}) Positive (wrap_legacy_data json types site config schemas es d w)
  unfolding Positive wrap_legacy_data
  wrapped-Positive d w = omega arith

  read_state-Positive :
      (b : Bytes) (w : W)
      → Ends (λ w. Unit {0}) Positive (read_state json types site config schemas es b w)
  unfolding read_state
  read_state-Positive b w = elim (Bool-cases (is_versioned json b)) [
    | inl v ↦ rw v (parsed-Positive b (codes "unmarshal versioned data") w v)
    | inr l ↦ rw l (
        bind-Ends (λ w. Unit {0}) (λ _ w. Unit {0}) Positive _ _ w (always _)
          (λ d w' _. wrapped-Positive d w'))
  ]

  module _ (f : D → Operation W D) where
    carry-amend :
        (b : Bytes) (target : ℤ) (s : VersionedState D)
        → pos 1 ≤ℤ s.version
        → target <ℤ pos max_int64
        → carry json types site config schemas (amend f es) b target s
          ≡ carry json types site config schemas es b target s
    unfolding carry create_backup finish check_result
    carry-amend b target s low top =
        ap
          (λ path.
            (if config.backup_before_migrate
              then context (codes "create backup")
                  (create_backup json types site config schemas es b s.version)
              else return tt)
            >>= λ _.
                context (codes "execute migration path") path
                >>= finish json types site config schemas es target s.created_at)
          (execute-amend f es s.version target s.content low top)

    -- MigrateData never runs the upward half of a migration for version 1 or below: for a target
    -- below 2^63 - 1, with any other function in its place it returns the same and leaves the same
    -- state, whatever the data.
    pub migrate_data-amend :
        (b : Bytes) (target : ℤ) (w : W)
        → target <ℤ pos max_int64
        → migrate_data json types site config schemas (amend f es) b target w
          ≡ migrate_data json types site config schemas es b target w
    unfolding migrate_data read_state wrap_legacy_data Positive
    migrate_data-amend b target w top =
        bind-agree Positive (read_state json types site config schemas es b) _ _ w
          (read_state-Positive b w)
          (λ s w' low.
            ap
              (λ k.
                (if eqb_ℤ s.version target
                    then lift
                        (wrap_error (codes "marshal existing versioned data") (json.print_state s))
                    else k)
                  w')
              (carry-amend b target s low top))
