-- ===== src/Migration/Registry.antt =====
-- internal/migration/engine.go: `RegisterMigration`.
use agent_brain.Base.{
  ◌≡◌, refl, sym, All, false, Option, none, some, if◌then◌else◌, is_some, Bool-cases, inl, inr,
  arith,
}
use agent_brain.Base.Int.{ℤ, pos, ◌≤ℤ◌, leb_ℤ, eqb_ℤ}
use agent_brain.Retry.Errors.{Error, ok, err}
use agent_brain.Migration.{Migration, Migrations, find, register_migration}

ok-ne-err : {A : Type 0} {a : A} {P : Type 0} (e : Error) → err e ≡ ok a → P
ok-ne-err e h = cc

pub ok_inj : {A : Type 0} {a b : A} → ok a ≡ ok b → a ≡ b
ok_inj h = cc

none_of : {A : Type 0} (o : Option A) → is_some o ≡ false → o ≡ none
none_of none h = refl
none_of (some a) h = cc

positive : (v : ℤ) → leb_ℤ v (pos 0) ≡ false → pos 1 ≤ℤ v
positive v h = ground arith

module _ {W D : Type 0} where
  -- Each migration stands under its own version, which is positive.
  unfoldable pub IsKeyed : Migrations W D → Type 0
  IsKeyed = All (λ entry. (entry.1.version ≡ entry.0) × (pos 1 ≤ℤ entry.0))

  -- The outcome of a registration that went through.
  unfoldable pub Registered : Migration W D → Migrations W D → Migrations W D → Type 0
  Registered m es es' =
      (find m.version es ≡ none)
      × IsKeyed es'
      × ((v : ℤ) → find v es' ≡ (if eqb_ℤ m.version v then some m else find v es))

  -- A registration that goes through was for a version without a migration, keeps every migration
  -- under its own positive version, and adds the new one under its version while all others are
  -- found as before.
  pub register_migration-Registered :
      (m : Migration W D) (es es' : Migrations W D)
      → IsKeyed es
      → register_migration m es ≡ ok es'
      → Registered m es es'
  unfolding register_migration IsKeyed Registered find
  register_migration-Registered m es es' k e = elim (Bool-cases (leb_ℤ m.version (pos 0))) [
    | inl low ↦ ok-ne-err _ (rw low at e)
    | inr high ↦ elim (Bool-cases (is_some (find m.version es))) [
      | inl taken ↦ ok-ne-err _ (rw (high, taken) at e)
      | inr free ↦
          rw (sym (ok_inj (rw (high, free) at e)))
            (none_of (find m.version es) free, ((refl, positive m.version high), k), λ v. refl)
    ]
  ]
