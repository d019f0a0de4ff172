-- ===== src/Migration.antt =====
-- internal/migration/engine.go: the migrations by version, and how data is taken from one version to
-- another. `D` is `interface{}`, `W` the world that a migration may change. The context, which only
-- the migrations and the upload look at, and the log lines are left out.
pub mod Registry
pub mod Plan
pub mod Versions
pub mod Amend
pub mod Data
use agent_brain.Base.{
  ℕ, zero, suc, Bool, true, false, Option, none, some, List, [], ◌∷◌, ◌++◌, if◌then◌else◌, is_some,
}
use agent_brain.Base.Int.{ℤ, pos, pos_part, ◌+ℤ◌, ◌-ℤ◌, leb_ℤ, ltb_ℤ, eqb_ℤ, wrap64}
use agent_brain.Base.Bytes.{Bytes, codes, bytes_eq}
use agent_brain.Base.Decimal.{decimal_int}
use agent_brain.Retry.Errors.{Error, message, wrapped, Result, ok, err}
use agent_brain.Retry.Executor.{Operation}
use agent_brain.Delta.Store.{◌>>=◌, return, fail, context}

-- Go's `map[int]V`: `m[k]`, and the map with a key that it did not have.
unfoldable pub find {ℓ} : {V : Type ℓ} → ℤ → List (ℤ × V) → Option V
find k [] = none
find k ((j, v) ∷ m) = if eqb_ℤ j k then some v else find k m

-- `sort.Ints` on the keys of a map, with what stands there.
unfoldable pub insert_version {ℓ} : {V : Type ℓ} → ℤ → V → List (ℤ × V) → List (ℤ × V)
insert_version k v [] = (k, v) ∷ []
insert_version k v ((j, x) ∷ m) =
    if leb_ℤ k j then (k, v) ∷ ((j, x) ∷ m) else (j, x) ∷ insert_version k v m

unfoldable pub sort_versions {ℓ} : {V : Type ℓ} → List (ℤ × V) → List (ℤ × V)
unfolding insert_version
sort_versions [] = []
sort_versions ((k, v) ∷ m) = insert_version k v (sort_versions m)

pub record Migration (W D : Type 0) : Type 0 where
  pub version : ℤ
  pub description : Bytes
  pub up : D → Operation W D
  pub down : D → Operation W D
  pub validate : D → Operation W (Unit {0})

abbrev pub Migrations : Type 0 → Type 0 → Type 0
Migrations W D = List (ℤ × Migration W D)

unfoldable pub missing : ℤ → Error
missing v = message (codes "missing migration for version " ++ decimal_int v)

-- One more element in front of a list that may have failed.
unfoldable pub prepend : {A : Type 0} → A → Result (List A) → Result (List A)
prepend a (ok rest) = ok (a ∷ rest)
prepend a (err e) = err e

module _ {W D : Type 0} where
  -- `RegisterMigration`
  unfoldable pub register_migration : Migration W D → Migrations W D → Result (Migrations W D)
  unfolding find
  register_migration m es =
      if leb_ℤ m.version (pos 0)
      then err (message (codes "migration version must be positive, got " ++ decimal_int m.version))
      else if is_some (find m.version es)
      then err (
          message (
            codes "migration for version "
            ++ (decimal_int m.version ++ codes " already registered")))
      else ok ((m.version, m) ∷ es)

  -- `ListMigrations`
  unfoldable pub list_migrations : Migrations W D → List (Migration W D)
  unfolding sort_versions
  list_migrations es = sorted (sort_versions es)
    where
      sorted : Migrations W D → List (Migration W D)
      sorted [] = []
      sorted ((v, m) ∷ rest) = m ∷ sorted rest

  -- A migration carried out and its result validated; `upward` is `fromVersion < toVersion`.
  unfoldable pub migrate : Bool → ℤ → Migration W D → D → Operation W D
  migrate upward v m d =
      context (codes "migration " ++ (decimal_int v ++ codes " failed"))
        (if upward then m.up d else m.down d)
      >>= λ d'.
          context (codes "validation failed for migration " ++ decimal_int v) (m.validate d')
          >>= λ _. return d'

  module _ (es : Migrations W D) where
    -- The loops of `executeMigrationPath` over the versions, up and down. The number counts the turns
    -- that are left.
    unfoldable pub forward_path : ℕ → ℤ → ℤ → Result (List ℤ)
    forward_path zero v to = ok []
    forward_path (suc n) v to =
        let rest = forward_path n (wrap64 (v +ℤ pos 1)) to in
        if leb_ℤ v to
        then (if is_some (find v es) then prepend v rest else err (missing v))
        else ok []

    unfoldable pub reverse_path : ℕ → ℤ → ℤ → Result (List ℤ)
    reverse_path zero v to = ok []
    reverse_path (suc n) v to =
        let rest = reverse_path n (wrap64 (v -ℤ pos 1)) to in
        if ltb_ℤ to v
        then (if is_some (find v es) then prepend v rest else err (missing v))
        else ok []

    -- The loops of `GetMigrationPlan`.
    unfoldable pub forward_plan : ℕ → ℤ → ℤ → Result (List (Migration W D))
    forward_plan zero v to = ok []
    forward_plan (suc n) v to =
        let rest = forward_plan n (wrap64 (v +ℤ pos 1)) to in
        if leb_ℤ v to
        then elim (find v es) [ some m ↦ prepend m rest | none ↦ err (missing v) ]
        else ok []

    unfoldable pub reverse_plan : ℕ → ℤ → ℤ → Result (List (Migration W D))
    reverse_plan zero v to = ok []
    reverse_plan (suc n) v to =
        let rest = reverse_plan n (wrap64 (v -ℤ pos 1)) to in
        if ltb_ℤ to v
        then elim (find v es) [ some m ↦ prepend m rest | none ↦ err (missing v) ]
        else ok []

    -- Turns that are enough: one for each version, and one to see the end.
    abbrev turns : ℤ → ℤ → ℕ
    turns low high = suc (pos_part (high -ℤ low))

    unfoldable pub migration_path : ℤ → ℤ → Result (List ℤ)
    migration_path from to =
        if ltb_ℤ from to
        then forward_path (turns from to) (wrap64 (from +ℤ pos 1)) to
        else reverse_path (turns to from) from to

    unfoldable pub get_migration_plan : ℤ → ℤ → Result (List (Migration W D))
    get_migration_plan from to =
        if eqb_ℤ from to
        then ok []
        else if ltb_ℤ from to
        then forward_plan (turns from to) (wrap64 (from +ℤ pos 1)) to
        else reverse_plan (turns to from) from to

    -- One turn of the loop that runs the path; no migration at a version of the path would be a call on
    -- nil.
    unfoldable pub run_step : Bool → ℤ → D → Operation W D
    run_step upward v d = elim (find v es) [
      | none ↦ fail (message (codes "invalid memory address or nil pointer dereference"))
      | some m ↦ migrate upward v m d
    ]

    unfoldable pub run_path : Bool → List ℤ → D → Operation W D
    run_path upward [] d = return d
    run_path upward (v ∷ vs) d = run_step upward v d >>= run_path upward vs

    unfoldable pub execute_migration_path : D → ℤ → ℤ → Operation W D
    execute_migration_path d from to =
        if eqb_ℤ from to then return d else elim (migration_path from to) [
          | err e ↦ fail e
          | ok path ↦ run_path (ltb_ℤ from to) path d
        ]
