-- ===== src/Migration/Amend.antt =====
-- internal/migration/engine.go: which migrations an upward path never runs.
use mathlib.Core.Path.{fun_ext}
use agent_brain.Base.{
  ℕ, zero, suc, ◌≡◌, refl, ap, ◌∙◌, All, Bool, true, false, Option, none, some, List, [], ◌∷◌,
  arith, if◌then◌else◌, is_some, if_split, Bool-cases, Option-cases, inl, inr,
}
use agent_brain.Base.Int.{
  ℤ, pos, ◌≤ℤ◌, ◌<ℤ◌, ◌+ℤ◌, ◌-ℤ◌, ltb_ℤ, leb_ℤ, eqb_ℤ, eqb_ℤ→eq, wrap64, wrap64_in_range, max_int64,
}
use agent_brain.Retry.Errors.{Error, Result, ok, err}
use agent_brain.Retry.Executor.{Operation}
use agent_brain.Delta.Store.{◌>>=◌, fail}
use agent_brain.Migration.{
  Migration, Migrations, find, missing, prepend, forward_path, reverse_path, migration_path,
  migrate, run_step, run_path, execute_migration_path,
}

above_one : (v : ℤ) → pos 2 ≤ℤ v → ltb_ℤ (pos 1) v ≡ true
above_one v h = ground arith

next_low :
    (v to : ℤ) → pos 2 ≤ℤ v → leb_ℤ v to ≡ true → to <ℤ pos max_int64 → pos 2 ≤ℤ wrap64 (v +ℤ pos 1)
unfolding ◌+ℤ◌
next_low v to low below top =
    let fits : wrap64 (v +ℤ pos 1) ≡ v +ℤ pos 1 =
      wrap64_in_range (v +ℤ pos 1) (ground arith, ground arith) in
    rw fits (ground arith)

first_low :
    (from to : ℤ)
    → pos 1 ≤ℤ from
    → ltb_ℤ from to ≡ true
    → to <ℤ pos max_int64
    → pos 2 ≤ℤ wrap64 (from +ℤ pos 1)
unfolding ◌+ℤ◌
first_low from to low up top =
    let fits : wrap64 (from +ℤ pos 1) ≡ from +ℤ pos 1 =
      wrap64_in_range (from +ℤ pos 1) (ground arith, ground arith) in
    rw fits (ground arith)

module _ {W D : Type 0} (f : D → Operation W D) where
  -- The migration under a version, with `f` for its upward half up to version 1.
  abbrev pub amended : ℤ → Migration W D → Migration W D
  amended v m = if ltb_ℤ (pos 1) v then m else record m { up = f }

  unfoldable pub amend : Migrations W D → Migrations W D
  amend [] = []
  amend ((v, m) ∷ es) = (v, amended v m) ∷ amend es

  abbrev amended_option : ℤ → Option (Migration W D) → Option (Migration W D)
  amended_option v none = none
  amended_option v (some m) = some (amended v m)

  find-amend : (v : ℤ) (es : Migrations W D) → find v (amend es) ≡ amended_option v (find v es)
  unfolding find amend
  find-amend v [] = refl
  find-amend v ((j, m) ∷ es) = elim (Bool-cases (eqb_ℤ j v)) [
    | inl same ↦ rw same (ap (λ u. some (amended u m)) (eqb_ℤ→eq j v same))
    | inr other ↦ rw other (find-amend v es)
  ]

  is_some-amended : (v : ℤ) (o : Option (Migration W D)) → is_some (amended_option v o) ≡ is_some o
  is_some-amended v none = refl
  is_some-amended v (some m) = refl

  is_some-amend : (v : ℤ) (es : Migrations W D) → is_some (find v (amend es)) ≡ is_some (find v es)
  is_some-amend v es = ap is_some (find-amend v es) ∙ is_some-amended v (find v es)

  forward_path-amend :
      (es : Migrations W D) (n : ℕ) (v to : ℤ)
      → forward_path (amend es) n v to ≡ forward_path es n v to
  unfolding forward_path
  forward_path-amend es zero v to = refl
  forward_path-amend es (suc n) v to =
      rw (is_some-amend v es, forward_path-amend es n (wrap64 (v +ℤ pos 1)) to) refl

  reverse_path-amend :
      (es : Migrations W D) (n : ℕ) (v to : ℤ)
      → reverse_path (amend es) n v to ≡ reverse_path es n v to
  unfolding reverse_path
  reverse_path-amend es zero v to = refl
  reverse_path-amend es (suc n) v to =
      rw (is_some-amend v es, reverse_path-amend es n (wrap64 (v -ℤ pos 1)) to) refl

  migration_path-amend :
      (es : Migrations W D) (from to : ℤ)
      → migration_path (amend es) from to ≡ migration_path es from to
  unfolding migration_path
  migration_path-amend es from to =
      rw (forward_path-amend es _ _ to, reverse_path-amend es _ from to) refl

  migrate-amended :
      (upward : Bool) (v : ℤ) (m : Migration W D) (d : D)
      → (upward ≡ true → ltb_ℤ (pos 1) v ≡ true)
      → migrate upward v (amended v m) d ≡ migrate upward v m d
  unfolding migrate
  migrate-amended true v m d above = rw (above refl) refl
  migrate-amended false v m d above = elim (Bool-cases (ltb_ℤ (pos 1) v)) [
    | inl high ↦ rw high refl
    | inr low ↦ rw low refl
  ]

  run_step-amend :
      (es : Migrations W D) (upward : Bool) (v : ℤ) (d : D)
      → (upward ≡ true → ltb_ℤ (pos 1) v ≡ true)
      → run_step (amend es) upward v d ≡ run_step es upward v d
  unfolding run_step
  run_step-amend es upward v d above = elim (Option-cases (find v es)) [
    | inl e ↦ rw (run_step, find-amend v es, e) refl
    | inr (m, e) ↦ rw (run_step, find-amend v es, e) (migrate-amended upward v m d above)
  ]

  Above : List ℤ → Type 0
  Above = All (λ v. ltb_ℤ (pos 1) v ≡ true)

  run_path-amend :
      (es : Migrations W D) (upward : Bool) (vs : List ℤ) (d : D)
      → (upward ≡ true → Above vs)
      → run_path (amend es) upward vs d ≡ run_path es upward vs d
  unfolding run_path Above
  run_path-amend es upward [] d above = refl
  run_path-amend es upward (v ∷ vs) d above =
      ap (λ s. s >>= run_path (amend es) upward vs)
        (run_step-amend es upward v d (λ u. (above u).0))
      ∙ ap (λ rest. run_step es upward v d >>= rest)
          (fun_ext (λ d'. run_path-amend es upward vs d' (λ u. (above u).1)))

  AllOk : Result (List ℤ) → Type 0
  AllOk (ok vs) = Above vs
  AllOk (err e) = Unit

  nil-AllOk : AllOk (ok [])
  unfolding AllOk Above
  nil-AllOk = tt

  err-AllOk : (e : Error) → AllOk (err e)
  unfolding AllOk
  err-AllOk e = tt

  prepend-AllOk :
      (v : ℤ) (r : Result (List ℤ)) → ltb_ℤ (pos 1) v ≡ true → AllOk r → AllOk (prepend v r)
  unfolding AllOk prepend Above
  prepend-AllOk v (ok vs) h k = (h, k)
  prepend-AllOk v (err e) h k = tt

  forward_path-AllOk :
      (es : Migrations W D) (n : ℕ) (v to : ℤ)
      → pos 2 ≤ℤ v
      → to <ℤ pos max_int64
      → AllOk (forward_path es n v to)
  unfolding forward_path
  forward_path-AllOk es zero v to low top = nil-AllOk
  forward_path-AllOk es (suc n) v to low top =
      if_split AllOk (leb_ℤ v to) _ _
        (λ below.
          if_split AllOk (is_some (find v es)) _ _
            (λ e.
              prepend-AllOk v _ (above_one v low) (
                forward_path-AllOk es n (wrap64 (v +ℤ pos 1)) to (next_low v to low below top) top))
            (λ e. err-AllOk (missing v)))
        (λ e. nil-AllOk)

  -- An upward path from a version of at least 1 has versions above 1.
  migration_path-AllOk :
      (es : Migrations W D) (from to : ℤ)
      → pos 1 ≤ℤ from
      → to <ℤ pos max_int64
      → ltb_ℤ from to ≡ true
      → AllOk (migration_path es from to)
  unfolding migration_path
  migration_path-AllOk es from to low top up =
      rw up (forward_path-AllOk es _ (wrap64 (from +ℤ pos 1)) to (first_low from to low up top) top)

  pub execute-amend :
      (es : Migrations W D) (from to : ℤ) (d : D)
      → pos 1 ≤ℤ from
      → to <ℤ pos max_int64
      → execute_migration_path (amend es) d from to ≡ execute_migration_path es d from to
  unfolding execute_migration_path
  execute-amend es from to d low top = elim (Bool-cases (eqb_ℤ from to)) [
    | inl same ↦ rw same refl
    | inr apart ↦
        rw (apart, migration_path-amend es from to)
          (carried (migration_path es from to) (migration_path-AllOk es from to low top))
  ]
    where
      carried :
          (p : Result (List ℤ))
          → (ltb_ℤ from to ≡ true → AllOk p)
          → elim p [ err e ↦ fail e | ok path ↦ run_path (amend es) (ltb_ℤ from to) path d ]
            ≡ elim p [ err e ↦ fail e | ok path ↦ run_path es (ltb_ℤ from to) path d ]
      carried (ok vs) h = run_path-amend es (ltb_ℤ from to) vs d (λ u. unfold AllOk in h u)
      carried (err e) h = refl
