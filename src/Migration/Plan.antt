-- ===== src/Migration/Plan.antt =====
-- internal/migration/engine.go: `executeMigrationPath` beside `GetMigrationPlan`.
use mathlib.Core.Path.{fun_ext}
use agent_brain.Base.{
  ℕ, zero, suc, ◌≡◌, refl, sym, ap, ◌∙◌, Bool, true, false, Option, none, some, List, [], ◌∷◌,
  if◌then◌else◌, is_some, some_inj, Bool-cases, if_both, inl, inr,
}
use agent_brain.Base.Int.{ℤ, pos, ◌+ℤ◌, ◌-ℤ◌, leb_ℤ, ltb_ℤ, eqb_ℤ, eqb_ℤ→eq, wrap64}
use agent_brain.Retry.Errors.{Result, ok, err}
use agent_brain.Retry.Executor.{Operation}
use agent_brain.Delta.Store.{◌>>=◌, return, fail}
use agent_brain.Migration.Registry.{IsKeyed}
use agent_brain.Migration.{
  Migration, Migrations, find, missing, prepend, migrate, forward_path, reverse_path, forward_plan,
  reverse_plan, migration_path, get_migration_plan, run_step, run_path, execute_migration_path,
}

module _ {W D : Type 0} where
  -- A plan carried out: each migration in turn, in one direction.
  pub run_plan : Bool → List (Migration W D) → D → Operation W D
  run_plan upward [] d = return d
  run_plan upward (m ∷ plan) d = migrate upward m.version m d >>= run_plan upward plan

  -- The versions and the migrations of a plan agree.
  abbrev Agrees : Migrations W D → List ℤ → List (Migration W D) → Type 0
  Agrees es [] [] = Unit
  Agrees es [] (m ∷ ms) = ⊥
  Agrees es (v ∷ vs) [] = ⊥
  Agrees es (v ∷ vs) (m ∷ ms) = (find v es ≡ some m) × Agrees es vs ms

  abbrev Match : Migrations W D → Result (List ℤ) → Result (List (Migration W D)) → Type 0
  Match es (ok vs) (ok ms) = Agrees es vs ms
  Match es (ok vs) (err e) = ⊥
  Match es (err e) (ok ms) = ⊥
  Match es (err e) (err e') = e ≡ e'

  prepend-Match :
      (es : Migrations W D) (v : ℤ) (m : Migration W D) (p : Result (List ℤ))
      (q : Result (List (Migration W D)))
      → find v es ≡ some m
      → Match es p q
      → Match es (prepend v p) (prepend m q)
  unfolding prepend
  prepend-Match es v m (ok vs) (ok ms) h a = (h, a)
  prepend-Match es v m (ok vs) (err e) h a = a
  prepend-Match es v m (err e) (ok ms) h a = a
  prepend-Match es v m (err e) (err e') h a = a

  find-Match :
      (es : Migrations W D) (v : ℤ) (p : Result (List ℤ)) (q : Result (List (Migration W D)))
      (b : Bool)
      → Match es p q
      → Match es
          (if b then (if is_some (find v es) then prepend v p else err (missing v)) else ok [])
          (if b then elim (find v es) [ some m ↦ prepend m q | none ↦ err (missing v) ] else ok [])
  find-Match es v p q b a = elim (Bool-cases b) [
    | inr out ↦ rw out tt
    | inl on ↦ rw on (found (find v es) refl)
  ]
    where
      found :
          (o : Option (Migration W D))
          → find v es ≡ o
          → Match es
              (if is_some o then prepend v p else err (missing v))
              (elim o [ some m ↦ prepend m q | none ↦ err (missing v) ])
      found none e = refl
      found (some m) e = prepend-Match es v m p q e a

  forward-Match :
      (es : Migrations W D) (n : ℕ) (v to : ℤ)
      → Match es (forward_path es n v to) (forward_plan es n v to)
  unfolding forward_path forward_plan
  forward-Match es zero v to = tt
  forward-Match es (suc n) v to =
      find-Match es v (forward_path es n (wrap64 (v +ℤ pos 1)) to)
        (forward_plan es n (wrap64 (v +ℤ pos 1)) to) (leb_ℤ v to)
        (forward-Match es n (wrap64 (v +ℤ pos 1)) to)

  reverse-Match :
      (es : Migrations W D) (n : ℕ) (v to : ℤ)
      → Match es (reverse_path es n v to) (reverse_plan es n v to)
  unfolding reverse_path reverse_plan
  reverse-Match es zero v to = tt
  reverse-Match es (suc n) v to =
      find-Match es v (reverse_path es n (wrap64 (v -ℤ pos 1)) to)
        (reverse_plan es n (wrap64 (v -ℤ pos 1)) to) (ltb_ℤ to v)
        (reverse-Match es n (wrap64 (v -ℤ pos 1)) to)

  find-IsKeyed :
      (es : Migrations W D) (v : ℤ) (m : Migration W D)
      → IsKeyed es
      → find v es ≡ some m
      → m.version ≡ v
  unfolding IsKeyed find
  find-IsKeyed [] v m k e = cc
  find-IsKeyed ((j, x) ∷ es) v m k e = elim (Bool-cases (eqb_ℤ j v)) [
    | inl here ↦ sym (ap (λ x. x.version) (some_inj (rw here at e))) ∙ k.0.0 ∙ eqb_ℤ→eq j v here
    | inr past ↦ find-IsKeyed es v m k.1 (rw past at e)
  ]

  run_step-migrate :
      (es : Migrations W D) (upward : Bool) (v : ℤ) (m : Migration W D) (d : D)
      → IsKeyed es
      → find v es ≡ some m
      → run_step es upward v d ≡ migrate upward m.version m d
  unfolding run_step
  run_step-migrate es upward v m d k e =
      rw (run_step, e) (ap (λ u. migrate upward u m d) (sym (find-IsKeyed es v m k e)))

  run_path-run_plan :
      (es : Migrations W D) (upward : Bool) (vs : List ℤ) (ms : List (Migration W D))
      → IsKeyed es
      → Agrees es vs ms
      → (d : D) → run_path es upward vs d ≡ run_plan upward ms d
  unfolding run_path run_plan
  run_path-run_plan es upward [] [] k a d = refl
  run_path-run_plan es upward [] (m ∷ ms) k a d = elim a [ ]
  run_path-run_plan es upward (v ∷ vs) [] k a d = elim a [ ]
  run_path-run_plan es upward (v ∷ vs) (m ∷ ms) k (e, a) d =
      ap (λ s. s >>= run_path es upward vs) (run_step-migrate es upward v m d k e)
      ∙ ap (λ rest. migrate upward m.version m d >>= rest)
          (fun_ext (run_path-run_plan es upward vs ms k a))

  path-Match :
      (es : Migrations W D) (from to : ℤ)
      → eqb_ℤ from to ≡ false
      → Match es (migration_path es from to) (get_migration_plan es from to)
  unfolding migration_path get_migration_plan
  path-Match es from to apart = rw apart (
      if_both (λ p q. Match es p q) (ltb_ℤ from to) _ _ _ _ (forward-Match es _ _ to)
        (reverse-Match es _ from to))

  plan_same :
      (es : Migrations W D) (from to : ℤ)
      → eqb_ℤ from to ≡ true
      → get_migration_plan es from to ≡ ok []
  unfolding get_migration_plan
  plan_same es from to same = rw same refl

  carried :
      (es : Migrations W D) (upward : Bool) (d : D) (p : Result (List ℤ))
      (q : Result (List (Migration W D)))
      → IsKeyed es
      → Match es p q
      → elim p [ err e ↦ fail e | ok path ↦ run_path es upward path d ]
        ≡ elim q [ err e ↦ fail e | ok plan ↦ run_plan upward plan d ]
  carried es upward d (ok vs) (ok ms) k a = run_path-run_plan es upward vs ms k a d
  carried es upward d (ok vs) (err e) k a = elim a [ ]
  carried es upward d (err e) (ok ms) k a = elim a [ ]
  carried es upward d (err e) (err e') k a = ap fail a

  -- When every migration stands under its own version, executeMigrationPath does what
  -- GetMigrationPlan says: it fails as that fails, and otherwise runs the plan's migrations one
  -- after the other, upward or downward, each followed by its validation.
  pub execute_migration_path-get_migration_plan :
      (es : Migrations W D) (from to : ℤ) (d : D)
      → IsKeyed es
      → execute_migration_path es d from to ≡ elim (get_migration_plan es from to) [
        | err e ↦ fail e
        | ok plan ↦ run_plan (ltb_ℤ from to) plan d
      ]
  unfolding execute_migration_path
  execute_migration_path-get_migration_plan es from to d k = elim (Bool-cases (eqb_ℤ from to)) [
    | inl same ↦ rw (same, plan_same es from to same) (unfold run_plan in refl)
    | inr apart ↦ rw apart (
        carried es (ltb_ℤ from to) d (migration_path es from to) (get_migration_plan es from to) k
          (path-Match es from to apart))
  ]
