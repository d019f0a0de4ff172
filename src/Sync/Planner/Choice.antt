-- ===== src/Sync/Planner/Choice.antt =====
-- internal/sync/planner.go: when an object is synced incrementally.
use mathlib.Core.Path.{subst}
use agent_brain.Base.{
  ◌≡◌, refl, true, false, not, ◌&&◌, Option, none, some, List, [], ◌∷◌, arith, In, Bool-cases, inl,
  inr, ◌≢◌, ◌↔◌,
}
use agent_brain.Base.Int.{pos, ◌+ℤ◌, wrap64}
use agent_brain.Base.Bytes.{Bytes, bytes_eq, bytes_eq_iff}
use agent_brain.Schema.{Hasher, Schema, compute_hash, diff, is_breaking, is_empty, field_map}
use agent_brain.Schema.Change.{Keeps, diff_lem}
use agent_brain.Sync.Planner.{
  full, incremental, skip, ObjectMetadata, ObjectState, ObjectPlan, contains, skip_plan, start_plan,
  first_run, incremental_plan, changed_plan, check_schema, plan_from, plan,
}

skip-ne-incremental : skip ≡ incremental → ⊥
skip-ne-incremental e = cc

full-ne-incremental : full ≡ incremental → ⊥
full-ne-incremental e = cc

module _ (hasher : Hasher) where
  changed-Keeps :
      (state : ObjectState) (new : Schema) (previous : Option Schema) (p : ObjectPlan)
      → (changed_plan state new previous p).mode ≡ incremental
      → (old : Schema) × (previous ≡ some old) × Keeps (field_map old) (field_map new)
  unfolding changed_plan
  changed-Keeps state new none p e = absurd (full-ne-incremental e)
  changed-Keeps state new (some old) p e = elim (Bool-cases (is_breaking (diff old new))) [
    | inl breaking ↦ absurd (full-ne-incremental (rw breaking at e))
    | inr fine ↦ (old, refl, (diff_lem old new).0.0 fine)
  ]

  check-Keeps :
      (state : ObjectState) (new : Schema) (p : ObjectPlan)
      → (check_schema hasher state (some new) p).mode ≡ incremental
      → bytes_eq state.schema_hash [] ≡ false
      → bytes_eq (compute_hash hasher new.fields) state.schema_hash ≡ false
      → (old : Schema) × (state.previous_schema ≡ some old) × Keeps (field_map old) (field_map new)
  unfolding check_schema
  check-Keeps state new p e known changed =
      changed-Keeps state new state.previous_schema _ (rw (known, changed) at e)

  -- If the plan for an object with a stored hash is incremental although the hash of its schema
  -- changed, the previous schema is known and every column of it is in the new schema with the same
  -- type.
  pub plan-Keeps :
      (meta : ObjectMetadata) (state : ObjectState) (allowed : List Bytes) (new : Schema)
      → (plan hasher meta (some state) allowed).mode ≡ incremental
      → meta.schema ≡ some new
      → bytes_eq state.schema_hash [] ≡ false
      → bytes_eq (compute_hash hasher new.fields) state.schema_hash ≡ false
      → (old : Schema) × (state.previous_schema ≡ some old) × Keeps (field_map old) (field_map new)
  unfolding plan plan_from skip_plan
  plan-Keeps meta state allowed new e has known changed =
      elim (Bool-cases (not (is_empty allowed) && not (contains allowed meta.name))) [
        | inl skipped ↦ absurd (skip-ne-incremental (rw skipped at e))
        | inr allowed' ↦
            check-Keeps state new (start_plan meta) (checked meta.schema has (rw allowed' at e))
              known changed
      ]
    where
      checked :
          (schema : Option Schema)
          → schema ≡ some new
          → (check_schema hasher state schema (start_plan meta)).mode ≡ incremental
          → (check_schema hasher state (some new) (start_plan meta)).mode ≡ incremental
      checked schema e m =
          subst (λ x. (check_schema hasher state x (start_plan meta)).mode ≡ incremental) e m

  contains_sound : (names : List Bytes) (name : Bytes) → contains names name ≡ true → In name names
  unfolding contains
  contains_sound [] name e = cc
  contains_sound (n ∷ names) name e = ground (arith, bytes_eq_iff n name, contains_sound names name)

  contains_complete :
      (names : List Bytes) (name : Bytes) → In name names → contains names name ≡ true
  unfolding contains
  contains_complete [] name m = absurd m
  contains_complete (n ∷ names) name m =
      ground (arith, bytes_eq_iff n name, contains_complete names name)

changed_not_skip :
    (state : ObjectState) (new : Schema) (previous : Option Schema) (p : ObjectPlan)
    → (changed_plan state new previous p).mode ≡ skip
    → ⊥
unfolding changed_plan incremental_plan
changed_not_skip state new none p e = cc
changed_not_skip state new (some old) p e = ground arith

not_skip :
    (hasher : Hasher) (state : Option ObjectState) (schema : Option Schema) (p : ObjectPlan)
    → (plan_from hasher state schema p).mode ≡ skip
    → ⊥
unfolding plan_from check_schema first_run incremental_plan
not_skip hasher none schema p e = cc
not_skip hasher (some state) none p e = cc
not_skip hasher (some state) (some new) p e = ground (
  arith,
  changed_not_skip state new state.previous_schema
      (record p { schema_changed = true; new_version = wrap64 (state.schema_version +ℤ pos 1) }),
)

-- plan skips
pub skip_iff :
    (hasher : Hasher) (meta : ObjectMetadata) (state : Option ObjectState) (allowed : List Bytes)
    → ((plan hasher meta state allowed).mode ≡ skip) ↔ ((allowed ≢ []) × ¬ In meta.name allowed)
unfolding plan skip_plan
skip_iff hasher meta state [] =
    (λ e. absurd (not_skip hasher state meta.schema (start_plan meta) e), λ (p, q). absurd (p refl))
skip_iff hasher meta state (a ∷ allowed) = elim (Bool-cases (contains (a ∷ allowed) meta.name)) [
  | inl there ↦ rw there (
    λ e. absurd (not_skip hasher state meta.schema (start_plan meta) e),
    λ (p, q). absurd (q (contains_sound hasher (a ∷ allowed) meta.name there)),
  )
  | inr absent ↦ rw absent (
    λ e. (λ k. cc, λ m. cc (contains_complete hasher (a ∷ allowed) meta.name m, absent)),
    λ _. refl,
  )
]
