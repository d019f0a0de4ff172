-- ===== src/Migration/Versions.antt =====
-- internal/migration/engine.go: a forward migration in two parts.
use mathlib.Core.Path.{fun_ext}
use agent_brain.Base.{
  ℕ, zero, suc, ◌+◌, ◌≡◌, refl, sym, ap, ◌∙◌, Bool, true, false, List, [], ◌∷◌, ◌++◌, is_some,
  Bool-cases, inl, inr, arith,
}
use agent_brain.Base.Int.{
  ℤ, pos, pos_part, ◌+ℤ◌, ◌-ℤ◌, ◌≤ℤ◌, ◌<ℤ◌, leb_ℤ, ltb_ℤ, eqb_ℤ, eq_of_parts, wrap64,
  wrap64_in_range, IsInt64, max_int64,
}
use agent_brain.Retry.Errors.{Result, ok, err}
use agent_brain.Delta.Store.{◌>>=◌}
use agent_brain.Migration.{
  Migrations, find, prepend, forward_path, migration_path, run_step, run_path,
  execute_migration_path,
}

-- `n` versions from `v` on.
versions : ℕ → ℤ → List ℤ
versions zero v = []
versions (suc n) v = v ∷ versions n (v +ℤ pos 1)

in_range_step :
    (v to : ℤ) → IsInt64 v → v ≤ℤ to → to <ℤ pos max_int64 → wrap64 (v +ℤ pos 1) ≡ v +ℤ pos 1
unfolding ◌+ℤ◌
in_range_step v to h le lt = wrap64_in_range (v +ℤ pos 1) (ground arith)

next_IsInt64 : (v to : ℤ) → IsInt64 v → v ≤ℤ to → to <ℤ pos max_int64 → IsInt64 (v +ℤ pos 1)
unfolding ◌+ℤ◌
next_IsInt64 v to h le lt = ground arith

-- `n` versions from `v` on end at `to`.
Spans : ℕ → ℤ → ℤ → Type 0
Spans n v to = (v +ℤ pos n ≤ℤ to +ℤ pos 1) × (to +ℤ pos 1 ≤ℤ v +ℤ pos n)

Spans-suc :
    (n : ℕ) (v to : ℤ)
    → Spans (suc n) v to
    → (leb_ℤ v to ≡ true) × (v ≤ℤ to) × Spans n (v +ℤ pos 1) to
unfolding Spans ◌+ℤ◌
Spans-suc n v to h = (ground arith, ground arith, (ground arith, ground arith))

Spans-zero : (v to : ℤ) → Spans 0 v to → leb_ℤ v to ≡ false
unfolding Spans ◌+ℤ◌
Spans-zero v to h = ground arith

below : (v u : ℤ) → v +ℤ pos 1 ≤ℤ u → v ≤ℤ u
unfolding ◌+ℤ◌
below v u h = ground arith

plus_zero : (v : ℤ) → v +ℤ pos 0 ≡ v
unfolding ◌+ℤ◌
plus_zero v = eq_of_parts (v +ℤ pos 0) v (ground arith)

plus_one : (v : ℤ) (a : ℕ) → (v +ℤ pos 1) +ℤ pos a ≡ v +ℤ pos (suc a)
unfolding ◌+ℤ◌
plus_one v a = eq_of_parts (v +ℤ pos 1 +ℤ pos a) (v +ℤ pos (suc a)) (ground arith)

versions-append : (a b : ℕ) (v : ℤ) → versions (a + b) v ≡ versions a v ++ versions b (v +ℤ pos a)
unfolding versions
versions-append zero b v =
    let count : 0 + b ≡ b = omega arith in
    ap (λ n. versions n v) count ∙ ap (versions b) (sym (plus_zero v))
versions-append (suc a) b v =
    let count : suc a + b ≡ suc (a + b) = omega arith in
    ap (λ n. versions n v) count
    ∙ ap (λ us. v ∷ us) (versions-append a b (v +ℤ pos 1))
    ∙ ap (λ u. v ∷ (versions a (v +ℤ pos 1) ++ versions b u)) (plus_one v a)

difference_sum :
    (from mid to : ℤ)
    → from ≤ℤ mid
    → mid ≤ℤ to
    → pos_part (to -ℤ from) ≡ pos_part (mid -ℤ from) + pos_part (to -ℤ mid)
unfolding ◌-ℤ◌
difference_sum from mid to le le' = ground arith

reach :
    (from mid : ℤ) → from ≤ℤ mid → (from +ℤ pos 1) +ℤ pos (pos_part (mid -ℤ from)) ≡ mid +ℤ pos 1
unfolding ◌+ℤ◌ ◌-ℤ◌
reach from mid le = eq_of_parts _ _ (ground arith)

Spans-difference : (from to : ℤ) → from ≤ℤ to → Spans (pos_part (to -ℤ from)) (from +ℤ pos 1) to
unfolding Spans ◌+ℤ◌ ◌-ℤ◌
Spans-difference from to le = (ground arith, ground arith)

no_difference : (from to : ℤ) → eqb_ℤ from to ≡ true → pos_part (to -ℤ from) ≡ 0
unfolding ◌-ℤ◌
no_difference from to e = ground arith

ltb-apart :
    (from to : ℤ)
    → from ≤ℤ to
    → eqb_ℤ from to ≡ false
    → (ltb_ℤ from to ≡ true) × (from +ℤ pos 1 ≤ℤ to)
unfolding ◌+ℤ◌
ltb-apart from to le apart = (ground arith, ground arith)

first_in_range :
    (from to : ℤ)
    → IsInt64 from
    → to <ℤ pos max_int64
    → from ≤ℤ to
    → IsInt64 (from +ℤ pos 1) × IsInt64 to
unfolding ◌+ℤ◌
first_in_range from to h lt le = (ground arith, ground arith)

leq_trans : (a b c : ℤ) → a ≤ℤ b → b ≤ℤ c → a ≤ℤ c
leq_trans a b c h k = omega arith

below_max : (mid to : ℤ) → mid ≤ℤ to → to <ℤ pos max_int64 → mid <ℤ pos max_int64
below_max mid to h lt = omega arith

above_first : (from mid v : ℤ) → from ≤ℤ mid → mid +ℤ pos 1 ≤ℤ v → from +ℤ pos 1 ≤ℤ v
unfolding ◌+ℤ◌
above_first from mid v h k = ground arith

module _ {W D : Type 0} (es : Migrations W D) where
  -- Every version from `low` to `high` has a migration.
  abbrev pub IsComplete : ℤ → ℤ → Type 0
  IsComplete low high = (v : ℤ) → low ≤ℤ v → v ≤ℤ high → is_some (find v es) ≡ true

  forward_path-all :
      (n : ℕ) (v to : ℤ)
      → IsInt64 v
      → to <ℤ pos max_int64
      → Spans n v to
      → IsComplete v to
      → forward_path es (suc n) v to ≡ ok (versions n v)
  unfolding forward_path versions prepend
  forward_path-all zero v to h lt s all = rw (Spans-zero v to s) refl
  forward_path-all (suc n) v to h lt s all =
      let (test, le, s') = Spans-suc n v to s in
      let more =
        forward_path-all n (v +ℤ pos 1) to (next_IsInt64 v to h le lt) lt s'
          (λ u low high. all u (below v u low) high) in
      rw (test, all v (omega arith) le, in_range_step v to h le lt, more) refl

  run_path-append :
      (upward : Bool) (vs us : List ℤ) (d : D) (w : W)
      → run_path es upward (vs ++ us) d w ≡ (run_path es upward vs d >>= run_path es upward us) w
  unfolding run_path ◌>>=◌
  run_path-append upward [] us d w = refl
  run_path-append upward (v ∷ vs) us d w =
      after (run_step es upward v d w) (λ d' w'. run_path-append upward vs us d' w')
    where
      after :
          (r : Result D × W)
          → ((d' : D) (w' : W)
              → run_path es upward (vs ++ us) d' w'
                ≡ (run_path es upward vs d' >>= run_path es upward us) w')
          → ((λ _. r) >>= run_path es upward (vs ++ us)) w
            ≡ (((λ _. r) >>= run_path es upward vs) >>= run_path es upward us) w
      after (ok d', w') h = h d' w'
      after (err e, w') h = refl

  -- An upward migration runs the versions above the first.
  execute_upward :
      (from to : ℤ) (d : D)
      → IsInt64 from
      → to <ℤ pos max_int64
      → from ≤ℤ to
      → IsComplete (from +ℤ pos 1) to
      → execute_migration_path es d from to
        ≡ run_path es true (versions (pos_part (to -ℤ from)) (from +ℤ pos 1)) d
  unfolding execute_migration_path migration_path
  execute_upward from to d h lt le all = elim (Bool-cases (eqb_ℤ from to)) [
    | inl same ↦ rw (same, no_difference from to same) (unfold versions run_path in refl)
    | inr apart ↦
        let (up, some_way) = ltb-apart from to le apart in
        rw
          (
            apart,
            up,
            in_range_step from to h le lt,
            forward_path-all (pos_part (to -ℤ from)) (from +ℤ pos 1) to
                (first_in_range from to h lt le).0 lt (Spans-difference from to le) all,
            up,
          )
          refl
  ]

  -- An upward migration may stop on the way: with a migration for every version above the first up
  -- to a last one below 2^63 - 1, going from the first to the last does and returns the same as
  -- going to a version between them and from there on.
  pub execute_migration_path-through :
      (from mid to : ℤ) (d : D) (w : W)
      → IsInt64 from
      → to <ℤ pos max_int64
      → from ≤ℤ mid
      → mid ≤ℤ to
      → IsComplete (from +ℤ pos 1) to
      → execute_migration_path es d from to w
        ≡ (execute_migration_path es d from mid >>= λ d'. execute_migration_path es d' mid to) w
  execute_migration_path-through from mid to d w h lt le le' all =
      let low =
        execute_upward from mid d h (below_max mid to le' lt) le
          (λ v above under. all v above (leq_trans v mid to under le')) in
      let high = λ (d' : D).
        execute_upward mid to d' (first_in_range from mid h (below_max mid to le' lt) le).1 lt le'
          (λ v above under. all v (above_first from mid v le above) under) in
      rw
        (
          execute_upward from to d h lt (leq_trans from mid to le le') all,
          difference_sum from mid to le le',
          versions-append (pos_part (mid -ℤ from)) (pos_part (to -ℤ mid)) (from +ℤ pos 1),
          reach from mid le,
          low,
          fun_ext high,
        )
        (run_path-append true (versions (pos_part (mid -ℤ from)) (from +ℤ pos 1))
          (versions (pos_part (to -ℤ mid)) (mid +ℤ pos 1)) d w)
