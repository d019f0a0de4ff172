-- ===== src/Sync/Consistency/Healthy.antt =====
-- internal/sync/consistency.go: when a report is healthy.
use mathlib.Core.Path.{subst}
use agent_brain.Base.{
  ℕ, ◌≡◌, ◌↔◌, refl, All, Bool, true, false, Option, none, some, List, [], ◌∷◌, ◌++◌, if◌then◌else◌,
  is_some, some_inj, if_cases, Bool-cases, inl, inr, arith,
}
use agent_brain.Base.Int.{ℤ, ltb_ℤ, ◌≤ℤ◌}
use agent_brain.Base.Bytes.{Bytes}
use agent_brain.Base.Map.{Map, lookup}
use agent_brain.Sync.Planner.{ObjectPlan, ObjectState}
use agent_brain.Sync.Consistency.{
  ObjectResult, ConsistencyViolation, ConsistencyTracker, healthy, unhealthy, degraded, hours,
  time_sub, sync_gap, flags, calculate_overall_status,
}
use agent_brain.Sync.Consistency.Checks.{
  max_age, check_staleness, missing_dependents, missing, check_missing, drift_of, gap_of, drifted,
  apart, each_dependent, each_pair, check_watermark_drift, check_transaction_boundary,
  object_results, find_violations, validate_sync,
}

cons-empty : {A P : Type 0} {x : A} {xs : List A} → x ∷ xs ≡ [] → P
cons-empty e = cc

none-some : {A : Type 0} {x : A} → none ≡ some x → ⊥
none-some e = cc

false-ne-true : false ≡ true → ⊥
false-ne-true e = cc

append-empty : {A : Type 0} (xs ys : List A) → (xs ++ ys ≡ []) ↔ ((xs ≡ []) × (ys ≡ []))
append-empty [] ys = (λ e. (refl, e), λ e. e.1)
append-empty (x ∷ xs) ys = (λ e. cons-empty e, λ e. cons-empty e.0)

unhealthy-ne-healthy : unhealthy ≡ healthy → ⊥
unhealthy-ne-healthy e = cc

degraded-ne-healthy : degraded ≡ healthy → ⊥
degraded-ne-healthy e = cc

status-healthy :
    (vs : List ConsistencyViolation) → (calculate_overall_status vs ≡ healthy) ↔ (vs ≡ [])
unfolding calculate_overall_status
status-healthy [] = (λ e. refl, λ e. refl)
status-healthy (v ∷ vs) = (
  λ e. absurd (
      if_cases (λ s. s ≡ healthy → ⊥) (flags (v ∷ vs) false false).0 _ _ unhealthy-ne-healthy
        (if_cases (λ s. s ≡ healthy → ⊥) (flags (v ∷ vs) false false).1 _ _ degraded-ne-healthy
          degraded-ne-healthy)
        e),
  λ e. cons-empty e,
)

-- A list made of two parts is empty when each part meets its condition.
both : {A P Q : Type 0} (xs ys : List A) → (xs ≡ []) ↔ P → (ys ≡ []) ↔ Q → (xs ++ ys ≡ []) ↔ (P × Q)
both xs ys (f, f') (g, g') =
    let (apart, joined) = append-empty xs ys in
    (λ e. let (l, r) = apart e in (f l, g r), λ (p, q). joined (f' p, g' q))

-- A violation that is added unless a bound is kept.
unless_above :
    {A : Type 0} (bound z : ℤ) (v : A)
    → ((if ltb_ℤ bound z then v ∷ [] else []) ≡ []) ↔ (z ≤ℤ bound)
unless_above bound z v = elim (Bool-cases (ltb_ℤ bound z)) [
  | inl above ↦ rw above (λ e. cons-empty e, λ e. ground arith)
  | inr within ↦ rw within (λ e. ground arith, λ e. refl)
]

-- What is checked only of a result that is there.
when_present :
    {A : Type 0} (o : Option ObjectResult) (check : ObjectResult → List A)
    (P : ObjectResult → Type 0)
    → ((r : ObjectResult) → (check r ≡ []) ↔ P r)
    → (elim o [ some r ↦ check r | none ↦ [] ] ≡ []) ↔ ((r : ObjectResult) → o ≡ some r → P r)
when_present none check P h = (λ e r e'. absurd (none-some e'), λ e. refl)
when_present (some r) check P h =
    (λ e r' e'. subst P (some_inj e') ((h r).0 e), λ f. (h r).1 (f r refl))

module _ (ct : ConsistencyTracker) (text : Bool → ℤ → Bytes) (ratio_above : ℤ → ℤ → ℕ → Bool) where
  -- Every object was synced within its window.
  pub IsFresh : ℤ → Map ObjectResult → Type 0
  IsFresh now =
      All (λ entry. time_sub now entry.1.last_sync_time ≤ℤ max_age ct text ratio_above entry.0)

  check_staleness-IsFresh :
      (now : ℤ) (results : Map ObjectResult)
      → (check_staleness ct text ratio_above now results ≡ []) ↔ IsFresh now results
  unfolding check_staleness IsFresh
  check_staleness-IsFresh now [] = (λ e. tt, λ e. refl)
  check_staleness-IsFresh now ((object, r) ∷ rest) =
      elim (Bool-cases
        (ltb_ℤ (max_age ct text ratio_above object) (time_sub now r.last_sync_time))) [
          | inl above ↦ rw above (λ e. cons-empty e, λ e. absurd (let h = e.0 in ground arith))
          | inr within ↦
              let (f, f') = check_staleness-IsFresh now rest in
              rw within (λ e. (ground arith, f e), λ e. f' e.1)
        ]

  module _ (results : Map ObjectResult) where
    -- Every dependent of an object with a result has one.
    pub IsWhole : Map (List Bytes) → Type 0
    IsWhole = All (λ entry.
        is_some (lookup entry.0 results) ≡ true
        → All (λ d. is_some (lookup d results) ≡ true) entry.1)

    filter-empty :
        (ds : List Bytes)
        → (missing_dependents ct text ratio_above results ds ≡ [])
          ↔ All (λ d. is_some (lookup d results) ≡ true) ds
    unfolding missing_dependents
    filter-empty [] = (λ e. tt, λ e. refl)
    filter-empty (d ∷ ds) = elim (Bool-cases (is_some (lookup d results))) [
      | inl here ↦ let (f, f') = filter-empty ds in rw here (λ e. (refl, f e), λ e. f' e.1)
      | inr gone ↦ rw gone (λ e. cons-empty e, λ e. absurd (let h = e.0 in cc))
    ]

    missing-empty :
        (parent : Bytes) (ds : List Bytes)
        → (missing ct text ratio_above results parent ds ≡ []) ↔ (ds ≡ [])
    unfolding missing
    missing-empty parent [] = (λ e. refl, λ e. refl)
    missing-empty parent (d ∷ ds) = (λ e. cons-empty e, λ e. cons-empty e)

    check_missing-IsWhole :
        (rels : Map (List Bytes))
        → (check_missing ct text ratio_above results rels ≡ []) ↔ IsWhole rels
    unfolding check_missing IsWhole
    check_missing-IsWhole [] = (λ e. tt, λ e. refl)
    check_missing-IsWhole ((parent, ds) ∷ rest) =
        both _ _ (here (is_some (lookup parent results))) (check_missing-IsWhole rest)
      where
        here :
            (b : Bool)
            → ((if b
                  then missing ct text ratio_above results parent
                      (missing_dependents ct text ratio_above results ds)
                  else [])
                ≡ [])
              ↔ (b ≡ true → All (λ d. is_some (lookup d results) ≡ true) ds)
        here true =
            let (f, f') =
              missing-empty parent (missing_dependents ct text ratio_above results ds) in
            let (g, g') = filter-empty ds in (λ e h. g (f e), λ h. f' (g' (h refl)))
        here false = (λ e h. absurd (false-ne-true h), λ h. refl)

    -- A condition on the results of every parent and dependent that both have one.
    pub Pairwise : (ObjectResult → ObjectResult → Type 0) → Map (List Bytes) → Type 0
    Pairwise P = All (λ entry.
        (p : ObjectResult)
        → lookup entry.0 results ≡ some p
        → All (λ d. (r : ObjectResult) → lookup d results ≡ some r → P p r) entry.1)

    each_dependent-empty :
        (check : Bytes → ObjectResult → List ConsistencyViolation) (P : ObjectResult → Type 0)
        → ((d : Bytes) (r : ObjectResult) → (check d r ≡ []) ↔ P r)
        → (ds : List Bytes)
        → (each_dependent ct text ratio_above results check ds ≡ [])
          ↔ All (λ d. (r : ObjectResult) → lookup d results ≡ some r → P r) ds
    unfolding each_dependent
    each_dependent-empty check P h [] = (λ e. tt, λ e. refl)
    each_dependent-empty check P h (d ∷ ds) =
        both _ _ (when_present (lookup d results) (check d) P (h d))
          (each_dependent-empty check P h ds)

    each_pair-Pairwise :
        (check : Bytes → ObjectResult → Bytes → ObjectResult → List ConsistencyViolation)
        (P : ObjectResult → ObjectResult → Type 0)
        → ((n : Bytes) (p : ObjectResult) (d : Bytes) (r : ObjectResult)
            → (check n p d r ≡ []) ↔ P p r)
        → (rels : Map (List Bytes))
        → (each_pair ct text ratio_above results check rels ≡ []) ↔ Pairwise P rels
    unfolding each_pair Pairwise
    each_pair-Pairwise check P h [] = (λ e. tt, λ e. refl)
    each_pair-Pairwise check P h ((parent, ds) ∷ rest) =
        both _ _
          (when_present (lookup parent results)
            (λ p. each_dependent ct text ratio_above results (check parent p) ds)
            (λ p. All (λ d. (r : ObjectResult) → lookup d results ≡ some r → P p r) ds)
            (λ p. each_dependent-empty (check parent p) (P p) (h parent p) ds))
          (each_pair-Pairwise check P h rest)

  -- The results of a healthy report: each object within its window, no dependent missing, and every
  -- dependent at most an hour behind its parent and synced at most six hours from it.
  pub IsConsistent : ℤ → Map ObjectResult → Type 0
  IsConsistent now results =
      ((IsFresh now results × IsWhole results ct.relationships)
        × Pairwise results (λ p d. time_sub p.watermark_value d.watermark_value ≤ℤ hours 1)
            ct.relationships)
      × Pairwise results (λ p d. sync_gap p.last_sync_time d.last_sync_time ≤ℤ hours 6)
          ct.relationships

  drift_of-empty :
      (results : Map ObjectResult) (n : Bytes) (p : ObjectResult) (d : Bytes) (r : ObjectResult)
      → (drift_of ct text ratio_above results n p d r ≡ [])
        ↔ (time_sub p.watermark_value r.watermark_value ≤ℤ hours 1)
  unfolding drift_of
  drift_of-empty results n p d r =
      let drift = time_sub p.watermark_value r.watermark_value in
      unless_above (hours 1) drift (drifted ct text ratio_above results n d drift)

  gap_of-empty :
      (results : Map ObjectResult) (n : Bytes) (p : ObjectResult) (d : Bytes) (r : ObjectResult)
      → (gap_of ct text ratio_above results n p d r ≡ [])
        ↔ (sync_gap p.last_sync_time r.last_sync_time ≤ℤ hours 6)
  unfolding gap_of
  gap_of-empty results n p d r =
      let gap = sync_gap p.last_sync_time r.last_sync_time in
      unless_above (hours 6) gap (apart ct text ratio_above results n d gap)

  find_violations-IsConsistent :
      (now : ℤ) (results : Map ObjectResult)
      → (find_violations ct text ratio_above now results ≡ []) ↔ IsConsistent now results
  unfolding find_violations IsConsistent check_watermark_drift check_transaction_boundary
  find_violations-IsConsistent now results =
      both _ _
        (both _ _
          (both _ _ (check_staleness-IsFresh now results)
            (check_missing-IsWhole results ct.relationships))
          (each_pair-Pairwise results (drift_of ct text ratio_above results) _
            (drift_of-empty results) ct.relationships))
        (each_pair-Pairwise results (gap_of ct text ratio_above results) _ (gap_of-empty results)
          ct.relationships)

  -- A report is healthy exactly when every object was synced within its window, every dependent of
  -- an object with a result has one, and every such dependent is at most an hour behind its
  -- parent's watermark and, by the computed gap, synced at most six hours from it.
  pub validate_sync-IsConsistent :
      (fresh : Bytes → ℤ × ℤ) (now : ℤ) (plans : List ObjectPlan) (state : Map ObjectState)
      → ((validate_sync ct text ratio_above fresh now plans state).overall_status ≡ healthy)
        ↔ IsConsistent now (object_results ct text ratio_above fresh state plans [])
  unfolding validate_sync
  validate_sync-IsConsistent fresh now plans state =
      let results = object_results ct text ratio_above fresh state plans [] in
      let (f, f') = status-healthy (find_violations ct text ratio_above now results) in
      let (g, g') = find_violations-IsConsistent now results in (λ e. g (f e), λ c. f' (g' c))
