-- ===== src/Schema/Change.antt =====
-- internal/schema/evolution.go: what `Diff` says of two schemas.
use agent_brain.Base.{
  ◌≡◌, refl, ◌↔◌, inl, inr, true, false, none, some, List, [], ◌∷◌, arith, Bool-cases, Option-cases,
  is_some,
}
use agent_brain.Base.Bytes.{Bytes, bytes_eq, bytes_eq_iff, bytes_eq_refl}
use agent_brain.Base.Map.{Map, lookup, insert, lookup-insert}
use agent_brain.Schema.{
  Field, Schema, breaking, changing, field_map, add_fields, missing_from, compare_types,
  changed_types, overall_change, diff, TypeChange, is_breaking, has_changes,
}

some_inj : {x y : Field} → some x ≡ some y → x ≡ y
some_inj e = cc

-- A column of the one map is one of the other, of the same type.
abbrev pub Keeps : Map Field → Map Field → Type 0
Keeps old new =
    (name : Bytes) (f : Field)
    → lookup name old ≡ some f
    → (g : Field) × (lookup name new ≡ some g) × (f.field_type ≡ g.field_type)

-- A name of the one map is one of the other.
abbrev pub Covers : Map Field → Map Field → Type 0
Covers other m =
    (name : Bytes) → is_some (lookup name m) ≡ true → is_some (lookup name other) ≡ true

-- No name stands twice.
abbrev Unique : Map Field → Type 0
Unique [] = Unit {0}
Unique ((name, f) ∷ m) = (lookup name m ≡ none) × Unique m

insert-Unique : (name : Bytes) (f : Field) (m : Map Field) → Unique m → Unique (insert name f m)
unfolding insert lookup
insert-Unique name f [] h = (refl, tt)
insert-Unique name f ((j, g) ∷ m) h = elim (Bool-cases (bytes_eq j name)) [
  | inl same ↦ rw same (rw (← (bytes_eq_iff j name).0 same) h.0, h.1)
  | inr differ ↦ rw differ (
    ground (arith, lookup-insert name j f m, bytes_eq_iff name j, bytes_eq_iff j name),
    insert-Unique name f m h.1,
  )
]

add_fields-Unique : (fs : List Field) (m : Map Field) → Unique m → Unique (add_fields fs m)
unfolding add_fields
add_fields-Unique [] m h = h
add_fields-Unique (f ∷ fs) m h =
    add_fields-Unique fs (insert f.name f m) (insert-Unique f.name f m h)

missing-covered :
    (other m : Map Field) (name : Bytes)
    → missing_from other m ≡ []
    → is_some (lookup name m) ≡ true
    → is_some (lookup name other) ≡ true
unfolding missing_from lookup
missing-covered other [] name e there = cc
missing-covered other ((j, f) ∷ m) name e there =
    ground (arith, bytes_eq_iff j name, missing-covered other m name)

Covers-missing : (other m : Map Field) → Covers other m → missing_from other m ≡ []
unfolding missing_from lookup
Covers-missing other [] h = refl
Covers-missing other ((j, f) ∷ m) h =
    let rest = Covers-missing other m (λ name there. h name (ground arith)) in
    let here : is_some (lookup j other) ≡ true = h j (rw (bytes_eq_refl j) refl) in
    ground (arith, rest, here)

type_of_compare :
    (name : Bytes) (f g : Field) (rest : List TypeChange)
    → compare_types name f (some g) rest ≡ []
    → (f.field_type ≡ g.field_type) × (rest ≡ [])
unfolding compare_types
type_of_compare name f g rest e = ground (arith, bytes_eq_iff f.field_type g.field_type)

changed-Keeps : (new m : Map Field) → Covers new m → changed_types new m ≡ [] → Keeps m new
unfolding changed_types lookup
changed-Keeps new [] c e name f found = cc
changed-Keeps new ((j, h) ∷ m) c e name f found =
    let here : is_some (lookup j new) ≡ true = c j (rw (bytes_eq_refl j) refl) in
    elim (Option-cases (lookup j new)) [
      | inl gone ↦ absurd (ground (arith, here, gone))
      | inr (g, there) ↦
          let (same_type, rest) = type_of_compare j h g (changed_types new m) (rw there at e) in
          elim (Bool-cases (bytes_eq j name)) [
            | inl same ↦
                let k = (bytes_eq_iff j name).0 same in
                let hf : h ≡ f = some_inj (rw same at found) in
                (g, rw (← k) there, rw (← hf) same_type)
            | inr differ ↦
                changed-Keeps new m (λ n t. c n (ground arith)) rest name f (rw differ at found)
          ]
    ]

Keeps-changed : (new m : Map Field) → Unique m → Keeps m new → changed_types new m ≡ []
unfolding changed_types lookup compare_types
Keeps-changed new [] u k = refl
Keeps-changed new ((j, h) ∷ m) u k =
    let (g, there, same_type) = k j h (rw (bytes_eq_refl j) refl) in
    let rest = Keeps-changed new m u.1 (λ name f found.
      k name f (elim (Bool-cases (bytes_eq j name)) [
        | inl same ↦ let k' = (bytes_eq_iff j name).0 same in absurd (cc (u.0))
        | inr differ ↦ rw differ found
      ])) in
    rw (there, same_type, bytes_eq_refl g.field_type) rest

Keeps-Covers : (new m : Map Field) → Keeps m new → Covers new m
Keeps-Covers new m k name there = elim (Option-cases (lookup name m)) [
  | inl gone ↦ absurd (ground (arith, gone, there))
  | inr (f, found) ↦ let (g, e, same_type) = k name f found in rw e refl
]

not_breaking :
    (added removed : List Field) (changes : List TypeChange)
    → breaking (overall_change added removed changes) ≡ false
    → (removed ≡ []) × (changes ≡ [])
unfolding overall_change
not_breaking added [] [] e = (refl, refl)
not_breaking added [] (c ∷ cs) e = cc
not_breaking added (r ∷ rs) cs e = cc

not_changing :
    (added removed : List Field) (changes : List TypeChange)
    → changing (overall_change added removed changes) ≡ false
    → (added ≡ []) × (removed ≡ []) × (changes ≡ [])
unfolding overall_change
not_changing [] [] [] e = (refl, refl, refl)
not_changing (a ∷ as') [] [] e = cc
not_changing added [] (c ∷ cs) e = cc
not_changing added (r ∷ rs) cs e = cc

-- The diff of two schemas is not breaking exactly when every column of the old one is in the new
-- one with the same type, and shows no change exactly when moreover the new one has no further
-- column.
pub diff_lem :
    (old new : Schema)
    → let d = diff old new in
      ((is_breaking d ≡ false) ↔ Keeps (field_map old) (field_map new))
      × ((has_changes d ≡ false)
          ↔ (Keeps (field_map old) (field_map new) × Covers (field_map old) (field_map new)))
unfolding diff is_breaking has_changes overall_change
diff_lem old new = (
  (
    λ e.
        let (removed, changes) = not_breaking _ _ _ e in
        changed-Keeps (field_map new) (field_map old)
          (λ name there. missing-covered _ _ name removed there) changes,
    λ k.
        rw
          (
            Covers-missing (field_map new) (field_map old) (Keeps-Covers _ _ k),
            Keeps-changed (field_map new) (field_map old) unique k,
          )
          (added_only _),
  ),
  (
    λ e.
        let (added, removed, changes) = not_changing _ _ _ e in
        (
          changed-Keeps (field_map new) (field_map old)
              (λ name there. missing-covered _ _ name removed there) changes,
          λ name there. missing-covered (field_map old) (field_map new) name added there,
        ),
    λ (k, c).
        rw
          (
            Covers-missing (field_map old) (field_map new) c,
            Covers-missing (field_map new) (field_map old) (Keeps-Covers _ _ k),
            Keeps-changed (field_map new) (field_map old) unique k,
          )
          refl,
  ),
)
  where
    unique : Unique (field_map old)
    unique = unfold field_map in add_fields-Unique old.fields [] tt

    added_only : (added : List Field) → breaking (overall_change added [] []) ≡ false
    added_only [] = refl
    added_only (a ∷ as') = refl
