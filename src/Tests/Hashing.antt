-- ===== src/Tests/Hashing.antt =====
-- A hasher that sorts by insertion.
use mathlib.Core.List.{Perm}
use mathlib.Core.List.Perm
use agent_brain.Base.{◌≡◌, true, false, Bool-cases, inl, inr, List, [], ◌∷◌}
use agent_brain.Base.Bytes.{Bytes, bytes_lt_asym}
use agent_brain.Schema.{HashField, Hasher, by_name, IsOrdered}
use agent_brain.Schema.Hash.{insert_field, insertion_sort}

insert_field-perm : (f : HashField) (fs : List HashField) → Perm (insert_field f fs) (f ∷ fs)
unfolding insert_field
insert_field-perm f [] = Perm.rfl
insert_field-perm f (g ∷ gs) = elim (Bool-cases (by_name g f)) [
  | inl below ↦ rw below (Perm.trans (Perm.cons g (insert_field-perm f gs)) (Perm.swap f g gs))
  | inr le ↦ rw le Perm.rfl
]

pub insertion_sort-perm : (fs : List HashField) → Perm (insertion_sort fs) fs
unfolding insertion_sort
insertion_sort-perm [] = Perm.rfl
insertion_sort-perm (f ∷ fs) =
    Perm.trans (insert_field-perm f (insertion_sort fs)) (Perm.cons f (insertion_sort-perm fs))

not_above : (f g : HashField) → by_name g f ≡ true → by_name f g ≡ false
unfolding by_name
not_above f g h = bytes_lt_asym g.0 f.0 h

behind :
    (f g k : HashField) (gs : List HashField)
    → by_name g f ≡ true
    → by_name k g ≡ false
    → IsOrdered (insert_field f (k ∷ gs))
    → IsOrdered (g ∷ insert_field f (k ∷ gs))
unfolding insert_field
behind f g k gs below le = elim (Bool-cases (by_name k f)) [
  | inl deeper ↦ rw deeper (λ h. (le, h))
  | inr here ↦ rw here (λ h. (not_above f g below, h))
]

insert_field-IsOrdered :
    (f : HashField) (fs : List HashField) → IsOrdered fs → IsOrdered (insert_field f fs)
unfolding insert_field
insert_field-IsOrdered f [] h = tt
insert_field-IsOrdered f (g ∷ []) h = elim (Bool-cases (by_name g f)) [
  | inl below ↦ rw below (not_above f g below, tt)
  | inr le ↦ rw le (le, tt)
]
insert_field-IsOrdered f (g ∷ (k ∷ gs)) (le', h) =
    let ordered = insert_field-IsOrdered f (k ∷ gs) h in
    elim (Bool-cases (by_name g f)) [
      | inl below ↦ rw below (behind f g k gs below le' ordered)
      | inr le ↦ rw le (le, (le', h))
    ]

pub insertion_sort-IsOrdered : (fs : List HashField) → IsOrdered (insertion_sort fs)
unfolding insertion_sort
insertion_sort-IsOrdered [] = tt
insertion_sort-IsOrdered (f ∷ fs) =
    insert_field-IsOrdered f (insertion_sort fs) (insertion_sort-IsOrdered fs)

abbrev pub by_insertion : (List HashField → Bytes) → Hasher
by_insertion digest = record {
  sort_slice = λ less. insertion_sort;
  sort_slice_perm = insertion_sort-perm;
  sort_slice_ordered = insertion_sort-IsOrdered;
  digest = digest;
}
