-- ===== src/Schema/Hash.antt =====
-- internal/schema/schema.go: the hash and the order of the fields.
use mathlib.Core.Logic.{∥∥₁_elim}
use mathlib.Core.Logic.Or
use mathlib.Core.Bool.{Bool-set}
use mathlib.Core.List.{
  Perm, Permᴰ, Pairwise, Mem, mem-cons_self, mem-cons_of_mem, eq-or-mem_of_mem-cons, not-mem-nil,
  is_set,
}
use mathlib.Core.List.Permᴰ
use native.Mathlib.Nat.{ℕ_set}
use agent_brain.Base.{◌≡◌, refl, sym, ap, ◌∙◌, false, List, [], ◌∷◌, arith, if◌then◌else◌}
use agent_brain.Base.Bytes.{
  Bytes, bytes_eq, bytes_eq_sym, bytes_lt_trans, bytes_lt_asym, bytes_lt_total,
}
use agent_brain.Schema.{Field, HashField, Hasher, by_name, IsOrdered, hash_fields, compute_hash}

abbrev Differ : HashField → HashField → Type 0
Differ f g = bytes_eq f.0 g.0 ≡ false

-- No two fields have one name.
abbrev pub HasDistinctNames : List Field → Type 0
HasDistinctNames = Pairwise (λ f g. bytes_eq f.name g.name ≡ false)

-- A sort to compare with, by insertion.
unfoldable pub insert_field : HashField → List HashField → List HashField
insert_field f [] = f ∷ []
insert_field f (g ∷ gs) = if by_name g f then g ∷ insert_field f gs else f ∷ g ∷ gs

unfoldable pub insertion_sort : List HashField → List HashField
unfolding insert_field
insertion_sort [] = []
insertion_sort (f ∷ fs) = insert_field f (insertion_sort fs)

insert_comm :
    (f g : HashField) (hs : List HashField)
    → Differ f g
    → insert_field f (insert_field g hs) ≡ insert_field g (insert_field f hs)
unfolding insert_field by_name
insert_comm f g [] differ = ground (arith, bytes_lt_asym f.0 g.0, bytes_lt_total f.0 g.0)
insert_comm f g (h ∷ hs) differ = ground (
  arith,
  bytes_lt_asym f.0 g.0,
  bytes_lt_total f.0 g.0,
  bytes_lt_asym g.0 f.0,
  bytes_lt_trans h.0 f.0 g.0,
  bytes_lt_trans h.0 g.0 f.0,
  insert_comm f g hs differ,
)

sort_of_perm :
    (fs gs : List HashField)
    → Permᴰ fs gs
    → Pairwise Differ fs
    → insertion_sort fs ≡ insertion_sort gs
unfolding insertion_sort
sort_of_perm [] [] Permᴰ.nil h = refl
sort_of_perm (f ∷ fs) (g ∷ gs) (Permᴰ.cons e d) (Pairwise.cons above h) =
    rw (e, sort_of_perm fs gs d h) refl
sort_of_perm (f ∷ (g ∷ fs)) (f' ∷ (g' ∷ gs)) (Permᴰ.swap e e') (Pairwise.cons above h) =
    rw (sym e, sym e') (insert_comm f g (insertion_sort fs) (above g mem-cons_self))
sort_of_perm fs hs (Permᴰ.trans {l₂ = gs} d d') h =
    sort_of_perm fs gs d h
    ∙ sort_of_perm gs hs d'
        (Permᴰ.pairwise {R = Differ} (λ f g. Bool-set _ _) (λ f g k. bytes_eq_sym f.0 g.0 ∙ k) d h)

-- An ordered list is as the insertion leaves it.
sort_of_ordered : (fs : List HashField) → IsOrdered fs → insertion_sort fs ≡ fs
unfolding insertion_sort insert_field
sort_of_ordered [] h = refl
sort_of_ordered (f ∷ []) h = refl
sort_of_ordered (f ∷ (g ∷ gs)) (le, h) = rw (sort_of_ordered (g ∷ gs) h, le) refl

-- Two ordered arrangements of the same fields are one.
sort_unique :
    (fs gs fs' gs' : List HashField)
    → Pairwise Differ fs
    → Permᴰ fs gs
    → Permᴰ fs' fs
    → Permᴰ gs' gs
    → IsOrdered fs'
    → IsOrdered gs'
    → fs' ≡ gs'
sort_unique fs gs fs' gs' distinct p q r ordered ordered' =
    let sorted = sort_of_perm fs fs' (Permᴰ.symm q) distinct in
    let sorted' = sort_of_perm fs gs' (Permᴰ.trans p (Permᴰ.symm r)) distinct in
    sym (sort_of_ordered fs' ordered) ∙ sym sorted ∙ sorted' ∙ sort_of_ordered gs' ordered'

hash_fields-perm : (fs gs : List Field) → Permᴰ fs gs → Permᴰ (hash_fields fs) (hash_fields gs)
unfolding hash_fields
hash_fields-perm [] [] Permᴰ.nil = Permᴰ.nil
hash_fields-perm (f ∷ fs) (g ∷ gs) (Permᴰ.cons e d) =
    Permᴰ.cons (ap (λ x. (x.name, x.field_type)) e) (hash_fields-perm fs gs d)
hash_fields-perm (f ∷ (g ∷ fs)) (f' ∷ (g' ∷ gs)) (Permᴰ.swap e e') =
    Permᴰ.swap (ap (λ x. (x.name, x.field_type)) e) (ap (λ x. (x.name, x.field_type)) e')
hash_fields-perm fs hs (Permᴰ.trans {l₂ = gs} d d') =
    Permᴰ.trans (hash_fields-perm fs gs d) (hash_fields-perm gs hs d')

name_differs :
    (name : Bytes) (fs : List Field)
    → ((f : Field) → Mem f fs → bytes_eq name f.name ≡ false)
    → (h : HashField) → Mem h (hash_fields fs)
    → bytes_eq name h.0 ≡ false
unfolding hash_fields
name_differs name [] differ h m = absurd (not-mem-nil m)
name_differs name (f ∷ fs) differ h m =
    Or.elim (Bool-set _ _) (eq-or-mem_of_mem-cons m) (λ e. rw e (differ f mem-cons_self))
      (name_differs name fs (λ g k. differ g (mem-cons_of_mem f k)) h)

hash_fields-Differ : (fs : List Field) → HasDistinctNames fs → Pairwise Differ (hash_fields fs)
unfolding hash_fields
hash_fields-Differ [] Pairwise.nil = Pairwise.nil
hash_fields-Differ (f ∷ fs) (Pairwise.cons above h) =
    Pairwise.cons (name_differs f.name fs above) (hash_fields-Differ fs h)

-- The hash of a schema whose fields have different names does not depend on their order, whatever
-- sort.Slice does with equal names.
pub compute_hash-perm :
    (hasher : Hasher) (fs gs : List Field)
    → HasDistinctNames fs
    → Perm fs gs
    → compute_hash hasher fs ≡ compute_hash hasher gs
unfolding compute_hash
compute_hash-perm hasher fs gs distinct p =
    let same_hash = is_set ℕ_set (compute_hash hasher fs) (compute_hash hasher gs) in
    let sorted = λ (hs : List HashField). hasher.sort_slice by_name hs in
    ∥∥₁_elim p same_hash (λ d. ∥∥₁_elim (hasher.sort_slice_perm (hash_fields fs)) same_hash (λ d₁.
      ∥∥₁_elim (hasher.sort_slice_perm (hash_fields gs)) same_hash (λ d₂. ap hasher.digest (
        sort_unique (hash_fields fs) (hash_fields gs) (sorted (hash_fields fs))
          (sorted (hash_fields gs)) (hash_fields-Differ fs distinct) (hash_fields-perm fs gs d) d₁
          d₂ (hasher.sort_slice_ordered (hash_fields fs))
          (hasher.sort_slice_ordered (hash_fields gs))))))
