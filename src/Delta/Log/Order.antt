-- ===== src/Delta/Log/Order.antt =====
-- internal/storage/delta/log.go: the order in which `ListVersions` gives the versions.
use agent_brain.Base.{
  ◌≡◌, refl, sym, ap, ◌∙◌, ◌⊎◌, inl, inr, true, false, Option, none, some, List, [], ◌∷◌, arith,
  All, In, if_split,
}
use mathlib.Core.Path.{subst}
use agent_brain.Base.Int.{ℤ, leb_ℤ, ◌≤ℤ◌}
use agent_brain.Base.Bytes.{Bytes}
use agent_brain.Delta.Keys.{version_of_key}
use agent_brain.Delta.Log.{keep_version, versions_of, insert_version, sort_versions, last_version}

abbrev pub IsSorted : List ℤ → Type 0
IsSorted [] = Unit
IsSorted (v ∷ vs) = All (λ x. v ≤ℤ x) vs × IsSorted vs

leb_ℤ→le : (a b : ℤ) → leb_ℤ a b ≡ true → a ≤ℤ b
leb_ℤ→le a b h = ground arith

not-leb_ℤ→le : (a b : ℤ) → leb_ℤ a b ≡ false → b ≤ℤ a
not-leb_ℤ→le a b h = ground arith

All-le : (a b : ℤ) (xs : List ℤ) → a ≤ℤ b → All (λ x. b ≤ℤ x) xs → All (λ x. a ≤ℤ x) xs
All-le a b [] h k = tt
All-le a b (x ∷ xs) h k = (omega arith, All-le a b xs h k.1)

insert_version-All :
    (v a : ℤ) (xs : List ℤ)
    → a ≤ℤ v
    → All (λ x. a ≤ℤ x) xs
    → All (λ x. a ≤ℤ x) (insert_version v xs)
unfolding insert_version
insert_version-All v a [] h k = (h, tt)
insert_version-All v a (x ∷ xs) h k =
    if_split (All (λ y. a ≤ℤ y)) (leb_ℤ v x) _ _ (λ _. (h, k))
      (λ _. (k.0, insert_version-All v a xs h k.1))

insert_version-IsSorted : (v : ℤ) (xs : List ℤ) → IsSorted xs → IsSorted (insert_version v xs)
unfolding insert_version
insert_version-IsSorted v [] h = (tt, tt)
insert_version-IsSorted v (x ∷ xs) h =
    if_split IsSorted (leb_ℤ v x) _ _
      (λ le. ((leb_ℤ→le v x le, All-le v x xs (leb_ℤ→le v x le) h.0), h))
      (λ gt.
        (insert_version-All v x xs (not-leb_ℤ→le v x gt) h.0, insert_version-IsSorted v xs h.1))

pub sort_versions-IsSorted : (xs : List ℤ) → IsSorted (sort_versions xs)
unfolding sort_versions
sort_versions-IsSorted [] = tt
sort_versions-IsSorted (v ∷ vs) =
    insert_version-IsSorted v (sort_versions vs) (sort_versions-IsSorted vs)

mem-insert_version_self : (v : ℤ) (xs : List ℤ) → In v (insert_version v xs)
unfolding insert_version
mem-insert_version_self v [] = inl refl
mem-insert_version_self v (x ∷ xs) =
    if_split (In v) (leb_ℤ v x) _ _ (λ _. inl refl) (λ _. inr (mem-insert_version_self v xs))

mem-insert_version : (a v : ℤ) (xs : List ℤ) → In a xs → In a (insert_version v xs)
unfolding insert_version
mem-insert_version a v [] h = absurd h
mem-insert_version a v (x ∷ xs) (inl e) =
    if_split (In a) (leb_ℤ v x) _ _ (λ _. inr (inl e)) (λ _. inl e)
mem-insert_version a v (x ∷ xs) (inr m) =
    if_split (In a) (leb_ℤ v x) _ _ (λ _. inr (inr m)) (λ _. inr (mem-insert_version a v xs m))

mem_of_insert_version : (a v : ℤ) (xs : List ℤ) → In a (insert_version v xs) → (v ≡ a) ⊎ In a xs
unfolding insert_version
mem_of_insert_version a v [] h = h
mem_of_insert_version a v (x ∷ xs) h =
    if_split (λ ys. In a ys → (v ≡ a) ⊎ In a (x ∷ xs)) (leb_ℤ v x) _ _ (λ _ there. there)
      (λ _ there. elim there [
        | inl e ↦ inr (inl e)
        | inr m ↦ elim (mem_of_insert_version a v xs m) [ inl e ↦ inl e | inr m' ↦ inr (inr m') ]
      ])
      h

-- Sorting neither loses nor makes up a version.
pub mem-sort_versions : (a : ℤ) (xs : List ℤ) → In a xs → In a (sort_versions xs)
unfolding sort_versions
mem-sort_versions a [] h = h
mem-sort_versions a (v ∷ vs) (inl e) =
    subst (λ x. In x (insert_version v (sort_versions vs))) e
      (mem-insert_version_self v (sort_versions vs))
mem-sort_versions a (v ∷ vs) (inr m) =
    mem-insert_version a v (sort_versions vs) (mem-sort_versions a vs m)

pub mem_of_sort_versions : (a : ℤ) (xs : List ℤ) → In a (sort_versions xs) → In a xs
unfolding sort_versions
mem_of_sort_versions a [] h = h
mem_of_sort_versions a (v ∷ vs) h = elim (mem_of_insert_version a v (sort_versions vs) h) [
  | inl e ↦ inl e
  | inr m ↦ inr (mem_of_sort_versions a vs m)
]

pub last_version-mem : (d : ℤ) (xs : List ℤ) → (last_version d xs ≡ d) ⊎ In (last_version d xs) xs
unfolding last_version
last_version-mem d [] = inl refl
last_version-mem d (v ∷ vs) = elim (last_version-mem v vs) [
  | inl e ↦ inr (inl (sym e))
  | inr m ↦ inr (inr m)
]

le-last_version :
    (d : ℤ) (xs : List ℤ) → All (λ x. d ≤ℤ x) xs → IsSorted xs → d ≤ℤ last_version d xs
unfolding last_version
le-last_version d [] h s = omega arith
le-last_version d (v ∷ vs) h s = omega (arith, le-last_version v vs s.0 s.1)

pub last_version_max : (d a : ℤ) (xs : List ℤ) → IsSorted xs → In a xs → a ≤ℤ last_version d xs
unfolding last_version
last_version_max d a [] s h = absurd h
last_version_max d a (v ∷ vs) s (inl e) =
    subst (λ x. x ≤ℤ last_version v vs) e (le-last_version v vs s.0 s.1)
last_version_max d a (v ∷ vs) s (inr m) = last_version_max v a vs s.1 m

mem-keep_version : (v : ℤ) (o : Option ℤ) (vs : List ℤ) → In v vs → In v (keep_version o vs)
unfolding keep_version
mem-keep_version v none vs h = h
mem-keep_version v (some x) vs h = inr h

mem_of_keep_version :
    (v : ℤ) (o : Option ℤ) (vs : List ℤ) → In v (keep_version o vs) → (o ≡ some v) ⊎ In v vs
unfolding keep_version
mem_of_keep_version v none vs h = inr h
mem_of_keep_version v (some x) vs (inl e) = inl (ap some e)
mem_of_keep_version v (some x) vs (inr m) = inr m

-- The versions are those that the keys name.
pub mem-versions_of :
    (k : Bytes) (v : ℤ) (ks : List Bytes)
    → In k ks
    → version_of_key k ≡ some v
    → In v (versions_of ks)
unfolding versions_of
mem-versions_of k v [] h e = absurd h
mem-versions_of k v (j ∷ ks) (inl same) e =
    let named : version_of_key j ≡ some v = ap version_of_key same ∙ e in
    rw (named, keep_version) (inl refl)
mem-versions_of k v (j ∷ ks) (inr m) e =
    mem-keep_version v (version_of_key j) (versions_of ks) (mem-versions_of k v ks m e)

pub mem_of_versions_of :
    (v : ℤ) (ks : List Bytes)
    → In v (versions_of ks)
    → (k : Bytes) × In k ks × (version_of_key k ≡ some v)
unfolding versions_of
mem_of_versions_of v [] h = absurd h
mem_of_versions_of v (j ∷ ks) h =
    elim (mem_of_keep_version v (version_of_key j) (versions_of ks) h) [
      | inl e ↦ (j, inl refl, e)
      | inr m ↦ let (k, there, e) = mem_of_versions_of v ks m in (k, inr there, e)
    ]
