-- ===== src/Delta/Log/Latest.antt =====
-- A log with the versions 0 to n - 1, and what the operations do to it.
use native.Mathlib.Decide.{dec_lt}
use agent_brain.Base.{
  some_inj, ℕ, zero, suc, ◌≤◌, ◌<◌, ◌≡◌, refl, sym, ap, ◌∙◌, ◌⊎◌, inl, inr, true, false, none, some,
  List, arith, In, is_some, if◌then◌else◌, Bool-cases, ◌==◌,
}
use agent_brain.Base.Int.{ℤ, pos, negsuc, sub_ℕ, ◌≤ℤ◌, IsInt64, max_int64}
use agent_brain.Base.Bytes.{Bytes, codes, bytes_eq, bytes_eq_iff, bytes_eq_refl}
use agent_brain.Base.Strings.{has_prefix, has_prefix-append}
use agent_brain.Retry.Errors.{wrapped, Result, ok, err, is_err}
use agent_brain.Delta.Actions.{Action, Object, log_entry}
use agent_brain.Delta.Store.{S3Store, Contents, write, ◌>>=◌, context}
use agent_brain.Delta.Keys.{version_key, version_of_key}
use agent_brain.Delta.Keys.Names.{directory, version_of_key-version_key}
use agent_brain.Delta.Log.{versions_of, sort_versions, last_version, latest_version, write_version}
use agent_brain.Delta.Log.Order.{
  sort_versions-IsSorted, mem-sort_versions, mem_of_sort_versions, last_version-mem,
  last_version_max, mem-versions_of, mem_of_versions_of,
}

-- The log under a directory holds the versions 0 to n - 1, each with its actions, and no file that
-- names any other version.
pub record IsLog (dir : Bytes) (n : ℕ) (entries : ℕ → List Action) (c : Contents) : Type 0 where
  pub sized : n ≤ max_int64
  pub held :
      (v : ℕ) → v < n → c (version_key (directory dir) (pos v)) ≡ some (log_entry (entries v))
  pub alone :
      (k : Bytes) (v : ℤ)
      → has_prefix k (directory dir) ≡ true
      → version_of_key k ≡ some v
      → is_some (c k) ≡ true
      → (m : ℕ) × (m < n) × (v ≡ pos m)

not_none : (n : ℕ) (x : ℤ) → pos n ≤ℤ x → x ≡ negsuc 0 → ⊥
not_none n x le e = ground arith

top_of_range : (n k : ℕ) (x : ℤ) → pos n ≤ℤ x → x ≡ pos k → k < suc n → x ≡ sub_ℕ (suc n) 1
top_of_range n k x le e below = ground arith

-- The greatest of the versions below n, or -1.
last_of_range :
    (n : ℕ) (vs : List ℤ)
    → ((m : ℕ) → m < n → In (pos m) vs)
    → ((v : ℤ) → In v vs → (m : ℕ) × (m < n) × (v ≡ pos m))
    → last_version (negsuc 0) (sort_versions vs) ≡ sub_ℕ n 1
last_of_range zero vs all only = elim (last_version-mem (negsuc 0) (sort_versions vs)) [
  | inl e ↦ e
  | inr m ↦ let (k, below, same) = only _ (mem_of_sort_versions _ vs m) in absurd (omega arith)
]
last_of_range (suc n) vs all only =
    let top : pos n ≤ℤ last_version (negsuc 0) (sort_versions vs) =
      last_version_max (negsuc 0) (pos n) (sort_versions vs) (sort_versions-IsSorted vs)
        (mem-sort_versions (pos n) vs (all n (omega arith))) in
    elim (last_version-mem (negsuc 0) (sort_versions vs)) [
      | inl e ↦ absurd (not_none n _ top e)
      | inr m ↦
          let (k, below, same) = only _ (mem_of_sort_versions _ vs m) in
          top_of_range n k _ top same below
    ]

IsInt64-below : (n v : ℕ) → n ≤ max_int64 → v ≤ n → IsInt64 (pos v)
IsInt64-below n v h k = omega arith

module _ {W : Type 0} (s : S3Store W) (dir : Bytes) where
  -- What a listing of a log shows.
  last_listed :
      (n : ℕ) (entries : ℕ → List Action) (w : W) (keys : List Bytes)
      → IsLog dir n entries (s.contents w)
      → (s.list (directory dir) w).0 ≡ ok keys
      → last_version (negsuc 0) (sort_versions (versions_of keys)) ≡ sub_ℕ n 1
  last_listed n entries w keys h e =
      last_of_range n (versions_of keys)
        (λ m below.
          mem-versions_of (version_key (directory dir) (pos m)) (pos m) keys
            (s.list_complete (directory dir) w keys _ e
              (unfold version_key in has_prefix-append (directory dir) _) (rw (h.held m below)))
            (version_of_key-version_key dir (pos m) (IsInt64-below n m h.sized (omega arith))))
        (λ v m.
          let (k, listed, named) = mem_of_versions_of v keys m in
          let (inside, there) = s.list_sound (directory dir) w keys k e listed in
          h.alone k v inside named there)

  -- `LatestVersion` is one listing and a computation on its keys.
  unfoldable pub latest_of : Result (List Bytes) → Result ℤ
  latest_of (ok keys) = ok (last_version (negsuc 0) (sort_versions (versions_of keys)))
  latest_of (err e) = err (wrapped (codes "list versions") e)

  pub latest_version_parts :
      (w : W)
      → latest_version s (directory dir) w
        ≡ (latest_of (s.list (directory dir) w).0, (s.list (directory dir) w).1)
  unfolding latest_version latest_of ◌>>=◌ context
  latest_version_parts w = ground arith

  latest_of_lem :
      (n : ℕ) (entries : ℕ → List Action) (w : W) (r : Result (List Bytes)) (v : ℤ)
      → IsLog dir n entries (s.contents w)
      → (s.list (directory dir) w).0 ≡ r
      → latest_of r ≡ ok v
      → v ≡ sub_ℕ n 1
  unfolding latest_of
  latest_of_lem n entries w (ok keys) v h e read = ground (arith, last_listed n entries w keys h e)
  latest_of_lem n entries w (err x) v h e read = cc

  -- Over a log with the versions 0 to n - 1 and no other version file, LatestVersion can only
  -- answer n - 1, which is -1 for the empty log.
  pub latest_version_lem :
      (n : ℕ) (entries : ℕ → List Action) (w : W) (v : ℤ)
      → IsLog dir n entries (s.contents w)
      → (latest_version s (directory dir) w).0 ≡ ok v
      → v ≡ sub_ℕ n 1
  latest_version_lem n entries w v h read =
      latest_of_lem n entries w (s.list (directory dir) w).0 v h refl
        (sym (ap (λ (r : Result ℤ × W). r.0) (latest_version_parts w)) ∙ read)

  pub latest_version-keeps :
      (w : W) → s.contents (latest_version s (directory dir) w).1 ≡ s.contents w
  latest_version-keeps w = rw (latest_version_parts w) (s.list_keeps (directory dir) w)

  -- `WriteVersion` is one upload.
  pub write_version_writes :
      (v : ℤ) (acts : List Action) (w : W)
      → let k = version_key (directory dir) v in
        (s.contents (write_version s (directory dir) v acts w).1
          ≡ write k (log_entry acts) (s.contents w))
        ⊎ ((is_err (write_version s (directory dir) v acts w).0 ≡ true)
            × (s.contents (write_version s (directory dir) v acts w).1 ≡ s.contents w))
  unfolding write_version context
  write_version_writes v acts w =
      elim (s.upload_writes (version_key (directory dir) v) (log_entry acts) w) [
        | inl done ↦ inl done
        | inr (failed, same) ↦ inr (ground arith, same)
      ]

none-ne-some : {v : ℤ} → none ≡ some v → ⊥
none-ne-some e = cc

-- The entries with one more behind them.
abbrev pub append_entry : ℕ → List Action → (ℕ → List Action) → ℕ → List Action
append_entry n acts entries v = if v == n then acts else entries v

version_key-differs :
    (dir : Bytes) (n v : ℕ)
    → n ≤ max_int64
    → v < n
    → bytes_eq (version_key (directory dir) (pos n)) (version_key (directory dir) (pos v)) ≡ false
version_key-differs dir n v h below = elim (Bool-cases (bytes_eq _ _)) [
  | inr differ ↦ differ
  | inl same ↦ absurd (
      let names = ap version_of_key ((bytes_eq_iff _ _).0 same) in
      let both : some (pos n) ≡ some (pos v) =
        sym (version_of_key-version_key dir (pos n) (omega arith))
        ∙ names
        ∙ version_of_key-version_key dir (pos v) (omega arith) in
      ground arith)
]

write-held :
    (dir : Bytes) (n v : ℕ) (entries : ℕ → List Action) (acts : List Action) (c : Contents)
    → IsLog dir n entries c
    → v < suc n
    → write
        (version_key (directory dir) (pos n))
        (log_entry acts)
        c
        (version_key (directory dir) (pos v))
      ≡ some (log_entry (append_entry n acts entries v))
write-held dir n v entries acts c h below = elim (dec_lt v n) [
  | yes old ↦ rw (version_key-differs dir n v h.sized old) (ground (arith, h.held v old))
  | no new ↦
      let same : n ≡ v = omega arith in
      rw (← same, bytes_eq_refl (version_key (directory dir) (pos n))) (ground arith)
]

write-alone :
    (dir : Bytes) (n : ℕ) (entries : ℕ → List Action) (acts : List Action) (c : Contents)
    (k : Bytes) (v : ℤ)
    → IsLog dir n entries c
    → has_prefix k (directory dir) ≡ true
    → version_of_key k ≡ some v
    → is_some (write (version_key (directory dir) (pos n)) (log_entry acts) c k) ≡ true
    → (m : ℕ) × (m < suc n) × (v ≡ pos m)
write-alone dir n entries acts c k v h inside named there =
    elim (Bool-cases (bytes_eq (version_key (directory dir) (pos n)) k)) [
      | inl same ↦
          let key = (bytes_eq_iff _ _).0 same in
          let read =
            version_of_key-version_key dir (pos n) (IsInt64-below n n h.sized (omega arith)) in
          (n, omega arith, some_inj (sym named ∙ sym (ap version_of_key key) ∙ read))
      | inr differ ↦
          let (m, below, e) = h.alone k v inside named (rw differ at there) in (m, omega arith, e)
    ]

-- Writing the file of version n into a complete log of n < 2^63 - 1 entries gives a complete log of
-- n + 1 entries, in which the old entries are unchanged.
pub write-IsLog :
    (dir : Bytes) (n : ℕ) (entries : ℕ → List Action) (acts : List Action) (c : Contents)
    → n < max_int64
    → IsLog dir n entries c
    → IsLog dir
        (suc n)
        (append_entry n acts entries)
        (write (version_key (directory dir) (pos n)) (log_entry acts) c)
write-IsLog dir n entries acts c room h = record {
  sized = room;
  held = λ v below. write-held dir n v entries acts c h below;
  alone = λ k v inside named there. write-alone dir n entries acts c k v h inside named there;
}

-- A write to a file that names no version leaves the log as it was.
pub write_other-IsLog :
    (dir : Bytes) (n : ℕ) (entries : ℕ → List Action) (key : Bytes) (o : Object) (c : Contents)
    → version_of_key key ≡ none
    → IsLog dir n entries c
    → IsLog dir n entries (write key o c)
write_other-IsLog dir n entries key o c nameless h = record {
  sized = h.sized;
  held = λ v below. elim (Bool-cases (bytes_eq key (version_key (directory dir) (pos v)))) [
    | inr differ ↦ rw differ (h.held v below)
    | inl same ↦ absurd (
        none-ne-some (
          sym nameless
          ∙ ap version_of_key ((bytes_eq_iff _ _).0 same)
          ∙ version_of_key-version_key dir (pos v) (IsInt64-below n v h.sized (omega arith))))
  ];
  alone = λ k v inside named there. elim (Bool-cases (bytes_eq key k)) [
    | inr differ ↦ h.alone k v inside named (rw differ at there)
    | inl same ↦
        absurd (none-ne-some (sym nameless ∙ ap version_of_key ((bytes_eq_iff _ _).0 same) ∙ named))
  ];
}
