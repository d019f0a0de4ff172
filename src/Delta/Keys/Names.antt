-- ===== src/Delta/Keys/Names.antt =====
-- internal/storage/delta/log.go and checkpoint_manager.go: names read back from keys.
use mathlib.Core.List.{append_assoc}
use agent_brain.Base.{
  ℕ, ◌≡◌, refl, sym, false, none, some, [], ◌∷◌, ◌++◌, arith, All-append, length, ◌<◌,
}
use agent_brain.Base.Int.{ℤ, IsInt64}
use agent_brain.Base.Bytes.{Bytes, codes}
use agent_brain.Base.Decimal.{pad20, parse_int-pad20, parse_int-stops, pad20-differs, length-pad20}
use agent_brain.Base.Strings.{
  has_prefix, base_of, Avoids, base_of-append, has_suffix-append, trim_suffix-append,
  first_part-append,
}
use agent_brain.Delta.Keys.{version_key, checkpoint_key, version_of_key, version_of_checkpoint_key}

-- A prefix of keys that ends a directory, as `Layout.DeltaLogPrefix` makes them.
abbrev pub directory : Bytes → Bytes
directory p = p ++ b'/' ∷ []

base_of-directory : (p t : Bytes) → Avoids b'/' t → base_of b'/' (directory p ++ t) ≡ t
base_of-directory p t h = rw (append_assoc p (b'/' ∷ []) t) (base_of-append b'/' p t h)

stem-Avoids : (v : ℤ) (t : Bytes) → Avoids b'/' t → Avoids b'/' (pad20 v ++ t)
stem-Avoids v t h = All-append _ (pad20 v) t (pad20-differs b'/' v refl refl) h

first-differs :
    (c : ℕ) (s t : Bytes) → Avoids c s → 0 < length s → has_prefix (s ++ t) (c ∷ []) ≡ false
unfolding has_prefix
first-differs c [] t h n = absurd (omega arith)
first-differs c (x ∷ s) t h n = ground arith

stem-no_underscore : (v : ℤ) (t : Bytes) → has_prefix (pad20 v ++ t) (codes "_") ≡ false
stem-no_underscore v t =
    first-differs b'_' (pad20 v) t (pad20-differs b'_' v refl refl) (omega (arith, length-pad20 v))

json-Avoids : Avoids b'/' (codes ".json")
json-Avoids = (refl, (refl, (refl, (refl, (refl, tt)))))

-- ListVersions reads back from the key of WriteVersion the version that it was written for, for
-- every int64 version and every directory.
pub version_of_key-version_key :
    (p : Bytes) (v : ℤ) → IsInt64 v → version_of_key (version_key (directory p) v) ≡ some v
unfolding version_of_key version_key
version_of_key-version_key p v h =
    rw
      (
        base_of-directory p (pad20 v ++ codes ".json") (stem-Avoids v (codes ".json") json-Avoids),
        has_suffix-append (pad20 v) (codes ".json"),
        stem-no_underscore v (codes ".json"),
        trim_suffix-append (pad20 v) (codes ".json"),
      )
      (parse_int-pad20 v h)

checkpoint-Avoids : Avoids b'/' (codes ".checkpoint")
checkpoint-Avoids =
    (refl, (refl, (refl, (refl, (refl, (refl, (refl, (refl, (refl, (refl, (refl, tt)))))))))))

long_stem :
    (v : ℤ)
    → pad20 v ++ codes ".checkpoint.json" ≡ (pad20 v ++ codes ".checkpoint") ++ codes ".json"
long_stem v = sym (append_assoc (pad20 v) (codes ".checkpoint") (codes ".json"))

long_stem-Avoids : (v : ℤ) → Avoids b'/' ((pad20 v ++ codes ".checkpoint") ++ codes ".json")
long_stem-Avoids v =
    All-append _ (pad20 v ++ codes ".checkpoint") (codes ".json")
      (stem-Avoids v (codes ".checkpoint") checkpoint-Avoids) json-Avoids

-- ListVersions reads no version from a checkpoint's key, although it lies in the same directory and
-- ends in .json.
pub version_of_key-checkpoint_key :
    (p : Bytes) (v : ℤ) → version_of_key (checkpoint_key (directory p) v) ≡ none
unfolding version_of_key checkpoint_key
version_of_key-checkpoint_key p v =
    rw
      (
        long_stem v,
        base_of-directory p ((pad20 v ++ codes ".checkpoint") ++ codes ".json")
            (long_stem-Avoids v),
        has_suffix-append (pad20 v ++ codes ".checkpoint") (codes ".json"),
        trim_suffix-append (pad20 v ++ codes ".checkpoint") (codes ".json"),
        parse_int-stops v b'.' (codes "checkpoint") refl,
      )
      (ground arith)

-- The retention reads back from a checkpoint's key the version it was written for, for every int64
-- version.
pub version_of_checkpoint_key-checkpoint_key :
    (p : Bytes) (v : ℤ)
    → IsInt64 v
    → version_of_checkpoint_key (checkpoint_key (directory p) v) ≡ some v
unfolding version_of_checkpoint_key checkpoint_key
version_of_checkpoint_key-checkpoint_key p v h =
    rw
      (
        base_of-directory p (pad20 v ++ codes ".checkpoint.json")
            (rw (long_stem v) (long_stem-Avoids v)),
        first_part-append b'.' (pad20 v) (codes "checkpoint.json") (pad20-differs b'.' v refl refl),
      )
      (parse_int-pad20 v h)
