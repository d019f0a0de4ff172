-- ===== src/Layout/Nameless.antt =====
-- internal/storage/layout.go: which of its files cannot be taken for a version of a log.
use mathlib.Core.List.{append_assoc}
use agent_brain.Base.{
  ◌≡◌, refl, sym, ap, ◌∙◌, false, Option, none, [], ◌∷◌, ◌++◌, arith, length, length-append, ◌-◌,
  All-append, if_cases,
}
use agent_brain.Base.Int.{ℤ}
use agent_brain.Base.Bytes.{Bytes, codes, bytes_eq}
use agent_brain.Base.Decimal.{decimal_int, decimal_int-differs, parse_int-letter}
use agent_brain.Base.Strings.{
  base_of, base_of-append, has_suffix, drop-length-append, trim_suffix-append, Avoids,
}
use agent_brain.Delta.Keys.{version_of_key}
use agent_brain.Delta.Keys.Names.{directory}
use agent_brain.Layout.{parquet_file, delta_last_checkpoint, delta_log_prefix, schema_version}

-- A text of another ending of the same length.
has_suffix-differs :
    (s t u : Bytes) → length t ≡ length u → bytes_eq t u ≡ false → has_suffix (s ++ t) u ≡ false
unfolding has_suffix
has_suffix-differs s t u same apart =
    let start : length (s ++ t) - length u ≡ length s = omega (arith, length-append s t) in
    rw (start, drop-length-append s t, apart) (ground arith)

not_json :
    (k s t : Bytes)
    → base_of b'/' k ≡ s ++ t
    → length t ≡ 5
    → bytes_eq t (codes ".json") ≡ false
    → version_of_key k ≡ none
unfolding version_of_key
not_json k s t e five apart = rw (e, has_suffix-differs s t (codes ".json") five apart) refl

-- A text behind a path of the layout.
path_append :
    (root mid source object t : Bytes)
    → root ++ (source ++ (mid ++ (object ++ t))) ≡ (root ++ (source ++ (mid ++ object))) ++ t
path_append root mid source object t = sym (
    append_assoc root (source ++ (mid ++ object)) t
    ∙ ap (λ u. root ++ u)
        (append_assoc source (mid ++ object) t ∙ ap (λ u. source ++ u) (append_assoc mid object t)))

-- The directory of a table's log.
unfoldable pub log_directory : Bytes → Bytes → Bytes
log_directory source object =
    (codes "data/" ++ (source ++ (codes "/" ++ object))) ++ codes "/_delta_log"

pub delta_log_prefix-directory :
    (source object : Bytes)
    → delta_log_prefix source object ≡ directory (log_directory source object)
unfolding delta_log_prefix log_directory
delta_log_prefix-directory source object =
    path_append (codes "data/") (codes "/") source object (codes "/_delta_log/")
    ∙ sym (
        append_assoc (codes "data/" ++ (source ++ (codes "/" ++ object))) (codes "/_delta_log")
          (b'/' ∷ []))

name-Avoids : (id : Bytes) → Avoids b'/' id → Avoids b'/' (id ++ codes ".snappy.parquet")
name-Avoids id h = All-append _ id (codes ".snappy.parquet") h (
  refl,
  (
    refl,
    (
      refl,
      (
        refl,
        (refl, (refl, (refl, (refl, (refl, (refl, (refl, (refl, (refl, (refl, (refl, tt))))))))))),
      ),
    ),
  ),
)

-- A Parquet file is no version, whatever its unique id, which has no slash.
pub parquet_file_nameless :
    (source object id : Bytes)
    → Avoids b'/' id
    → version_of_key
        (parquet_file source object (codes "part-00000-" ++ (id ++ codes ".snappy.parquet")))
      ≡ none
unfolding parquet_file bytes_eq
parquet_file_nameless source object id h =
    let name = codes "part-00000-" ++ (id ++ codes ".snappy.parquet") in
    not_json _ (codes "part-00000-" ++ (id ++ codes ".snappy.pa")) (codes "rquet")
      (ap (base_of b'/') (path_append (codes "data/") (codes "/") source object (b'/' ∷ name))
        ∙ base_of-append b'/' (codes "data/" ++ (source ++ (codes "/" ++ object))) name (
          refl,
          (
            refl,
            (
              refl,
              (refl, (refl, (refl, (refl, (refl, (refl, (refl, (refl, name-Avoids id h)))))))),
            ),
          ),
        )
        ∙ ap (λ u. codes "part-00000-" ++ u)
            (sym (append_assoc id (codes ".snappy.pa") (codes "rquet"))))
      refl refl

pub delta_last_checkpoint_nameless :
    (source object : Bytes) → version_of_key (delta_last_checkpoint source object) ≡ none
unfolding delta_last_checkpoint bytes_eq
delta_last_checkpoint_nameless source object =
    not_json _ (codes "_last_check") (codes "point")
      (ap (base_of b'/') (
          path_append (codes "data/") (codes "/") source object
            (codes "/_delta_log/_last_checkpoint")
          ∙ sym (
              append_assoc (codes "data/" ++ (source ++ (codes "/" ++ object)))
                (codes "/_delta_log") (codes "/_last_checkpoint")))
        ∙ base_of-append b'/'
            ((codes "data/" ++ (source ++ (codes "/" ++ object))) ++ codes "/_delta_log")
            (codes "_last_checkpoint")
            (
              refl,
              (
                refl,
                (
                  refl,
                  (
                    refl,
                    (
                      refl,
                      (
                        refl,
                        (
                          refl,
                          (
                            refl,
                            (refl, (refl, (refl, (refl, (refl, (refl, (refl, (refl, tt)))))))),
                          ),
                        ),
                      ),
                    ),
                  ),
                ),
              ),
            ))
      refl refl

pub schema_version_nameless :
    (source object : Bytes) (v : ℤ) → version_of_key (schema_version source object v) ≡ none
unfolding schema_version version_of_key
schema_version_nameless source object v =
    let name = b'v' ∷ (decimal_int v ++ codes ".json") in
    let base : base_of b'/' (schema_version source object v) ≡ name =
      ap (base_of b'/')
        (path_append (codes "state/") (codes "/schema_history/") source object (b'/' ∷ name))
      ∙ base_of-append b'/' (codes "state/" ++ (source ++ (codes "/schema_history/" ++ object)))
          name
          (
            refl,
            All-append _ (decimal_int v) (codes ".json") (decimal_int-differs b'/' v refl refl)
                (refl, (refl, (refl, (refl, (refl, tt))))),
          ) in
    rw
      (
        base,
        trim_suffix-append (b'v' ∷ decimal_int v) (codes ".json"),
        parse_int-letter (decimal_int v),
      )
      (if_cases (λ (u : Option ℤ). u ≡ none) _ none none refl refl)
