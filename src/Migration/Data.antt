-- ===== src/Migration/Data.antt =====
-- internal/migration/schema.go: the registry of schemas and the versioned wrapping of data; and
-- internal/migration/engine.go: `MigrateData`, which takes stored data to a version. The lock of the
-- registry, the instances, which nothing reads, and the deadline are left out. `encoding/json`,
-- `reflect`, the clock and the object store are parameters.
pub mod Rewrap
pub mod First
use agent_brain.Base.{
  ℕ, ◌≡◌, Bool, true, false, ◌&&◌, Option, none, some, List, [], ◌∷◌, ◌++◌, if◌then◌else◌, is_some,
}
use agent_brain.Base.Int.{ℤ, pos, ltb_ℤ, leb_ℤ, eqb_ℤ}
use agent_brain.Base.Bytes.{Bytes, codes, bytes_eq}
use agent_brain.Base.Decimal.{decimal_int}
use agent_brain.Retry.Errors.{Error, message, wrapped, Result, ok, err}
use agent_brain.Retry.Executor.{Operation}
use agent_brain.Delta.Store.{◌>>=◌, ◌>>◌, return, fail, context, wrap_error}
use agent_brain.Migration.{Migrations, find, execute_migration_path}

-- The `Data` of a state is its content. Times are nanoseconds since 1970.
pub record VersionedState (D : Type 0) : Type 0 where
  pub version : ℤ
  pub content : D
  pub created_at : ℤ
  pub updated_at : ℤ

pub record Config : Type 0 where
  pub auto_migrate : Bool
  pub backup_before_migrate : Bool
  pub validation_mode : Bytes
  pub max_migration_time : ℤ

-- The configuration that `NewMigrationEngine` takes in place of nil.
unfoldable pub default_config : Config
default_config = record {
  auto_migrate = true;
  backup_before_migrate = true;
  validation_mode = codes "strict";
  max_migration_time = pos 300000000000;
}

-- `encoding/json` on the types of this package: the version field of any text, a wrapped state, bare
-- data, and the text of a wrapped state. Printed text has the version that was printed, and a state that is read has the version of its text.
pub record Codec (D : Type 0) : Type 0 where
  pub peek_version : Bytes → Option ℤ
  pub parse_state : Bytes → Result (VersionedState D)
  pub parse_data : Bytes → Result D
  pub print_state : VersionedState D → Result Bytes
  pub peek-print :
      (s : VersionedState D) (b : Bytes) → print_state s ≡ ok b → peek_version b ≡ some s.version
  pub peek-parse :
      (b : Bytes) (s : VersionedState D) → parse_state b ≡ ok s → peek_version b ≡ some s.version
  pub parse-print :
      (s : VersionedState D) (b : Bytes)
      → print_state s ≡ ok b
      → (s' : VersionedState D) × (parse_state b ≡ ok s') × (s'.version ≡ s.version)

-- `reflect.TypeOf`, none for nil, and the text and the equality of types.
pub record Reflection (D Tag : Type 0) : Type 0 where
  pub type_of : D → Option Tag
  pub type_text : Option Tag → Bytes
  pub same_type : Tag → Tag → Bool

-- The store and the clock, with its text in the form of `20060102-150405`.
pub record Services (W : Type 0) : Type 0 where
  pub upload : Bytes → Bytes → Operation W (Unit {0})
  pub now : W → ℤ × W
  pub timestamp : W → Bytes × W

-- A result that no call of the world gave.
abbrev pub lift : {W A : Type 0} → Result A → Operation W A
lift r w = (r, w)

abbrev pub Schemas : Type 0 → Type 0
Schemas Tag = List (ℤ × Tag)

-- `m[k] = v`
unfoldable pub set_schema : {Tag : Type 0} → ℤ → Tag → Schemas Tag → Schemas Tag
set_schema k t [] = (k, t) ∷ []
set_schema k t ((j, u) ∷ m) = if eqb_ℤ j k then (k, t) ∷ m else (j, u) ∷ set_schema k t m

module _ {D Tag : Type 0} (types : Reflection D Tag) where
  -- `RegisterSchema`
  unfoldable pub register_schema : ℤ → D → Schemas Tag → Result (Schemas Tag)
  register_schema version schema schemas =
      if leb_ℤ version (pos 0)
      then err (message (codes "schema version must be positive, got " ++ decimal_int version))
      else elim (types.type_of schema) [
        | none ↦ err (message (codes "schema cannot be nil"))
        | some t ↦ ok (set_schema version t schemas)
      ]

  -- `ValidateSchema`
  unfoldable pub validate_schema : Schemas Tag → ℤ → D → Result (Unit {0})
  validate_schema schemas version content = elim (find version schemas) [
    | none ↦ err (message (codes "schema version " ++ (decimal_int version ++ codes " not found")))
    | some expected ↦
        if elim (types.type_of content) [ some t ↦ types.same_type t expected | none ↦ false ]
        then ok tt
        else err (
            message (
              codes "data type "
              ++ (types.type_text (types.type_of content)
                  ++ (codes " does not match schema type "
                      ++ (types.type_text (some expected)
                          ++ (codes " for version " ++ decimal_int version))))))
  ]

-- The loop of `GetLatestVersion`.
unfoldable pub highest : {Tag : Type 0} → Schemas Tag → ℤ → ℤ
highest [] latest = latest
highest ((v, t) ∷ rest) latest = highest rest (if ltb_ℤ latest v then v else latest)

-- `GetLatestVersion`
unfoldable pub get_latest_version : {Tag : Type 0} → Schemas Tag → ℤ
get_latest_version schemas = highest schemas (pos 0)

module _ {D : Type 0} (json : Codec D) where
  -- `IsVersioned`
  unfoldable pub is_versioned : Bytes → Bool
  is_versioned b = elim (json.peek_version b) [ some v ↦ ltb_ℤ (pos 0) v | none ↦ false ]

  -- `GetCurrentVersion`
  unfoldable pub get_current_version : Bytes → Result ℤ
  get_current_version b =
      if is_versioned b
      then elim (json.parse_state b) [
        | ok s ↦ ok s.version
        | err e ↦ err (wrapped (codes "unmarshal versioned data") e)
      ]
      else ok (pos 1)

module _ {W D Tag : Type 0} (json : Codec D) (types : Reflection D Tag) (site : Services W)
    (config : Config) (schemas : Schemas Tag) (es : Migrations W D) where
  -- `WrapLegacyData`
  unfoldable pub wrap_legacy_data : D → Operation W (VersionedState D)
  wrap_legacy_data d w =
      let (t, w') = site.now w in
      (ok (record { version = pos 1; content = d; created_at = t; updated_at = t }), w')

  -- The state that is stored, or the bare data wrapped.
  unfoldable pub read_state : Bytes → Operation W (VersionedState D)
  read_state b =
      if is_versioned json b
      then lift (wrap_error (codes "unmarshal versioned data") (json.parse_state b))
      else lift (wrap_error (codes "unmarshal legacy data") (json.parse_data b))
        >>= wrap_legacy_data

  -- `createBackup`, under the prefix that `NewMigrationEngine` sets
  unfoldable pub create_backup : Bytes → ℤ → Operation W (Unit {0})
  create_backup b version w =
      let (stamp, w') = site.timestamp w in
      let key =
        codes "migration-backups/version-"
        ++ (decimal_int version ++ (codes "-" ++ (stamp ++ codes ".json"))) in
      context (codes "save backup to " ++ key) (site.upload key b) w'

  -- The check of the result, which only the strict mode insists on.
  unfoldable pub check_result : ℤ → D → Result (Unit {0})
  check_result target d =
      if bytes_eq config.validation_mode (codes "strict")
      then wrap_error (codes "validation failed") (validate_schema types schemas target d)
      else ok tt

  -- The end, once the data is migrated.
  unfoldable pub finish : ℤ → ℤ → D → Operation W Bytes
  finish target created_at d w =
      let (t, w') = site.now w in
      let result : VersionedState D = record {
        version = target;
        content = d;
        created_at = created_at;
        updated_at = t;
      } in
      (lift (check_result target d) >>= λ _.
      lift (wrap_error (codes "marshal migrated data") (json.print_state result)))
        w'

  -- What follows when the version has to change.
  unfoldable pub carry : Bytes → ℤ → VersionedState D → Operation W Bytes
  carry b target s =
      (if config.backup_before_migrate
        then context (codes "create backup") (create_backup b s.version)
        else return tt)
      >>= λ _.
          context (codes "execute migration path")
            (execute_migration_path es s.content s.version target)
          >>= finish target s.created_at

  -- `MigrateData`
  unfoldable pub migrate_data : Bytes → ℤ → Operation W Bytes
  migrate_data b target = read_state b >>= λ s.
      if eqb_ℤ s.version target
      then lift (wrap_error (codes "marshal existing versioned data") (json.print_state s))
      else carry b target s
