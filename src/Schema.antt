-- ===== src/Schema.antt =====
-- internal/schema/schema.go and evolution.go: schemas, their hash, and what changed between two of
-- them. A field's type is its text, as in the code.
pub mod Hash
pub mod Change
use mathlib.Core.List.{Perm}
use agent_brain.Base.{
  ℕ, ◌≡◌, Bool, true, false, not, ◌||◌, Option, none, some, List, [], ◌∷◌, ◌++◌, if◌then◌else◌, map,
  is_none,
}
use agent_brain.Base.Int.{ℤ}
use agent_brain.Base.Bytes.{Bytes, codes, bytes_eq, bytes_lt}
use agent_brain.Base.Map.{Map, lookup, insert}

abbrev pub FieldType : Type 0
FieldType = Bytes

pub record Field : Type 0 where
  pub name : Bytes
  pub field_type : FieldType
  pub nullable : Bool

pub record Schema : Type 0 where
  pub object_name : Bytes
  pub fields : List Field
  pub version : ℤ
  pub hash : Bytes

-- The local type `hashField`.
abbrev pub HashField : Type 0
HashField = Bytes × FieldType

-- The comparison that `ComputeHash` sorts by.
unfoldable pub by_name : HashField → HashField → Bool
by_name f g = bytes_lt f.0 g.0

-- No field is below the one before it.
abbrev pub IsOrdered : List HashField → Type 0
IsOrdered [] = Unit
IsOrdered (f ∷ []) = Unit
IsOrdered (f ∷ (g ∷ gs)) = (by_name g f ≡ false) × IsOrdered (g ∷ gs)

-- `sort.Slice`, which may put fields of one name in any order, and the digest: the JSON text of the
-- fields, its SHA-256, and the first eight bytes of that in hexadecimal.
pub record Hasher : Type 0 where
  pub sort_slice : (HashField → HashField → Bool) → List HashField → List HashField
  pub sort_slice_perm : (fs : List HashField) → Perm (sort_slice by_name fs) fs
  pub sort_slice_ordered : (fs : List HashField) → IsOrdered (sort_slice by_name fs)
  pub digest : List HashField → Bytes

unfoldable pub hash_fields : List Field → List HashField
hash_fields [] = []
hash_fields (f ∷ fs) = (f.name, f.field_type) ∷ hash_fields fs

module _ (hasher : Hasher) where
  -- `ComputeHash`
  unfoldable pub compute_hash : List Field → Bytes
  unfolding hash_fields
  compute_hash fields = hasher.digest (hasher.sort_slice by_name (hash_fields fields))

  unfoldable pub new_schema : Bytes → List Field → ℤ → Schema
  unfolding compute_hash
  new_schema object_name fields version = record {
    object_name = object_name;
    fields = fields;
    version = version;
    hash = compute_hash fields;
  }

unfoldable pub insert_name : Bytes → List Bytes → List Bytes
insert_name n [] = n ∷ []
insert_name n (m ∷ ms) = if bytes_lt m n then m ∷ insert_name n ms else n ∷ m ∷ ms

-- `FieldNames`
unfoldable pub field_names : List Field → List Bytes
unfolding insert_name
field_names [] = []
field_names (f ∷ fs) = insert_name f.name (field_names fs)

-- The loop of `FieldMap`: a later field takes the place of an earlier one of its name.
unfoldable pub add_fields : List Field → Map Field → Map Field
add_fields [] m = m
add_fields (f ∷ fs) m = add_fields fs (insert f.name f m)

unfoldable pub field_map : Schema → Map Field
unfolding add_fields
field_map s = add_fields s.fields []

pub data ChangeType : Type 0 where
  change_none change_additive change_breaking : ChangeType

pub record TypeChange : Type 0 where
  pub field_name : Bytes
  pub old_type : FieldType
  pub new_type : FieldType

pub record SchemaDiff : Type 0 where
  pub change : ChangeType
  pub added_fields : List Field
  pub removed_fields : List Field
  pub type_changes : List TypeChange

-- The first two loops of `Diff`: the fields of one map whose names the other lacks.
unfoldable pub missing_from : Map Field → Map Field → List Field
missing_from other [] = []
missing_from other ((name, f) ∷ m) =
    let rest = missing_from other m in if is_none (lookup name other) then f ∷ rest else rest

unfoldable pub compare_types : Bytes → Field → Option Field → List TypeChange → List TypeChange
compare_types name old_field none rest = rest
compare_types name old_field (some new_field) rest =
    if not (bytes_eq old_field.field_type new_field.field_type)
    then record {
      field_name = name;
      old_type = old_field.field_type;
      new_type = new_field.field_type;
    }
      ∷ rest
    else rest

-- The third loop.
unfoldable pub changed_types : Map Field → Map Field → List TypeChange
unfolding compare_types
changed_types new_map [] = []
changed_types new_map ((name, f) ∷ m) =
    compare_types name f (lookup name new_map) (changed_types new_map m)

abbrev pub is_empty : {A : Type 0} → List A → Bool
is_empty [] = true
is_empty (x ∷ xs) = false

unfoldable pub overall_change : List Field → List Field → List TypeChange → ChangeType
overall_change added removed changes =
    if not (is_empty removed) || not (is_empty changes)
    then change_breaking
    else if not (is_empty added)
    then change_additive
    else change_none

unfoldable pub diff : Schema → Schema → SchemaDiff
unfolding field_map missing_from changed_types overall_change
diff old_schema new_schema =
    let old_map = field_map old_schema in
    let new_map = field_map new_schema in
    let added = missing_from old_map new_map in
    let removed = missing_from new_map old_map in
    let changes = changed_types new_map old_map in
    record {
      change = overall_change added removed changes;
      added_fields = added;
      removed_fields = removed;
      type_changes = changes;
    }

abbrev pub breaking : ChangeType → Bool
breaking change_breaking = true
breaking _ = false

abbrev pub additive : ChangeType → Bool
additive change_additive = true
additive _ = false

abbrev pub changing : ChangeType → Bool
changing change_none = false
changing _ = true

-- `IsBreaking`, `IsAdditive` and `HasChanges`
unfoldable pub is_breaking : SchemaDiff → Bool
is_breaking d = breaking d.change

unfoldable pub is_additive : SchemaDiff → Bool
is_additive d = additive d.change

unfoldable pub has_changes : SchemaDiff → Bool
has_changes d = changing d.change
