-- ===== src/Delta/Validation.antt =====
-- internal/storage/delta/validation.go: `CheckpointValidator`. A validation error is the literal that
-- the code appends, one constructor for each; the checksum and the times, which are only logged, are
-- left out.
pub mod Structure
use agent_brain.Base.{
  ℕ, zero, suc, ◌+◌, Bool, true, false, not, ◌&&◌, Option, none, some, List, [], ◌∷◌, ◌++◌,
  if◌then◌else◌, length, is_none,
}
use agent_brain.Base.Int.{ℤ, pos, negsuc, eqb_ℤ, ltb_ℤ}
use agent_brain.Base.Bytes.{Bytes, codes, bytes_eq}
use agent_brain.Base.Map.{Map, lookup, insert}
use agent_brain.Base.Decimal.{decimal}
use agent_brain.Retry.Errors.{Error, message, wrapped, Result, ok, err}
use agent_brain.Retry.Executor.{Operation}
use agent_brain.Delta.Actions.{
  Action, Protocol, Metadata, Add, Remove, Object, log_entry, checkpoint, marker, other,
}
use agent_brain.Delta.Store.{S3Store, ◌>>=◌, ◌>>◌, return, fail, context}
use agent_brain.Delta.Keys.{checkpoint_key}
use agent_brain.Delta.Snapshot.{Snapshot}

pub data ValidationError : Type 0 where
  multiple_protocol multiple_metadata missing_path : ValidationError
  negative_size : ℤ → ValidationError
  remove_found no_protocol no_metadata : ValidationError
  missing_file : Bytes → ValidationError
  size_mismatch : Bytes → ℤ → ℤ → ValidationError
  time_mismatch unexpected_file absent_object : Bytes → ValidationError
  integrity_failed : Error → ValidationError

pub record ValidationResult : Type 0 where
  pub checkpoint_version : ℤ
  pub actions_count : ℕ
  pub files_count : ℕ
  pub errors : List ValidationError

abbrev pub new_result : ℤ → ValidationResult
new_result version = record {
  checkpoint_version = version;
  actions_count = 0;
  files_count = 0;
  errors = [];
}

-- The variables of the loop of `validateCheckpointStructure`.
pub record Seen : Type 0 where
  pub has_protocol : Bool
  pub has_metadata : Bool
  pub file_count : ℕ
  pub problems : List ValidationError

abbrev pub report : Bool → ValidationError → List ValidationError → List ValidationError
report true e es = es ++ e ∷ []
report false e es = es

see_fields : Option Protocol → Option Metadata → Option Add → Option Remove → Seen → Seen
see_fields (some p) m a r s = record s {
  has_protocol = true;
  problems = report s.has_protocol multiple_protocol s.problems;
}
see_fields none (some m) a r s = record s {
  has_metadata = true;
  problems = report s.has_metadata multiple_metadata s.problems;
}
see_fields none none (some a) r s = record s {
  file_count = suc s.file_count;
  problems =
      report (ltb_ℤ a.size (pos 0)) (negative_size a.size)
        (report (bytes_eq a.path []) missing_path s.problems);
}
see_fields none none none (some r) s = record s { problems = s.problems ++ remove_found ∷ [] }
see_fields none none none none s = s

unfoldable pub see_action : Action → Seen → Seen
unfolding see_fields
see_action a s = see_fields a.protocol a.meta_data a.add a.remove s

unfoldable pub see_actions : List Action → Seen → Seen
see_actions [] s = s
see_actions (a ∷ acts) s = see_actions acts (see_action a s)

-- `validateCheckpointStructure`: the returned error, and the result that it fills in.
unfoldable pub validate_structure : List Action → ValidationResult → Option Error × ValidationResult
unfolding see_actions see_action
validate_structure acts result =
    let seen = see_actions acts (record {
      has_protocol = false;
      has_metadata = false;
      file_count = 0;
      problems = result.errors;
    }) in
    let problems = report (not seen.has_protocol) no_protocol seen.problems in
    (
      none,
      record result {
        files_count = seen.file_count;
        errors = report (not seen.has_metadata) no_metadata problems;
      },
    )

-- `checkpointFiles`
checkpoint_files : List Action → Map Add → Map Add
checkpoint_files [] files = files
checkpoint_files (a ∷ acts) files =
    checkpoint_files acts (elim a.add [ none ↦ files | some f ↦ insert f.path f files ])

compare_file : Bytes → Add → Option Add → List ValidationError → List ValidationError
compare_file path expected none es = es ++ missing_file path ∷ []
compare_file path expected (some f) es =
    report (not (eqb_ℤ f.modification_time expected.modification_time)) (time_mismatch path)
      (report (not (eqb_ℤ f.size expected.size)) (size_mismatch path expected.size f.size) es)

compare_expected : Map Add → Map Add → List ValidationError → List ValidationError
unfolding compare_file
compare_expected found [] es = es
compare_expected found ((path, expected) ∷ rest) es =
    compare_expected found rest (compare_file path expected (lookup path found) es)

compare_found : Map Add → Map Add → List ValidationError → List ValidationError
compare_found expected [] es = es
compare_found expected ((path, f) ∷ rest) es =
    compare_found expected rest (report (is_none (lookup path expected)) (unexpected_file path) es)

-- `validateAgainstSnapshot`
unfoldable pub validate_against_snapshot :
    List Action → Snapshot → ValidationResult → ValidationResult
unfolding checkpoint_files compare_expected compare_found
validate_against_snapshot acts snap result =
    let found = checkpoint_files acts [] in
    record result {
      errors = compare_found snap.files found (compare_expected found snap.files result.errors);
    }

-- `json.Unmarshal(data, &actions)`: only an array is a list of actions.
unfoldable pub parse_checkpoint : Object → Result (List Action)
parse_checkpoint (checkpoint acts) = ok acts
parse_checkpoint (log_entry acts) = err (message (codes "json: not an array"))
parse_checkpoint (marker m) = err (message (codes "json: not an array"))
parse_checkpoint (other t) = err (message (codes "json: not an array"))

-- What a validator does with the result of a check that may return an error.
abbrev pub checked : Bytes → Option Error × ValidationResult → Result ValidationResult
checked text (none, result) = ok result
checked text (some e, result) = err (wrapped text e)

module _ {W : Type 0} (s : S3Store W) (log_prefix : Bytes) where
  -- The problems found, and the error that stopped the search.
  abbrev pub Integrity : Type 0
  Integrity = (Option Error × List ValidationError) × W

  -- What `Exists` says of a file, and the rest of the search.
  unfoldable pub note_exists :
      Add
      → List ValidationError
      → (List ValidationError → W → Integrity)
      → Result Bool × W
      → Integrity
  note_exists f es rest (err e, w) =
      ((some (wrapped (codes "check file existence for " ++ f.path) e), es), w)
  note_exists f es rest (ok there, w) = rest (report (not there) (absent_object f.path) es) w

  -- `validateFileIntegrity`
  unfoldable pub file_integrity : List Action → List ValidationError → W → Integrity
  unfolding note_exists
  file_integrity [] es w = ((none, es), w)
  file_integrity (a ∷ acts) es w =
      let rest = file_integrity acts in
      elim a.add [ none ↦ rest es w | some f ↦ note_exists f es rest (s.exists f.path w) ]

  unfoldable pub add_integrity :
      (Option Error × List ValidationError) × W → ValidationResult → ValidationResult × W
  add_integrity ((none, es), w) result = (record result { errors = es }, w)
  add_integrity ((some e, es), w) result =
      (record result { errors = es ++ integrity_failed e ∷ [] }, w)

  -- The last test, with the beginning of its error's text.
  verdict : Bytes → ValidationResult → Result (Unit {0})
  verdict text result = elim result.errors [
    | [] ↦ ok tt
    | e ∷ es ↦
        err (
          message (text ++ (codes " with " ++ (decimal (length result.errors) ++ codes " errors"))))
  ]

  -- `ValidateCheckpoint`
  unfoldable pub validate_checkpoint : Bytes → Snapshot → Operation W (Unit {0})
  unfolding parse_checkpoint validate_structure validate_against_snapshot file_integrity
      add_integrity verdict
  validate_checkpoint key snap = do
    text ← context (codes "read checkpoint file") (s.download key)
    acts ← context (codes "parse checkpoint JSON") (λ w. (parse_checkpoint text, w))
    result ← λ w. (
      checked (codes "checkpoint structure validation failed") (
          validate_structure acts
            (record (new_result snap.version) { actions_count = length acts })),
      w,
    )
    λ w.
        let compared = validate_against_snapshot acts snap result in
        let (result', w') = add_integrity (file_integrity acts compared.errors w) compared in
        (verdict (codes "checkpoint validation failed") result', w')

  -- `RecoverFromCheckpoint`
  unfoldable pub recover_from_checkpoint : ℤ → Operation W (Unit {0})
  unfolding parse_checkpoint validate_structure verdict
  recover_from_checkpoint version = do
    let key = checkpoint_key log_prefix version
    there ← context (codes "check checkpoint existence") (s.exists key)
    text ←
        if there
        then context (codes "read checkpoint file") (s.download key)
        else fail (message (codes "checkpoint file does not exist: " ++ key))
    acts ← context (codes "parse checkpoint") (λ w. (parse_checkpoint text, w))
    result ← λ w. (
      checked (codes "checkpoint structure invalid") (validate_structure acts (new_result version)),
      w,
    )
    λ w. (verdict (codes "checkpoint failed validation") result, w)

  -- `validateCheckpointFile`
  unfoldable pub validate_checkpoint_file : Bytes → Operation W (Unit {0})
  unfolding parse_checkpoint validate_structure
  validate_checkpoint_file key = do
    text ← context (codes "read checkpoint") (s.download key)
    acts ← context (codes "parse checkpoint") (λ w. (parse_checkpoint text, w))
    λ w.
        let (e, result) = validate_structure acts (new_result (pos 0)) in
        (elim e [ none ↦ ok tt | some x ↦ err x ], w)

  -- One round of the search: whether the version's checkpoint exists and passes.
  try_checkpoint : ℤ → W → Bool × W
  unfolding validate_checkpoint_file
  try_checkpoint version w =
      let key = checkpoint_key log_prefix version in
      let (r, w') = s.exists key w in
      elim r [
        | err e ↦ (false, w')
        | ok there ↦
            let (v, w'') = validate_checkpoint_file key w' in
            if there then elim v [ ok u ↦ (true, w'') | err e ↦ (false, w'') ] else (false, w')
      ]

  -- `for version := maxVersion; version >= 0; version--`
  search_down : ℕ → Operation W ℤ
  unfolding try_checkpoint
  search_down zero w = (err (message (codes "no valid checkpoint found")), w)
  search_down (suc n) w =
      let (found, w') = try_checkpoint (pos n) w in
      elim found [ true ↦ (ok (pos n), w') | false ↦ search_down n w' ]

  -- `FindValidCheckpoint`
  unfoldable pub find_valid_checkpoint : ℤ → Operation W ℤ
  unfolding search_down
  find_valid_checkpoint (pos n) = search_down (suc n)
  find_valid_checkpoint (negsuc n) = search_down zero
