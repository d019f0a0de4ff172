-- ===== src/Delta/Keys.antt =====
-- internal/storage/delta/log.go and checkpoint_manager.go: file names, and what is read back from them.
pub mod Names
use agent_brain.Base.{
  ℕ, zero, suc, ◌≤◌, ◌≡◌, refl, sym, ap, ◌∙◌, Bool, true, false, ◌&&◌, ◌||◌, not, Option, none,
  some, List, [], ◌∷◌, ◌++◌, arith, ◌==◌, if◌then◌else◌,
}
use agent_brain.Base.Int.{ℤ, pos, IsInt64}
use agent_brain.Base.Bytes.{Bytes, codes}
use agent_brain.Base.Decimal.{pad20, parse_int}
use agent_brain.Base.Strings.{has_prefix, has_suffix, trim_suffix, base_of, first_part}

-- `versionKey`
unfoldable pub version_key : Bytes → ℤ → Bytes
version_key log_prefix v = log_prefix ++ (pad20 v ++ codes ".json")

unfoldable pub checkpoint_key : Bytes → ℤ → Bytes
checkpoint_key log_prefix v = log_prefix ++ (pad20 v ++ codes ".checkpoint.json")

-- The body of the loop of `ListVersions`: the version that a key names, if it does.
unfoldable pub version_of_key : Bytes → Option ℤ
version_of_key key =
    let base = base_of b'/' key in
    if not (has_suffix base (codes ".json")) || has_prefix base (codes "_")
    then none
    else parse_int (trim_suffix base (codes ".json"))

-- `extractVersionFromCheckpointKey`
unfoldable pub version_of_checkpoint_key : Bytes → Option ℤ
version_of_checkpoint_key key = parse_int (first_part b'.' (base_of b'/' key))
