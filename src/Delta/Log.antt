-- ===== src/Delta/Log.antt =====
-- internal/storage/delta/log.go: `TransactionLog`, over a store and the prefix of the log's keys.
pub mod Order
pub mod Latest
use agent_brain.Base.{
  ℕ, zero, suc, ◌≡◌, Bool, true, false, Option, none, some, List, [], ◌∷◌, ◌++◌, if◌then◌else◌,
}
use agent_brain.Base.Int.{ℤ, pos, negsuc, leb_ℤ}
use agent_brain.Base.Bytes.{Bytes, codes}
use agent_brain.Base.Decimal.{decimal_int}
use agent_brain.Retry.Errors.{Error, message, Result, ok, err}
use agent_brain.Retry.Executor.{Operation}
use agent_brain.Delta.Actions.{Action, empty_action, Object, log_entry, checkpoint, marker, other}
use agent_brain.Delta.Store.{S3Store, ◌>>=◌, ◌>>◌, return, fail, context}
use agent_brain.Delta.Keys.{version_key, version_of_key}

-- `decodeActions`: an array or any other text is no action, and the one object of a marker file is an
-- action with no field set.
unfoldable pub decode_actions : Object → Result (List Action)
decode_actions (log_entry acts) = ok acts
decode_actions (marker m) = ok (empty_action ∷ [])
decode_actions (checkpoint acts) = err (message (codes "decode action"))
decode_actions (other t) = err (message (codes "decode action"))

-- `continue`, or `versions = append(versions, v)`.
keep_version : Option ℤ → List ℤ → List ℤ
keep_version none vs = vs
keep_version (some v) vs = v ∷ vs

-- The versions that the keys name, in the order of the keys.
unfoldable pub versions_of : List Bytes → List ℤ
unfolding keep_version
versions_of [] = []
versions_of (k ∷ ks) = keep_version (version_of_key k) (versions_of ks)

-- `sort.Slice(versions, <)`
unfoldable pub insert_version : ℤ → List ℤ → List ℤ
insert_version v [] = v ∷ []
insert_version v (x ∷ xs) = if leb_ℤ v x then v ∷ x ∷ xs else x ∷ insert_version v xs

unfoldable pub sort_versions : List ℤ → List ℤ
unfolding insert_version
sort_versions [] = []
sort_versions (v ∷ vs) = insert_version v (sort_versions vs)

-- `versions[len(versions)-1]`, and -1 of no versions.
unfoldable pub last_version : ℤ → List ℤ → ℤ
last_version default [] = default
last_version default (v ∷ vs) = last_version v vs

module _ {W : Type 0} (s : S3Store W) (log_prefix : Bytes) where
  unfoldable pub write_version : ℤ → List Action → Operation W (Unit {0})
  write_version version actions =
      context (codes "write version " ++ decimal_int version)
        (s.upload (version_key log_prefix version) (log_entry actions))

  unfoldable pub read_version : ℤ → Operation W (List Action)
  unfolding decode_actions
  read_version version = do
    data_read ←
        context (codes "read version " ++ decimal_int version)
          (s.download (version_key log_prefix version))
    λ w. (decode_actions data_read, w)

  unfoldable pub list_versions : Operation W (List ℤ)
  unfolding versions_of sort_versions
  list_versions = do
    keys ← context (codes "list versions") (s.list log_prefix)
    return (sort_versions (versions_of keys))

  unfoldable pub latest_version : Operation W ℤ
  unfolding list_versions last_version
  latest_version = do versions ← list_versions; return (last_version (negsuc 0) versions)
