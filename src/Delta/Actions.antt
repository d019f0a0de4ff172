-- ===== src/Delta/Actions.antt =====
-- internal/storage/delta/actions.go and the marker of checkpoint.go. int and int64 fields are
-- integers, a pointer is an option, a `map[string]string` an association list.
use agent_brain.Base.{Bool, true, false, Option, none, some, List, []}
use agent_brain.Base.Int.{ℤ, pos}
use agent_brain.Base.Bytes.{Bytes, codes}
use agent_brain.Base.Map.{Map}

pub record Protocol : Type 0 where
  pub min_reader_version : ℤ
  pub min_writer_version : ℤ

pub record Format : Type 0 where
  pub provider : Bytes
  pub options : Map Bytes

pub record Metadata : Type 0 where
  pub id : Bytes
  pub name : Bytes
  pub description : Bytes
  pub format : Format
  pub schema_string : Bytes
  pub partition_columns : List Bytes
  pub configuration : Map Bytes
  pub created_time : ℤ

pub record Add : Type 0 where
  pub path : Bytes
  pub size : ℤ
  pub partition_values : Map Bytes
  pub modification_time : ℤ
  pub data_change : Bool
  pub stats : Bytes
  pub tags : Map Bytes

pub record Remove : Type 0 where
  pub path : Bytes
  pub deletion_timestamp : ℤ
  pub data_change : Bool
  pub extended_file_metadata : Bool

pub record CommitInfo : Type 0 where
  pub timestamp : ℤ
  pub operation : Bytes
  pub operation_params : Map Bytes
  pub read_version : ℤ
  pub is_blind_append : Bool

pub record Action : Type 0 where
  pub protocol : Option Protocol
  pub meta_data : Option Metadata
  pub add : Option Add
  pub remove : Option Remove
  pub commit_info : Option CommitInfo

-- `Action{}`
abbrev pub empty_action : Action
empty_action = record {
  protocol = none;
  meta_data = none;
  add = none;
  remove = none;
  commit_info = none;
}

unfoldable pub protocol_action : Protocol → Action
protocol_action p = record empty_action { protocol = some p }

unfoldable pub metadata_action : Metadata → Action
metadata_action m = record empty_action { meta_data = some m }

unfoldable pub add_action : Add → Action
add_action a = record empty_action { add = some a }

unfoldable pub remove_action : Remove → Action
remove_action r = record empty_action { remove = some r }

unfoldable pub commit_info_action : CommitInfo → Action
commit_info_action c = record empty_action { commit_info = some c }

unfoldable pub new_protocol_action : Action
unfolding protocol_action
new_protocol_action =
    protocol_action (record { min_reader_version = pos 1; min_writer_version = pos 2 })

-- The last argument of the next four is `time.Now().UnixMilli()`.
unfoldable pub new_metadata_action : Bytes → Bytes → Bytes → ℤ → Action
unfolding metadata_action
new_metadata_action id name schema_string now = metadata_action (record {
  id = id;
  name = name;
  description = [];
  format = record { provider = codes "parquet"; options = [] };
  schema_string = schema_string;
  partition_columns = [];
  configuration = [];
  created_time = now;
})

unfoldable pub new_add_action : Bytes → ℤ → Bytes → ℤ → Action
unfolding add_action
new_add_action path size stats now = add_action (record {
  path = path;
  size = size;
  partition_values = [];
  modification_time = now;
  data_change = true;
  stats = stats;
  tags = [];
})

unfoldable pub new_remove_action : Bytes → ℤ → Action
unfolding remove_action
new_remove_action path now = remove_action (record {
  path = path;
  deletion_timestamp = now;
  data_change = true;
  extended_file_metadata = false;
})

unfoldable pub new_commit_info_action : Bytes → ℤ → Bool → ℤ → Action
unfolding commit_info_action
new_commit_info_action operation read_version is_blind_append now = commit_info_action (record {
  timestamp = now;
  operation = operation;
  operation_params = [];
  read_version = read_version;
  is_blind_append = is_blind_append;
})

pub record LastCheckpoint : Type 0 where
  pub version : ℤ
  pub size : ℤ

-- What a file holds, by the value that its JSON text encodes: one action a line, an array of actions,
-- a marker, or any other text.
pub data Object : Type 0 where
  log_entry : List Action → Object
  checkpoint : List Action → Object
  marker : LastCheckpoint → Object
  other : Bytes → Object
