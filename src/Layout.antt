-- ===== src/Layout.antt =====
-- internal/storage/layout.go: the names of the files on the object store.
pub mod Separate
pub mod Nameless
use agent_brain.Base.{◌++◌}
use agent_brain.Base.Int.{ℤ}
use agent_brain.Base.Bytes.{Bytes, codes}
use agent_brain.Base.Decimal.{decimal_int, pad20}

unfoldable pub data_prefix : Bytes → Bytes → Bytes
data_prefix source object = codes "data/" ++ (source ++ (codes "/" ++ object))

unfoldable pub delta_log_prefix : Bytes → Bytes → Bytes
delta_log_prefix source object =
    codes "data/" ++ (source ++ (codes "/" ++ (object ++ codes "/_delta_log/")))

unfoldable pub delta_log_entry : Bytes → Bytes → ℤ → Bytes
delta_log_entry source object version =
    codes "data/"
    ++ (source
        ++ (codes "/" ++ (object ++ (codes "/_delta_log/" ++ (pad20 version ++ codes ".json")))))

unfoldable pub delta_checkpoint : Bytes → Bytes → ℤ → Bytes
delta_checkpoint source object version =
    codes "data/"
    ++ (source
        ++ (codes "/"
            ++ (object
                ++ (codes "/_delta_log/" ++ (pad20 version ++ codes ".checkpoint.parquet")))))

unfoldable pub delta_last_checkpoint : Bytes → Bytes → Bytes
delta_last_checkpoint source object =
    codes "data/" ++ (source ++ (codes "/" ++ (object ++ codes "/_delta_log/_last_checkpoint")))

unfoldable pub parquet_file : Bytes → Bytes → Bytes → Bytes
parquet_file source object filename =
    codes "data/" ++ (source ++ (codes "/" ++ (object ++ (codes "/" ++ filename))))

unfoldable pub sync_state : Bytes → Bytes
sync_state source = codes "state/" ++ (source ++ codes "/sync_state.json")

unfoldable pub schema_version : Bytes → Bytes → ℤ → Bytes
schema_version source object version =
    codes "state/"
    ++ (source
        ++ (codes "/schema_history/"
            ++ (object ++ (codes "/v" ++ (decimal_int version ++ codes ".json")))))

unfoldable pub schema_history_prefix : Bytes → Bytes → Bytes
schema_history_prefix source object =
    codes "state/" ++ (source ++ (codes "/schema_history/" ++ (object ++ codes "/")))

unfoldable pub catalog : Bytes → Bytes
catalog source = codes "metadata/" ++ (source ++ codes "/catalog.json")

unfoldable pub validation_report : Bytes → Bytes → Bytes
validation_report source sync_id =
    codes "validation/" ++ (source ++ (codes "/reports/" ++ (sync_id ++ codes ".json")))

unfoldable pub validation_reports_prefix : Bytes → Bytes
validation_reports_prefix source = codes "validation/" ++ (source ++ codes "/reports/")

unfoldable pub drift_metrics : Bytes → Bytes → Bytes
drift_metrics source object =
    codes "validation/" ++ (source ++ (codes "/" ++ (object ++ codes "/drift_metrics.json")))

unfoldable pub field_snapshots : Bytes → Bytes → Bytes
field_snapshots source object =
    codes "validation/" ++ (source ++ (codes "/" ++ (object ++ codes "/field_snapshots.json")))
