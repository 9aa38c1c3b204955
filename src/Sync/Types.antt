-- ===== src/Sync/Types.antt =====
-- internal/orchestration/workflows/types.go: what goes into a sync run and what comes out.
-- Records and configurations are opaque to the orchestrator and are kept as texts.
use durable_integrations.Prelude.{ℕ, String, List}
use durable_integrations.Prelude.Dict.{Dict}

pub data SyncPhase : Type 0 where
  initializing extracting transforming loading completed failed cancelled paused : SyncPhase

pub record SyncParams : Type 0 where
  pub source_connector_id : String
  pub dest_connector_id : String
  pub source_config : String
  pub dest_config : String
  pub selected_streams : List String
  pub field_mappings : Dict (List String)
  pub sync_mode : String
  pub last_checkpoint : Dict String
  pub tenant_id : String
  pub sync_id : String

pub record SyncResult : Type 0 where
  pub records_extracted : ℕ
  pub records_transformed : ℕ
  pub records_loaded : ℕ
  pub new_checkpoint : Dict String
  pub duration : ℕ
  pub errors : List String

-- `Progress` is 0 until the run completes and is then 1.0; it is kept in hundredths.
pub record SyncStatus : Type 0 where
  pub phase : SyncPhase
  pub progress : ℕ
  pub records_processed : ℕ
  pub errors : List String
  pub started_at : ℕ

pub record ExtractParams : Type 0 where
  pub source_connector_id : String
  pub source_config : String
  pub streams : List String
  pub state : Dict String
  pub batch_size : ℕ
  pub tenant_id : String
  pub sync_id : String

pub record ExtractResult : Type 0 where
  pub records : List String
  pub records_count : ℕ
  pub new_state : Dict String
  pub partitions_used : ℕ

pub record TransformParams : Type 0 where
  pub records : List String
  pub field_mappings : Dict (List String)
  pub streams : List String
  pub tenant_id : String
  pub sync_id : String

pub record TransformResult : Type 0 where
  pub records : List String
  pub records_count : ℕ
  pub dropped : ℕ
  pub errors : List String

pub record LoadParams : Type 0 where
  pub dest_connector_id : String
  pub dest_config : String
  pub records : List String
  pub streams : List String
  pub batch_size : ℕ
  pub tenant_id : String
  pub sync_id : String

pub record LoadResult : Type 0 where
  pub records_loaded : ℕ
  pub batches_written : ℕ
  pub errors : List String
