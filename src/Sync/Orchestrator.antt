-- ===== src/Sync/Orchestrator.antt =====
-- internal/orchestration/workflows/sync_orchestrator.go: extract, transform and load as one run,
-- with a look at the signals before each phase. What the run asks of the engine is a list of
-- effects, in order; what the engine delivers is `Env`. An activity that fails is only logged, so
-- its result is not a part of the environment.
pub mod Effects
pub mod Recorded
pub mod Ledger
pub mod Control
pub mod Cancels
mod Samples
use text.Mathlib.Text.{◌==◌ as str_eq}
use durable_integrations.Prelude.{
  ℕ, ◌-◌, String, Bool, Option, none, some, List, [], ◌∷◌, ◌++◌, if◌then◌else◌, length, ◌||◌, ltb,
}
use durable_integrations.Prelude.Dict.{Dict}
use durable_integrations.Prelude.Result.{Result, ok, err}
use durable_integrations.Prelude.Text.{concat, decimal}
use durable_integrations.Sync.Signals.{
  Signal, SignalState, new_signal_state, apply_resume, handle_all,
}
use durable_integrations.Sync.Types.{
  SyncPhase, SyncParams, SyncResult, SyncStatus, ExtractParams, ExtractResult, TransformParams,
  TransformResult, LoadParams, LoadResult,
}

-- activities.SyncRunRecord
pub record SyncRunRecord : Type 0 where
  pub tenant_id : String
  pub sync_id : String
  pub workflow_id : String
  pub status : String
  pub records_extracted : ℕ
  pub records_transformed : ℕ
  pub records_loaded : ℕ
  pub new_checkpoint : Dict String
  pub duration : ℕ
  pub errors : List String
  pub started_at : ℕ
  pub completed_at : ℕ

-- activities.AlertInput; `Errors` is never set here.
pub record AlertInput : Type 0 where
  pub tenant_id : String
  pub sync_id : String
  pub workflow_id : String
  pub alert_type : String
  pub message : String
  pub severity : String

-- What the run asks of the engine.
pub data Effect : Type 0 where
  extracts : ExtractParams → Effect
  transforms : TransformParams → Effect
  loads : LoadParams → Effect
  records_run : SyncRunRecord → Effect
  alerts : AlertInput → Effect

-- The signals that reach the run before it looks, those that come while it is paused, and whether
-- the pause ends by a resume signal.
pub record Inbox : Type 0 where
  pub arrived : List Signal
  pub while_paused : List Signal
  pub resumed : Bool

-- Readings of `workflow.Now`, in time order: at the start, when the run is recorded, and when a
-- result without a successful load is built.
pub record Env : Type 0 where
  pub workflow_id : String
  pub started : ℕ
  pub ended : ℕ
  pub returned_at : ℕ
  pub before_extract : Inbox
  pub before_transform : Inbox
  pub before_load : Inbox
  pub extract_workflow : ExtractParams → Result String ExtractResult
  pub transform_workflow : TransformParams → Result String TransformResult
  pub load_workflow : LoadParams → Result String LoadResult

-- What the workflow function changes as it runs.
pub record Run : Type 0 where
  pub status : SyncStatus
  pub signals : SignalState
  pub effects : List Effect

-- `blocked` is a run that still waits for a resume signal.
pub data Outcome : Type 0 where
  blocked : Run → Outcome
  returned : SyncResult → Option String → Run → Outcome

pub data Check : Type 0 where
  go_on : Run → Check
  stop : String → Run → Check
  waiting : Run → Check

abbrev pub default_batch_size : ℕ
default_batch_size = 1000

abbrev pub start : Env → Run
start env = record {
  status = record {
    phase = SyncPhase.initializing;
    progress = 0;
    records_processed = 0;
    errors = [];
    started_at = env.started;
  };
  signals = new_signal_state;
  effects = [];
}

abbrev pub enter : SyncPhase → Run → Run
enter p run = record run { status = record run.status { phase = p } }

abbrev pub emit : Effect → Run → Run
emit e run = record run { effects = run.effects ++ e ∷ [] }

-- The second half of `checkSignals`: the run stands paused until the resume signal.
pub wait_for_resume : Inbox → Run → Check
wait_for_resume inbox run =
    let paused = enter SyncPhase.paused run in
    let woken = record paused {
      signals = apply_resume (handle_all inbox.while_paused run.signals);
    } in
    if inbox.resumed
    then if woken.signals.cancel_requested
      then stop (concat "sync cancelled while paused: " woken.signals.cancel_reason)
          (enter SyncPhase.cancelled woken)
      else go_on (enter run.status.phase woken)
    else waiting paused

pub check_signals : Inbox → Run → Check
check_signals inbox before =
    let run = record before { signals = handle_all inbox.arrived before.signals } in
    if run.signals.cancel_requested
    then stop (concat "sync cancelled: " run.signals.cancel_reason) (enter SyncPhase.cancelled run)
    else if run.signals.pause_requested
    then wait_for_resume inbox run
    else go_on run

unfoldable pub run_status : SyncPhase → String
run_status SyncPhase.failed = "failed"
run_status SyncPhase.cancelled = "cancelled"
run_status _ = "completed"

pub alert_severity_for_type : String → String
alert_severity_for_type alert_type =
    if str_eq alert_type "extract_failed" || str_eq alert_type "load_failed"
    then "critical"
    else if str_eq alert_type "transform_failed"
    then "critical"
    else if str_eq alert_type "sync_degraded" || str_eq alert_type "partial_failure"
    then "warning"
    else "info"

module _ (env : Env) (params : SyncParams) where
  pub sync_run_record : SyncPhase → SyncResult → SyncRunRecord
  unfolding run_status
  sync_run_record phase result = record {
    tenant_id = params.tenant_id;
    sync_id = params.sync_id;
    workflow_id = env.workflow_id;
    status = run_status phase;
    records_extracted = result.records_extracted;
    records_transformed = result.records_transformed;
    records_loaded = result.records_loaded;
    new_checkpoint = result.new_checkpoint;
    duration = env.ended - env.started;
    errors = result.errors;
    started_at = env.started;
    completed_at = env.ended;
  }

  pub record_sync_run : SyncResult → Run → Run
  unfolding sync_run_record
  record_sync_run result run =
      emit (Effect.records_run (sync_run_record run.status.phase result)) run

  pub alert_on_failure : String → String → Run → Run
  alert_on_failure alert_type message run =
      emit
        (Effect.alerts (record {
          tenant_id = params.tenant_id;
          sync_id = params.sync_id;
          workflow_id = env.workflow_id;
          alert_type = alert_type;
          message = message;
          severity = alert_severity_for_type alert_type;
        }))
        run

  pub build_failed_result : List String → SyncResult
  build_failed_result errors = record {
    records_extracted = 0;
    records_transformed = 0;
    records_loaded = 0;
    new_checkpoint = [];
    duration = env.returned_at - env.started;
    errors = errors;
  }

  pub build_partial_result : ExtractResult → List String → SyncResult
  build_partial_result extracted errors = record {
    records_extracted = extracted.records_count;
    records_transformed = 0;
    records_loaded = 0;
    new_checkpoint = extracted.new_state;
    duration = env.returned_at - env.started;
    errors = errors;
  }

  pub partial_counts : ℕ → ℕ → List String → SyncResult
  partial_counts extracted transformed errors = record {
    records_extracted = extracted;
    records_transformed = transformed;
    records_loaded = 0;
    new_checkpoint = [];
    duration = 0;
    errors = errors;
  }

  -- A phase that fails: the run is recorded with the counts so far, and an alert is sent.
  pub fail_phase : String → String → ℕ → ℕ → Run → Outcome
  unfolding partial_counts build_failed_result
  fail_phase alert_type message extracted transformed before =
      let failed : Run = record before {
        status = record before.status {
          phase = SyncPhase.failed;
          errors = before.status.errors ++ message ∷ [];
        };
      } in
      let counts = partial_counts extracted transformed failed.status.errors in
      let run = alert_on_failure alert_type message (record_sync_run counts failed) in
      returned (build_failed_result run.status.errors) (some message) run

  unfoldable pub extract_params : ExtractParams
  extract_params = record {
    source_connector_id = params.source_connector_id;
    source_config = params.source_config;
    streams = params.selected_streams;
    state = params.last_checkpoint;
    batch_size = default_batch_size;
    tenant_id = params.tenant_id;
    sync_id = params.sync_id;
  }

  unfoldable pub transform_params : ExtractResult → TransformParams
  transform_params extracted = record {
    records = extracted.records;
    field_mappings = params.field_mappings;
    streams = params.selected_streams;
    tenant_id = params.tenant_id;
    sync_id = params.sync_id;
  }

  unfoldable pub load_params : TransformResult → LoadParams
  load_params transformed = record {
    dest_connector_id = params.dest_connector_id;
    dest_config = params.dest_config;
    records = transformed.records;
    streams = params.selected_streams;
    batch_size = default_batch_size;
    tenant_id = params.tenant_id;
    sync_id = params.sync_id;
  }

  -- A non-fatal error of the transform or of the load degrades the run.
  alert_if_degraded : SyncResult → Run → Run
  alert_if_degraded result run =
      if ltb 0 (length result.errors)
      then alert_on_failure "sync_degraded"
          (concat (decimal (length result.errors)) " non-fatal errors occurred") run
      else run

  unfoldable pub complete_result : ExtractResult → TransformResult → LoadResult → SyncResult
  complete_result extracted transformed loaded = record {
    records_extracted = extracted.records_count;
    records_transformed = transformed.records_count;
    records_loaded = loaded.records_loaded;
    new_checkpoint = extracted.new_state;
    duration = env.ended - env.started;
    errors = transformed.errors ++ loaded.errors;
  }

  pub complete : ExtractResult → TransformResult → LoadResult → Run → Outcome
  unfolding alert_if_degraded complete_result
  complete extracted transformed loaded before =
      let done : Run = record before {
        status = record before.status { phase = SyncPhase.completed; progress = 100 };
      } in
      let result = complete_result extracted transformed loaded in
      returned result none (alert_if_degraded result (record_sync_run result done))

  after_load : ExtractResult → TransformResult → Result String LoadResult → Run → Outcome
  after_load extracted transformed (err e) run =
      fail_phase "load_failed" e extracted.records_count transformed.records_count run
  after_load extracted transformed (ok loaded) run = complete extracted transformed loaded run

  pub load_phase : ExtractResult → TransformResult → Check → Outcome
  unfolding after_load
  load_phase extracted transformed (waiting run) = blocked run
  load_phase extracted transformed (stop e run) =
      returned (build_partial_result extracted run.status.errors) (some e) run
  load_phase extracted transformed (go_on run) =
      after_load extracted transformed (env.load_workflow (load_params transformed))
        (emit (Effect.loads (load_params transformed)) (enter SyncPhase.loading run))

  abbrev pub count_processed : ℕ → Run → Run
  count_processed n run = record run { status = record run.status { records_processed = n } }

  after_transform : ExtractResult → Result String TransformResult → Run → Outcome
  after_transform extracted (err e) run =
      fail_phase "transform_failed" e extracted.records_count 0 run
  after_transform extracted (ok transformed) run =
      load_phase extracted transformed
        (check_signals env.before_load (count_processed transformed.records_count run))

  pub transform_phase : ExtractResult → Check → Outcome
  unfolding after_transform
  transform_phase extracted (waiting run) = blocked run
  transform_phase extracted (stop e run) =
      returned (build_partial_result extracted run.status.errors) (some e) run
  transform_phase extracted (go_on run) =
      after_transform extracted (env.transform_workflow (transform_params extracted))
        (emit (Effect.transforms (transform_params extracted)) (enter SyncPhase.transforming run))

  after_extract : Result String ExtractResult → Run → Outcome
  after_extract (err e) run = fail_phase "extract_failed" e 0 0 run
  after_extract (ok extracted) run =
      transform_phase extracted
        (check_signals env.before_transform (count_processed extracted.records_count run))

  pub extract_phase : Check → Outcome
  unfolding after_extract
  extract_phase (waiting run) = blocked run
  extract_phase (stop e run) = returned (build_failed_result run.status.errors) (some e) run
  extract_phase (go_on run) =
      after_extract (env.extract_workflow extract_params)
        (emit (Effect.extracts extract_params) (enter SyncPhase.extracting run))

  pub sync_orchestrator : Outcome
  sync_orchestrator = extract_phase (check_signals env.before_extract (start env))
