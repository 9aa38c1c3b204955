-- ===== src/Sync/Orchestrator/Samples.antt =====
-- One sync run with concrete child workflows, and the theorems about runs at it.
use durable_integrations.Prelude.{◌≡◌, String, true, false, some, [], ◌∷◌}
use durable_integrations.Prelude.Result.{ok}
use durable_integrations.Sync.Signals.{pauses, cancels, PauseSignal, CancelSignal}
use durable_integrations.Sync.Types.{
  SyncPhase, SyncParams, SyncResult, ExtractResult, TransformResult, LoadResult,
}
use durable_integrations.Sync.Orchestrator.{Inbox, Env, Run, returned, sync_orchestrator}
use durable_integrations.Sync.Orchestrator.Effects.{
  phases, run_of, Pipeline, sync_orchestrator-Pipeline,
}
use durable_integrations.Sync.Orchestrator.Ledger.{Ledger, sync_orchestrator-Ledger}
use durable_integrations.Sync.Orchestrator.Control.{has_cancel}
use durable_integrations.Sync.Orchestrator.Cancels.{
  is_load, is_transform_or_load, Avoids, sync_orchestrator-cancelled,
}

abbrev orders_sync : SyncParams
orders_sync = record {
  source_connector_id = "hubspot";
  dest_connector_id = "snowflake";
  source_config = "{}";
  dest_config = "{}";
  selected_streams = "orders" ∷ [];
  field_mappings = [];
  sync_mode = "incremental";
  last_checkpoint = ("orders", "7") ∷ [];
  tenant_id = "acme";
  sync_id = "s1";
}

abbrev two_orders : ExtractResult
two_orders = record {
  records = "a" ∷ "b" ∷ [];
  records_count = 2;
  new_state = ("orders", "9") ∷ [];
  partitions_used = 1;
}

abbrev mapped_orders : TransformResult
mapped_orders = record { records = "A" ∷ "B" ∷ []; records_count = 2; dropped = 0; errors = [] }

abbrev loaded_orders : LoadResult
loaded_orders = record { records_loaded = 1; batches_written = 1; errors = "b is too long" ∷ [] }

abbrev quiet : Inbox
quiet = record { arrived = []; while_paused = []; resumed = true }

abbrev pause_now : PauseSignal
pause_now = record { reason = "maintenance"; request_id = "1" }

abbrev cancel_now : CancelSignal
cancel_now = record { reason = "wrong account"; request_id = "2"; save_state = false }

abbrev paused_once : Inbox
paused_once = record { arrived = pauses pause_now ∷ []; while_paused = []; resumed = true }

abbrev healthy : Env
healthy = record {
  workflow_id = "w1";
  started = 10;
  ended = 30;
  returned_at = 30;
  before_extract = quiet;
  before_transform = paused_once;
  before_load = quiet;
  extract_workflow = λ p. ok two_orders;
  transform_workflow = λ p. ok mapped_orders;
  load_workflow = λ p. ok loaded_orders;
}

sync_orchestrator-Ledger_example :
    Ledger healthy orders_sync (sync_orchestrator healthy orders_sync)
sync_orchestrator-Ledger_example = sync_orchestrator-Ledger healthy orders_sync

sync_orchestrator-Pipeline_example :
    Pipeline healthy orders_sync (phases (run_of (sync_orchestrator healthy orders_sync)).effects)
sync_orchestrator-Pipeline_example = sync_orchestrator-Pipeline healthy orders_sync

abbrev cancelled_inbox : Inbox
cancelled_inbox = record {
  arrived = pauses pause_now ∷ cancels cancel_now ∷ [];
  while_paused = [];
  resumed = true;
}

-- The extraction and the transform succeed; the cancel comes before the load.
abbrev cancelled_late : Env
cancelled_late = record healthy { before_load = cancelled_inbox }

sync_orchestrator-cancelled_example :
    (has_cancel [] ≡ true
      → ((result : SyncResult) × (e : String) × (q : Run) × (sync_orchestrator cancelled_late
              orders_sync
            ≡ returned result (some e) q)
          × (q.status.phase ≡ SyncPhase.cancelled)
          × (q.effects ≡ [])))
    × (has_cancel (pauses pause_now ∷ []) ≡ true
        → Avoids is_transform_or_load (sync_orchestrator cancelled_late orders_sync))
    × (has_cancel cancelled_inbox.arrived ≡ true
        → Avoids is_load (sync_orchestrator cancelled_late orders_sync))
sync_orchestrator-cancelled_example = sync_orchestrator-cancelled cancelled_late orders_sync
