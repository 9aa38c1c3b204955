-- ===== src/Sync/Whole/Samples.antt =====
-- A run over a source of two pages whose destination refuses every batch, and the theorem there.
use durable_integrations.Prelude.{
  ℕ, zero, suc, ◌≡◌, refl, Bool, true, false, String, none, some, List, [], ◌∷◌,
}
use durable_integrations.Prelude.Dict.{insert}
use durable_integrations.Prelude.Result.{err}
use durable_integrations.Sync.Types.{SyncParams, SyncResult, TransformResult}
use durable_integrations.Sync.Orchestrator.{
  Inbox, Env, Run, returned, sync_orchestrator, extract_params, transform_params,
}
use durable_integrations.Sync.Orchestrator.Control.{IsClear}
use durable_integrations.Sync.Phases.{
  Fetch, FetchOutput, Transforms, Destination, transform_workflow, apply_step, split_into_batches,
  merge_state,
}
use durable_integrations.Sync.Phases.Pages.{Serves, last_page, next_page}
use durable_integrations.Sync.Phases.Transfer.{written_of}
use durable_integrations.Sync.Whole.{wired, sync_orchestrator_carries}

abbrev leads_sync : SyncParams
leads_sync = record {
  source_connector_id = "crm";
  dest_connector_id = "lake";
  source_config = "{}";
  dest_config = "{}";
  selected_streams = "leads" ∷ [];
  field_mappings = [];
  sync_mode = "full";
  last_checkpoint = [];
  tenant_id = "acme";
  sync_id = "s2";
}

abbrev page : List String → String → Bool → FetchOutput
page records cursor more = record {
  records = records;
  new_state = ("leads", cursor) ∷ [];
  has_more = more;
}

abbrev pages : Fetch
pages zero input = some (page ("a" ∷ "b" ∷ []) "2" true)
pages (suc n) input = some (page ("c" ∷ []) "3" false)

served : Serves pages 1000 0 [] ("a" ∷ "b" ∷ "c" ∷ []) (("leads", "3") ∷ [])
unfolding merge_state insert
served =
    next_page (page ("a" ∷ "b" ∷ []) "2" true) refl refl
      (last_page (page ("c" ∷ []) "3" false) refl refl)

abbrev deduplicating : Transforms
deduplicating = record {
  map_fields = λ rs. none;
  coerce_types = λ rs. none;
  deduplicate = λ rs. some (rs, 0);
  coerce_type = λ m. "";
}

abbrev unreachable : Destination
unreachable = record {
  write = λ i batch. err "refused";
  confirm = λ expected actual errors. err "refused";
}

abbrev no_signals : Inbox
no_signals = record { arrived = []; while_paused = []; resumed = true }

no_signals-IsClear : IsClear no_signals
no_signals-IsClear = record { arrived = refl; while_paused = refl; resumed = refl }

abbrev env : Env
env = record {
  workflow_id = "w";
  started = 10;
  ended = 20;
  returned_at = 20;
  before_extract = no_signals;
  before_transform = no_signals;
  before_load = no_signals;
  extract_workflow = λ p. err "not started";
  transform_workflow = λ p. err "not started";
  load_workflow = λ p. err "not started";
}

abbrev transformed_leads : TransformResult
transformed_leads = record {
  records = "a" ∷ "b" ∷ "c" ∷ [];
  records_count = 3;
  dropped = 0;
  errors = [];
}

sync_orchestrator_carries_example :
    (fuel : ℕ) × (result : SyncResult) × (run : Run) × (sync_orchestrator
        (wired env pages none fuel deduplicating unreachable)
        leads_sync
      ≡ returned result none run)
    × (result.records_extracted ≡ 3)
    × (result.records_loaded
        ≡ written_of unreachable 0 (split_into_batches transformed_leads.records 1000))
    × (result.new_checkpoint ≡ merge_state [] (("leads", "3") ∷ []))
unfolding extract_params transform_params transform_workflow apply_step
sync_orchestrator_carries_example =
    sync_orchestrator_carries env leads_sync pages none deduplicating unreachable
      ("a" ∷ "b" ∷ "c" ∷ []) (("leads", "3") ∷ []) transformed_leads no_signals-IsClear
      no_signals-IsClear no_signals-IsClear refl served refl
