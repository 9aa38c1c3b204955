-- ===== src/Sync/Phases/Samples.antt =====
-- A source of two pages, a destination that refuses its second batch, and the theorems there.
use durable_integrations.Prelude.{
  ℕ, zero, suc, ◌≡◌, refl, ◌↔◌, Bool, true, false, String, Option, none, some, List, [], ◌∷◌,
  length,
}
use durable_integrations.Prelude.Dict.{Dict, insert}
use durable_integrations.Prelude.Result.{Result, ok, err}
use durable_integrations.Sync.Types.{ExtractParams, ExtractResult, LoadParams, TransformParams}
use durable_integrations.Sync.Phases.{
  Fetch, FetchOutput, merge_state, extract_sequential, extract_with_partitions, extract_workflow,
  Destination, WriteOutput, ConfirmOutput, split_within, split_into_batches, collected, collect,
  load_workflow, batch_size_or_default, Transforms, apply_step, transform_workflow, coercion_failed,
}
use durable_integrations.Sync.Phases.Transfer.{
  join, AllWithin, AllWritten, written_of, load_workflow-IsComplete,
}
use durable_integrations.Sync.Phases.Pages.{Serves, read_result, extract_workflow_iff}

abbrev page : List String → Bool → Option FetchOutput
page records more =
    let out : FetchOutput = record {
      records = records;
      new_state = ("cursor", "x") ∷ [];
      has_more = more;
    } in
    some out

abbrev fetch : Fetch
fetch zero input = page ("a" ∷ "b" ∷ []) true
fetch (suc n) input = page ("c" ∷ []) false

abbrev params : ExtractParams
params = record {
  source_connector_id = "crm";
  source_config = "{}";
  streams = "contacts" ∷ [];
  state = [];
  batch_size = 2;
  tenant_id = "t";
  sync_id = "s";
}

two_pages :
    extract_workflow fetch none 2 params
    ≡ some (ok (read_result params ("a" ∷ "b" ∷ "c" ∷ []) (("cursor", "x") ∷ [])))
unfolding extract_workflow extract_sequential merge_state insert
two_pages = refl

-- Of two partitions only the first page each is read.
first_pages :
    extract_with_partitions (λ n. fetch zero) [] 2 0 [] [] ("p" ∷ "q" ∷ [])
    ≡ ok ("a" ∷ "b" ∷ "a" ∷ "b" ∷ [], ("cursor", "x") ∷ [])
unfolding extract_with_partitions merge_state insert
first_pages = refl

abbrev total : ExtractResult
total = read_result params ("a" ∷ "b" ∷ "c" ∷ []) (("cursor", "x") ∷ [])

extract_workflow_iff_example :
    ((fuel : ℕ) × (extract_workflow fetch none fuel params ≡ some (ok total))) ↔ (
      (rs : List String) × (final : Dict String) × Serves fetch
        (batch_size_or_default params.batch_size)
        0
        params.state
        rs
        final
      × (total ≡ read_result params rs final))
extract_workflow_iff_example = extract_workflow_iff fetch none params total refl

abbrev answer : ℕ → List String → Result String WriteOutput
answer zero batch =
    let out : WriteOutput = record { records_written = length batch; errors = [] } in ok out
answer (suc n) batch = err "timeout"

abbrev confirmed : Result String ConfirmOutput
confirmed =
    let out : ConfirmOutput = record { confirmed = true; discrepancy_msg = ""; errors = [] } in
    ok out

abbrev destination : Destination
destination = record { write = answer; confirm = λ expected actual errors. confirmed }

abbrev load_params : LoadParams
load_params = record {
  dest_connector_id = "warehouse";
  dest_config = "{}";
  records = "a" ∷ "b" ∷ "c" ∷ [];
  streams = [];
  batch_size = 2;
  tenant_id = "t";
  sync_id = "s";
}

half_loaded :
    load_workflow destination load_params
    ≡ record { records_loaded = 2; batches_written = 1; errors = "timeout" ∷ [] }
unfolding load_workflow split_into_batches split_within collect collected
half_loaded = refl

load_workflow-IsComplete_example :
    let size = batch_size_or_default load_params.batch_size in
    let batches = split_into_batches load_params.records size in
    (join batches ≡ load_params.records)
    × AllWithin size batches
    × ((load_workflow destination load_params).records_loaded ≡ written_of destination 0 batches)
    × ((load_workflow destination load_params).errors ≡ [] → AllWritten destination 0 batches)
load_workflow-IsComplete_example = load_workflow-IsComplete destination load_params

abbrev transforms : Transforms
transforms = record {
  map_fields = λ rs. some (rs, "no mapping" ∷ []);
  coerce_types = λ rs. none;
  deduplicate = λ rs. some (rs, 0);
  coerce_type = λ m. m;
}

abbrev mapped : String → TransformParams
mapped kind = record {
  records = "a" ∷ [];
  field_mappings = ("contacts", kind ∷ []) ∷ [];
  streams = [];
  tenant_id = "t";
  sync_id = "s";
}

uncoerced :
    transform_workflow transforms (mapped "")
    ≡ ok (record { records = "a" ∷ []; records_count = 1; dropped = 0; errors = "no mapping" ∷ [] })
unfolding transform_workflow apply_step
uncoerced = refl

not_coerced : transform_workflow transforms (mapped "int") ≡ err coercion_failed
unfolding transform_workflow apply_step
not_coerced = refl
