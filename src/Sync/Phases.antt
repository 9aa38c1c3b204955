-- ===== src/Sync/Phases.antt =====
-- internal/orchestration/workflows: the child workflows ExtractWorkflow (extract.go), TransformWorkflow
-- (transform.go) and LoadWorkflow (load.go). What the activities answer is an argument, `none` or a
-- message where one fails for good; records are texts.
pub mod Transfer
pub mod Pages
mod Samples
use durable_integrations.Prelude.{
  ℕ, zero, suc, ◌+◌, ◌-◌, ◌*◌, ◌/◌, ◌<◌, Bool, true, false, not, ◌||◌, String, Option, none, some,
  List, [], ◌∷◌, ◌++◌, ltb, leb, if◌then◌else◌, length, take, drop, any,
}
use text.Mathlib.Text.{◌==◌ as str_eq}
use durable_integrations.Prelude.Dict.{Dict, insert}
use durable_integrations.Prelude.Result.{Result, ok, err, ◌>>=◌}
use durable_integrations.Sync.Orchestrator.{default_batch_size}
use durable_integrations.Sync.Types.{
  ExtractParams, ExtractResult, TransformParams, TransformResult, LoadParams, LoadResult,
}

pub data PhaseError : Type 0 where
  fetch_failed partition_failed mapping_failed coercion_failed deduplication_failed : PhaseError

abbrev pub batch_size_or_default : ℕ → ℕ
batch_size_or_default size = if leb size 0 then default_batch_size else size

-- activities.FetchBatchInput, without what is the same in each call, and FetchBatchOutput.
pub record FetchInput : Type 0 where
  pub state : Dict String
  pub batch_size : ℕ
  pub partition : Option String

pub record FetchOutput : Type 0 where
  pub records : List String
  pub new_state : Dict String
  pub has_more : Bool

-- The answer to the nth call for a batch.
abbrev pub Fetch : Type 0
Fetch = ℕ → FetchInput → Option FetchOutput

-- `mergeStateRaw(target, source)`
unfoldable pub merge_state : Dict String → Dict String → Dict String
merge_state target [] = target
merge_state target ((key, value) ∷ rest) = merge_state (insert key value target) rest

abbrev pub Extracted : Type 0
Extracted = Result PhaseError (List String × Dict String)

-- The loop of extractSequential, from its nth call on; `none` is a loop that goes on.
unfoldable pub extract_sequential : Fetch → ℕ → ℕ → ℕ → List String → Dict String → Option Extracted
extract_sequential fetch zero batch_size n all state = none
extract_sequential fetch (suc fuel) batch_size n all state =
    elim (fetch n (record { state = state; batch_size = batch_size; partition = none })) [
      | none ↦ some (err fetch_failed)
      | some out ↦ elim out.has_more [
        | false ↦ some (ok (all ++ out.records, merge_state state out.new_state))
        | true ↦
            extract_sequential fetch fuel batch_size (suc n) (all ++ out.records)
              (merge_state state out.new_state)
      ]
    ]

-- extractWithPartitions: each partition is fetched once, from the state of the parameters.
unfoldable pub extract_with_partitions :
    Fetch → Dict String → ℕ → ℕ → List String → Dict String → List String → Extracted
extract_with_partitions fetch start batch_size n all merged [] = ok (all, merged)
extract_with_partitions fetch start batch_size n all merged (p ∷ ps) =
    elim (fetch n (record { state = start; batch_size = batch_size; partition = some p })) [
      | none ↦ err partition_failed
      | some out ↦
          extract_with_partitions fetch start batch_size (suc n) (all ++ out.records)
            (merge_state merged out.new_state) ps
    ]

-- The result, which is also what SaveCheckpointActivity is given as state; that it fails changes nothing.
abbrev pub extracted : ExtractParams → ℕ → Extracted → Result PhaseError ExtractResult
extracted params used (err e) = err e
extracted params used (ok (records, state)) = ok (record {
  records = records;
  records_count = length records;
  new_state = merge_state params.state state;
  partitions_used = used;
})

abbrev pub more_than_one : Option (List String) → Option (List String)
more_than_one none = none
more_than_one (some []) = none
more_than_one (some (p ∷ [])) = none
more_than_one (some (p ∷ q ∷ ps)) = some (p ∷ q ∷ ps)

abbrev pub extracted_some :
    ExtractParams → Option Extracted → Option (Result PhaseError ExtractResult)
extracted_some params none = none
extracted_some params (some result) = some (extracted params 1 result)

-- `partitions` is the answer of DeterminePartitionsActivity.
unfoldable pub extract_workflow :
    Fetch → Option (List String) → ℕ → ExtractParams → Option (Result PhaseError ExtractResult)
extract_workflow fetch partitions fuel params =
    let size = batch_size_or_default params.batch_size in
    elim (more_than_one partitions) [
      | some ps ↦ some (
          extracted params (length ps)
            (extract_with_partitions fetch params.state size 0 [] params.state ps))
      | none ↦ extracted_some params (extract_sequential fetch fuel size 0 [] params.state)
    ]

-- What the three activities of the transform phase make of the records, and the `CoerceType` of a mapping.
pub record Transforms : Type 0 where
  pub map_fields : List String → Option (List String × List String)
  pub coerce_types : List String → Option (List String × List String)
  pub deduplicate : List String → Option (List String × ℕ)
  pub coerce_type : String → String

-- A step that may be skipped: the records after it and the errors so far.
unfoldable pub apply_step :
    Bool
    → (List String → Option (List String × List String))
    → PhaseError
    → List String × List String
    → Result PhaseError (List String × List String)
apply_step false activity failure before = ok before
apply_step true activity failure (records, errors) = elim (activity records) [
  | none ↦ err failure
  | some (changed, more) ↦ ok (changed, errors ++ more)
]

abbrev pub has_mappings : Dict (List String) → Bool
has_mappings [] = false
has_mappings (m ∷ ms) = true

abbrev pub has_coercions : (String → String) → Dict (List String) → Bool
has_coercions coerce_type [] = false
has_coercions coerce_type ((stream, mappings) ∷ rest) =
    any (λ m. not (str_eq (coerce_type m) "")) mappings || has_coercions coerce_type rest

unfoldable pub transform_workflow : Transforms → TransformParams → Result PhaseError TransformResult
transform_workflow acts params =
    apply_step (has_mappings params.field_mappings) acts.map_fields mapping_failed
      (params.records, [])
    >>= λ mapped.
        apply_step (has_coercions acts.coerce_type params.field_mappings) acts.coerce_types
          coercion_failed mapped
        >>= λ (coerced, errors). elim (acts.deduplicate coerced) [
          | none ↦ err deduplication_failed
          | some (kept, dropped) ↦ ok (record {
            records = kept;
            records_count = length kept;
            dropped = dropped;
            errors = errors;
          })
        ]

-- splitIntoBatches: as many rounds as there are records are enough.
unfoldable pub split_within : ℕ → ℕ → List String → List (List String)
split_within fuel size [] = []
split_within zero size (r ∷ rs) = []
split_within (suc fuel) size (r ∷ rs) =
    take size (r ∷ rs) ∷ split_within fuel size (drop size (r ∷ rs))

unfoldable pub split_into_batches : List String → ℕ → List (List String)
split_into_batches records size = split_within (length records) (batch_size_or_default size) records

pub record WriteOutput : Type 0 where
  pub records_written : ℕ
  pub errors : List String

pub record ConfirmOutput : Type 0 where
  pub confirmed : Bool
  pub discrepancy_msg : String
  pub errors : List String

-- The answers to WriteBatchActivity for a batch and its index, and to ConfirmWriteActivity for the
-- counts expected and found and the errors.
pub record Destination : Type 0 where
  pub write : ℕ → List String → Result String WriteOutput
  pub confirm : ℕ → ℕ → List String → Result String ConfirmOutput

-- One round of the loop that collects the answers.
unfoldable pub collected : LoadResult → Result String WriteOutput → LoadResult
collected so_far (err message) = record so_far { errors = so_far.errors ++ message ∷ [] }
collected so_far (ok out) = record {
  records_loaded = so_far.records_loaded + out.records_written;
  batches_written = so_far.batches_written + 1;
  errors = so_far.errors ++ out.errors;
}

unfoldable pub collect : Destination → ℕ → LoadResult → List (List String) → LoadResult
collect dest i so_far [] = so_far
collect dest i so_far (b ∷ bs) = collect dest (suc i) (collected so_far (dest.write i b)) bs

-- The errors that the confirmation adds.
abbrev pub confirmation_errors : Result String ConfirmOutput → List String
confirmation_errors (err message) = message ∷ []
confirmation_errors (ok out) =
    if out.confirmed
    then []
    else if str_eq out.discrepancy_msg ""
    then out.errors
    else out.discrepancy_msg ∷ out.errors

unfoldable pub load_workflow : Destination → LoadParams → LoadResult
load_workflow dest params =
    let batches = split_into_batches params.records (batch_size_or_default params.batch_size) in
    let written =
      collect dest 0 (record { records_loaded = 0; batches_written = 0; errors = [] }) batches in
    record written {
      errors =
          written.errors
          ++ confirmation_errors
              (dest.confirm (length params.records) written.records_loaded written.errors);
    }
