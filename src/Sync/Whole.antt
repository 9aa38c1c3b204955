-- ===== src/Sync/Whole.antt =====
-- The orchestrator (workflows/sync_orchestrator.go) with the child workflows that it starts (workflows/
-- extract.go, transform.go, load.go).
mod Samples
use durable_integrations.Prelude.{
  ℕ, ◌≡◌, refl, sym, ap, ◌∙◌, String, Option, none, some, List, length, arith,
}
use durable_integrations.Prelude.Dict.{Dict}
use durable_integrations.Prelude.Result.{Result, ok, err}
use durable_integrations.Sync.Types.{
  SyncParams, SyncResult, ExtractResult, TransformResult, LoadResult,
}
use durable_integrations.Sync.Orchestrator.{
  default_batch_size, Env, Run, Outcome, returned, sync_orchestrator, extract_params,
  transform_params, load_params, complete_result,
}
use durable_integrations.Sync.Orchestrator.Control.{IsClear, sync_orchestrator_completes}
use durable_integrations.Sync.Phases.{
  PhaseError, Fetch, Transforms, Destination, extract_workflow, transform_workflow, load_workflow,
  batch_size_or_default, split_into_batches, merge_state, more_than_one,
}
use durable_integrations.Sync.Phases.Pages.{Serves, read_result, extract_workflow_iff}
use durable_integrations.Sync.Phases.Transfer.{written_of, load_workflow-IsComplete}

-- What ends a child workflow is passed on as its text.
abbrev pub child {ℓ} : {A : Type ℓ} → Result PhaseError A → Result String A
child (ok a) = ok a
child (err e) = err "child workflow failed"

abbrev pub finished {ℓ} : {A : Type ℓ} → Option (Result PhaseError A) → Result String A
finished none = err "child workflow timed out"
finished (some r) = child r

-- The environment in which the child workflows are those of this repository.
abbrev pub wired : Env → Fetch → Option (List String) → ℕ → Transforms → Destination → Env
wired env fetch partitions fuel acts dest = record env {
  extract_workflow = λ p. finished (extract_workflow fetch partitions fuel p);
  transform_workflow = λ p. child (transform_workflow acts p);
  load_workflow = λ p. ok (load_workflow dest p);
}

-- A run that no cancel reaches, in which each pause is resumed, the source serves its pages up to a last
-- one from the last checkpoint, without partitions, and the transformation succeeds: it returns without
-- an error, whatever the destination answers. It counts as extracted the records of the pages, and as
-- loaded what the writes report, and its checkpoint is the last one merged with what the pages left.
pub sync_orchestrator_carries :
    (env : Env) (params : SyncParams) (fetch : Fetch) (partitions : Option (List String))
    (acts : Transforms) (dest : Destination) (rs : List String) (final : Dict String)
    (t : TransformResult)
    → IsClear env.before_extract
    → IsClear env.before_transform
    → IsClear env.before_load
    → more_than_one partitions ≡ none
    → Serves fetch default_batch_size 0 params.last_checkpoint rs final
    → transform_workflow acts
        (transform_params env params (read_result (extract_params env params) rs final))
      ≡ ok t
    → (fuel : ℕ) × (result : SyncResult) × (run : Run) × (sync_orchestrator
          (wired env fetch partitions fuel acts dest)
          params
        ≡ returned result none run)
      × (result.records_extracted ≡ length rs)
      × (result.records_loaded
          ≡ written_of dest 0 (split_into_batches t.records default_batch_size))
      × (result.new_checkpoint ≡ merge_state params.last_checkpoint final)
unfolding extract_params transform_params load_params complete_result
sync_orchestrator_carries env params fetch partitions acts dest rs final t c1 c2 c3 single serves
      transformed =
    let xp = extract_params env params in
    let x = read_result xp rs final in
    let (fuel, extracts) =
      (extract_workflow_iff fetch partitions xp x single).1 (rs, final, serves, refl) in
    let whole = wired env fetch partitions fuel acts dest in
    let l = load_workflow dest (load_params env params t) in
    let done =
      sync_orchestrator_completes whole params x t l c1 c2 c3 (ap finished extracts)
        (ap child transformed) refl in
    (
      fuel,
      complete_result whole params x t l,
      done.0,
      done.1,
      refl,
      (load_workflow-IsComplete dest (load_params env params t)).2,
      refl,
    )
