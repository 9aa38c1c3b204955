-- ===== src/Sync/Orchestrator/Effects.antt =====
-- What a run asks of the engine: which phases it starts, on which data, and what it records.
use mathlib.Core.List.{append-nil}
use durable_integrations.Prelude.{
  ℕ, ◌≡◌, refl, inl, inr, String, List, [], ◌∷◌, ◌++◌, arith, Bool-cases, ltb, length, ◌∙◌,
}
use durable_integrations.Prelude.Result.{Result, ok, err}
use durable_integrations.Sync.Types.{SyncParams, ExtractResult, TransformResult, LoadResult}
use durable_integrations.Sync.Orchestrator.{
  Effect, Inbox, Env, Run, Outcome, blocked, returned, Check, go_on, stop, waiting, wait_for_resume,
  check_signals, record_sync_run, alert_on_failure, fail_phase, extract_params, transform_params,
  load_params, complete, after_load, load_phase, after_transform, transform_phase, after_extract,
  extract_phase, sync_orchestrator,
}

-- The run at the end, returned or still waiting.
abbrev pub run_of : Outcome → Run
run_of (blocked run) = run
run_of (returned result error run) = run

-- A look at the signals starts nothing and records nothing.
abbrev pub run_in : Check → Run
run_in (go_on run) = run
run_in (stop e run) = run
run_in (waiting run) = run

pub effects-check_signals :
    (inbox : Inbox) (run : Run) → (run_in (check_signals inbox run)).effects ≡ run.effects
unfolding check_signals wait_for_resume
effects-check_signals inbox run = ground arith

-- The phases that were started, in order.
pub phases : List Effect → List Effect
phases [] = []
phases (Effect.extracts p ∷ es) = Effect.extracts p ∷ phases es
phases (Effect.transforms p ∷ es) = Effect.transforms p ∷ phases es
phases (Effect.loads p ∷ es) = Effect.loads p ∷ phases es
phases (Effect.records_run r ∷ es) = phases es
phases (Effect.alerts a ∷ es) = phases es

phases-append : (es fs : List Effect) → phases (es ++ fs) ≡ phases es ++ phases fs
unfolding phases
phases-append [] fs = refl
phases-append (Effect.extracts p ∷ es) fs = rw (phases-append es fs)
phases-append (Effect.transforms p ∷ es) fs = rw (phases-append es fs)
phases-append (Effect.loads p ∷ es) fs = rw (phases-append es fs)
phases-append (Effect.records_run r ∷ es) fs = phases-append es fs
phases-append (Effect.alerts a ∷ es) fs = phases-append es fs

module _ (env : Env) (params : SyncParams) where
  -- The phases start in the order extract, transform, load; each only after the one before
  -- succeeded, and on the records that it returned.
  pub data Pipeline (es : List Effect) : Type 0 where
    idle : es ≡ [] → Pipeline es
    extracting : es ≡ Effect.extracts (extract_params env params) ∷ [] → Pipeline es
    transforming :
        (x : ExtractResult)
        → env.extract_workflow (extract_params env params) ≡ ok x
        → es
          ≡ Effect.extracts (extract_params env params)
            ∷ Effect.transforms (transform_params env params x)
            ∷ []
        → Pipeline es
    loading :
        (x : ExtractResult) (t : TransformResult)
        → env.extract_workflow (extract_params env params) ≡ ok x
        → env.transform_workflow (transform_params env params x) ≡ ok t
        → es
          ≡ Effect.extracts (extract_params env params)
            ∷ Effect.transforms (transform_params env params x)
            ∷ Effect.loads (load_params env params t)
            ∷ []
        → Pipeline es

  phases-fail_phase :
      (kind message : String) (x t : ℕ) (run : Run)
      → phases (run_of (fail_phase env params kind message x t run)).effects ≡ phases run.effects
  unfolding fail_phase record_sync_run alert_on_failure
  phases-fail_phase kind message x t run = simp phases-append (unfold phases in simp append-nil)

  phases-complete :
      (x : ExtractResult) (t : TransformResult) (l : LoadResult) (run : Run)
      → phases (run_of (complete env params x t l run)).effects ≡ phases run.effects
  unfolding complete record_sync_run alert_on_failure
  phases-complete x t l run = elim (Bool-cases (ltb 0 (length (t.errors ++ l.errors)))) [
    | inl e ↦ rw e (simp phases-append (unfold phases in simp append-nil))
    | inr e ↦ rw e (simp phases-append (unfold phases in simp append-nil))
  ]

  phases-after_load :
      (x : ExtractResult) (t : TransformResult) (r : Result String LoadResult) (run : Run)
      → phases (run_of (after_load env params x t r run)).effects ≡ phases run.effects
  unfolding after_load
  phases-after_load x t (err e) run = phases-fail_phase "load_failed" e _ _ run
  phases-after_load x t (ok l) run = phases-complete x t l run

  load_phase-Pipeline :
      (x : ExtractResult) (t : TransformResult) (c : Check)
      → env.extract_workflow (extract_params env params) ≡ ok x
      → env.transform_workflow (transform_params env params x) ≡ ok t
      → phases (run_in c).effects
        ≡ Effect.extracts (extract_params env params)
          ∷ Effect.transforms (transform_params env params x)
          ∷ []
      → Pipeline (phases (run_of (load_phase env params x t c)).effects)
  unfolding load_phase
  load_phase-Pipeline x t (waiting run) ex et h = transforming x ex h
  load_phase-Pipeline x t (stop e run) ex et h = transforming x ex h
  load_phase-Pipeline x t (go_on run) ex et h =
      loading x t ex et
        (rw (phases-after_load x t _ _, phases-append run.effects _, h) (unfold phases in refl))

  after_transform-Pipeline :
      (x : ExtractResult) (r : Result String TransformResult) (run : Run)
      → env.extract_workflow (extract_params env params) ≡ ok x
      → env.transform_workflow (transform_params env params x) ≡ r
      → phases run.effects
        ≡ Effect.extracts (extract_params env params)
          ∷ Effect.transforms (transform_params env params x)
          ∷ []
      → Pipeline (phases (run_of (after_transform env params x r run)).effects)
  unfolding after_transform
  after_transform-Pipeline x (err e) run ex et h =
      transforming x ex (phases-fail_phase "transform_failed" e _ _ run ∙ h)
  after_transform-Pipeline x (ok t) run ex et h =
      load_phase-Pipeline x t _ ex et (rw effects-check_signals h)

  transform_phase-Pipeline :
      (x : ExtractResult) (c : Check)
      → env.extract_workflow (extract_params env params) ≡ ok x
      → phases (run_in c).effects ≡ Effect.extracts (extract_params env params) ∷ []
      → Pipeline (phases (run_of (transform_phase env params x c)).effects)
  unfolding transform_phase
  transform_phase-Pipeline x (waiting run) ex h = extracting h
  transform_phase-Pipeline x (stop e run) ex h = extracting h
  transform_phase-Pipeline x (go_on run) ex h =
      after_transform-Pipeline x _ _ ex refl
        (rw (phases-append run.effects _, h) (unfold phases in refl))

  after_extract-Pipeline :
      (r : Result String ExtractResult) (run : Run)
      → env.extract_workflow (extract_params env params) ≡ r
      → phases run.effects ≡ Effect.extracts (extract_params env params) ∷ []
      → Pipeline (phases (run_of (after_extract env params r run)).effects)
  unfolding after_extract
  after_extract-Pipeline (err e) run ex h =
      extracting (phases-fail_phase "extract_failed" e _ _ run ∙ h)
  after_extract-Pipeline (ok x) run ex h =
      transform_phase-Pipeline x _ ex (rw effects-check_signals h)

  extract_phase-Pipeline :
      (c : Check)
      → phases (run_in c).effects ≡ []
      → Pipeline (phases (run_of (extract_phase env params c)).effects)
  unfolding extract_phase
  extract_phase-Pipeline (waiting run) h = idle h
  extract_phase-Pipeline (stop e run) h = idle h
  extract_phase-Pipeline (go_on run) h =
      after_extract-Pipeline _ _ refl (rw (phases-append run.effects _, h) (unfold phases in refl))

  -- However the child workflows end and whatever signals come, a run starts its phases in the order
  -- extract, transform, load, each only after the one before succeeded and on what it returned, and
  -- no phase twice.
  pub sync_orchestrator-Pipeline : Pipeline (phases (run_of (sync_orchestrator env params)).effects)
  unfolding sync_orchestrator
  sync_orchestrator-Pipeline =
      extract_phase-Pipeline _ (rw effects-check_signals (unfold phases in refl))
