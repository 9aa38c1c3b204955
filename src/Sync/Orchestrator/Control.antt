-- ===== src/Sync/Orchestrator/Control.antt =====
-- What pause, resume and cancel signals do to a run.
use durable_integrations.Prelude.{
  ◌≡◌, refl, ◌∙◌, inl, inr, Bool, true, false, none, List, [], ◌∷◌, arith, ap, Bool-cases,
}
use durable_integrations.Prelude.Result.{ok}
use durable_integrations.Prelude.Text.{concat}
use durable_integrations.Sync.Signals.{
  Signal, SignalState, apply_resume, pauses, resumes, cancels, modifies, handle_all,
}
use durable_integrations.Sync.Types.{
  SyncPhase, SyncParams, ExtractResult, TransformResult, LoadResult,
}
use durable_integrations.Sync.Orchestrator.{
  Effect, Inbox, Env, Run, Outcome, returned, go_on, stop, start, wait_for_resume, check_signals,
  extract_params, transform_params, load_params, load_phase, transform_phase, extract_phase,
  sync_orchestrator, complete, complete_result, enter, emit, count_processed,
}

abbrev pub has_cancel : List Signal → Bool
has_cancel [] = false
has_cancel (cancels sig ∷ rest) = true
has_cancel (pauses sig ∷ rest) = has_cancel rest
has_cancel (resumes id ∷ rest) = has_cancel rest
has_cancel (modifies sig ∷ rest) = has_cancel rest

-- No handler takes a cancel back.
handle_all-cancelled :
    (sigs : List Signal) (s : SignalState)
    → s.cancel_requested ≡ true
    → (handle_all sigs s).cancel_requested ≡ true
unfolding handle_all
handle_all-cancelled [] s h = h
handle_all-cancelled (pauses sig ∷ rest) s h = handle_all-cancelled rest _ h
handle_all-cancelled (resumes id ∷ rest) s h = handle_all-cancelled rest _ h
handle_all-cancelled (cancels sig ∷ rest) s h = handle_all-cancelled rest _ refl
handle_all-cancelled (modifies sig ∷ rest) s h = handle_all-cancelled rest _ h

handle_all-has_cancel :
    (sigs : List Signal) (s : SignalState)
    → has_cancel sigs ≡ true
    → (handle_all sigs s).cancel_requested ≡ true
unfolding handle_all
handle_all-has_cancel [] s h = cc
handle_all-has_cancel (pauses sig ∷ rest) s h = handle_all-has_cancel rest _ h
handle_all-has_cancel (resumes id ∷ rest) s h = handle_all-has_cancel rest _ h
handle_all-has_cancel (cancels sig ∷ rest) s h = handle_all-cancelled rest _ refl
handle_all-has_cancel (modifies sig ∷ rest) s h = handle_all-has_cancel rest _ h

handle_all-no_cancel :
    (sigs : List Signal) (s : SignalState)
    → has_cancel sigs ≡ false
    → s.cancel_requested ≡ false
    → (handle_all sigs s).cancel_requested ≡ false
unfolding handle_all
handle_all-no_cancel [] s n h = h
handle_all-no_cancel (pauses sig ∷ rest) s n h = handle_all-no_cancel rest _ n h
handle_all-no_cancel (resumes id ∷ rest) s n h = handle_all-no_cancel rest _ n h
handle_all-no_cancel (cancels sig ∷ rest) s n h = cc
handle_all-no_cancel (modifies sig ∷ rest) s n h = handle_all-no_cancel rest _ n h

-- A cancel that has arrived stops the run at the next look, in phase cancelled, whether or not it
-- was also paused, and nothing more is asked of the engine.
pub check_signals-cancelled :
    (inbox : Inbox) (run : Run)
    → has_cancel inbox.arrived ≡ true
    → (q : Run) × (check_signals inbox run
        ≡ stop (concat "sync cancelled: " q.signals.cancel_reason) q)
      × (q.status.phase ≡ SyncPhase.cancelled)
      × (q.effects ≡ run.effects)
unfolding check_signals
check_signals-cancelled inbox run h =
    let e = handle_all-has_cancel inbox.arrived run.signals h in
    (
      enter SyncPhase.cancelled (record run { signals = handle_all inbox.arrived run.signals }),
      ground arith,
      refl,
      refl,
    )

-- Nothing at this look stands in the way: no cancel comes, and a pause is resumed.
pub record IsClear (inbox : Inbox) : Type 0 where
  pub arrived : has_cancel inbox.arrived ≡ false
  pub while_paused : has_cancel inbox.while_paused ≡ false
  pub resumed : inbox.resumed ≡ true

-- Such a look changes the signals only, and leaves no cancel pending.
check_signals-IsClear :
    (inbox : Inbox) (run : Run)
    → IsClear inbox
    → run.signals.cancel_requested ≡ false
    → (s : SignalState) × (check_signals inbox run ≡ go_on (record run { signals = s }))
      × (s.cancel_requested ≡ false)
unfolding check_signals wait_for_resume apply_resume
check_signals-IsClear inbox run k h =
    let s = handle_all inbox.arrived run.signals in
    let quiet = handle_all-no_cancel inbox.arrived run.signals k.arrived h in
    let t = handle_all inbox.while_paused s in
    let still = handle_all-no_cancel inbox.while_paused s k.while_paused quiet in
    elim (Bool-cases s.pause_requested) [
      | inl p ↦ (apply_resume t, ground arith, still)
      | inr p ↦ (s, ground arith, quiet)
    ]

module _ (env : Env) (params : SyncParams) where
  abbrev Completes : ExtractResult → TransformResult → LoadResult → Outcome → Type 0
  Completes x t l o = (run : Run) × (o ≡ returned (complete_result env params x t l) none run)

  module _ (x : ExtractResult) (t : TransformResult) (l : LoadResult)
      (ex : env.extract_workflow (extract_params env params) ≡ ok x)
      (et : env.transform_workflow (transform_params env params x) ≡ ok t)
      (el : env.load_workflow (load_params env params t) ≡ ok l) where
    load_phase-Completes : (run : Run) → Completes x t l (load_phase env params x t (go_on run))
    unfolding load_phase complete
    load_phase-Completes run = rw (el, load_phase) (_, refl)

    transform_phase-Completes :
        (run : Run)
        → IsClear env.before_load
        → run.signals.cancel_requested ≡ false
        → Completes x t l (transform_phase env params x (go_on run))
    unfolding transform_phase
    transform_phase-Completes run c h =
        let q : Run = count_processed env params t.records_count (
          emit (Effect.transforms (transform_params env params x))
            (enter SyncPhase.transforming run)) in
        let look = check_signals-IsClear env.before_load q c h in
        let done = load_phase-Completes (record q { signals = look.0 }) in
        rw (et, transform_phase) (done.0, ap (load_phase env params x t) look.1 ∙ done.1)

    extract_phase-Completes :
        (run : Run)
        → IsClear env.before_transform
        → IsClear env.before_load
        → run.signals.cancel_requested ≡ false
        → Completes x t l (extract_phase env params (go_on run))
    unfolding extract_phase
    extract_phase-Completes run c d h =
        let q : Run =
          count_processed env params x.records_count
            (emit (Effect.extracts (extract_params env params)) (enter SyncPhase.extracting run)) in
        let look = check_signals-IsClear env.before_transform q c h in
        let done = transform_phase-Completes (record q { signals = look.0 }) d look.2 in
        rw (ex, extract_phase) (done.0, ap (transform_phase env params x) look.1 ∙ done.1)

  -- If no cancel comes, each pause is resumed, and the three child workflows succeed, then the run
  -- completes: it returns without an error, with the counts of the phases, the checkpoint of the
  -- extraction and the non-fatal errors of the other two phases.
  pub sync_orchestrator_completes :
      (x : ExtractResult) (t : TransformResult) (l : LoadResult)
      → IsClear env.before_extract
      → IsClear env.before_transform
      → IsClear env.before_load
      → env.extract_workflow (extract_params env params) ≡ ok x
      → env.transform_workflow (transform_params env params x) ≡ ok t
      → env.load_workflow (load_params env params t) ≡ ok l
      → (run : Run) × (sync_orchestrator env params
          ≡ returned (complete_result env params x t l) none run)
  unfolding sync_orchestrator
  sync_orchestrator_completes x t l c1 c2 c3 ex et el =
      let look = check_signals-IsClear env.before_extract (start env) c1 refl in
      let done =
        extract_phase-Completes x t l ex et el (record (start env) { signals = look.0 }) c2 c3
          look.2 in
      (done.0, ap (extract_phase env params) look.1 ∙ done.1)
