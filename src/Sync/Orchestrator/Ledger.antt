-- ===== src/Sync/Orchestrator/Ledger.antt =====
-- What a run writes into the history of runs.
use mathlib.Core.List.{append-nil}
use durable_integrations.Prelude.{
  ℕ, ◌≡◌, refl, ap, ◌⊎◌, inl, inr, ◌∙◌, String, none, some, List, [], ◌∷◌, ◌++◌, Bool-cases, true,
  ltb, length,
}
use durable_integrations.Prelude.Result.{Result, ok, err}
use durable_integrations.Sync.Types.{
  SyncPhase, SyncParams, SyncResult, SyncStatus, ExtractResult, TransformResult, LoadResult,
}
use durable_integrations.Sync.Orchestrator.{
  SyncRunRecord, Env, Run, Outcome, blocked, returned, Check, go_on, stop, waiting, sync_run_record,
  partial_counts, complete_result, alert_if_degraded, record_sync_run, alert_on_failure, fail_phase,
  extract_params, transform_params, load_params, complete, after_load, load_phase, after_transform,
  transform_phase, after_extract, extract_phase, sync_orchestrator,
}
use durable_integrations.Sync.Orchestrator.Effects.{run_in, effects-check_signals}
use durable_integrations.Sync.Orchestrator.Recorded.{
  recorded, recorded-append, IsAsked, check_signals-IsAsked,
}

module _ (env : Env) (params : SyncParams) where
  -- The phase whose failure ended the run, and the counts that the run recorded for those before.
  abbrev pub FailedIn : SyncRunRecord → String → Type 0
  FailedIn r e =
      ((env.extract_workflow (extract_params env params) ≡ err e)
        × (r.records_extracted ≡ 0)
        × (r.records_transformed ≡ 0))
      ⊎ ((x : ExtractResult) × (env.extract_workflow (extract_params env params) ≡ ok x)
          × (env.transform_workflow (transform_params env params x) ≡ err e)
          × (r.records_extracted ≡ x.records_count)
          × (r.records_transformed ≡ 0))
      ⊎ ((x : ExtractResult) × (t : TransformResult) × (env.extract_workflow
              (extract_params env params)
            ≡ ok x)
          × (env.transform_workflow (transform_params env params x) ≡ ok t)
          × (env.load_workflow (load_params env params t) ≡ err e)
          × (r.records_extracted ≡ x.records_count)
          × (r.records_transformed ≡ t.records_count))

  -- A run that waits was asked to pause and has recorded nothing. One that returns without an error
  -- had three successful phases, and has recorded itself once as completed, with their counts and the
  -- checkpoint of the extraction, and returns the same. One that returns an error was asked to
  -- cancel and has recorded nothing; or that error is the one of a phase that failed, and it has
  -- recorded itself once as failed, with the counts of the phases before and no checkpoint.
  abbrev pub Ledger : Outcome → Type 0
  Ledger (blocked run) =
      (run.status.phase ≡ SyncPhase.paused)
      × (run.signals.pause_requested ≡ true)
      × (recorded run.effects ≡ [])
  Ledger (returned result none run) =
      (x : ExtractResult) × (t : TransformResult) × (l : LoadResult) × (r : SyncRunRecord)
      × (env.extract_workflow (extract_params env params) ≡ ok x)
      × (env.transform_workflow (transform_params env params x) ≡ ok t)
      × (env.load_workflow (load_params env params t) ≡ ok l)
      × (run.status.phase ≡ SyncPhase.completed)
      × (recorded run.effects ≡ r ∷ [])
      × (r.status ≡ "completed")
      × (r.new_checkpoint ≡ x.new_state)
      × (r.records_extracted ≡ x.records_count)
      × (r.records_transformed ≡ t.records_count)
      × (r.records_loaded ≡ l.records_loaded)
      × (result.new_checkpoint ≡ x.new_state)
      × (result.errors ≡ t.errors ++ l.errors)
  Ledger (returned result (some e) run) =
      ((run.status.phase ≡ SyncPhase.cancelled)
        × (run.signals.cancel_requested ≡ true)
        × (recorded run.effects ≡ []))
      ⊎ ((r : SyncRunRecord) × FailedIn r e
          × (run.status.phase ≡ SyncPhase.failed)
          × (recorded run.effects ≡ r ∷ [])
          × (r.status ≡ "failed")
          × (r.new_checkpoint ≡ [])
          × (r.records_loaded ≡ 0)
          × (r.errors ≡ result.errors)
          × (es : List String) × (result.errors ≡ es ++ e ∷ []))

  abbrev failed_record : ℕ → ℕ → String → Run → SyncRunRecord
  failed_record x t message run =
      sync_run_record env params SyncPhase.failed
        (partial_counts env params x t (run.status.errors ++ message ∷ []))

  fail_phase-Ledger :
      (kind message : String) (x t : ℕ) (run : Run)
      → FailedIn (failed_record x t message run) message
      → recorded run.effects ≡ []
      → Ledger (fail_phase env params kind message x t run)
  unfolding fail_phase record_sync_run alert_on_failure
  fail_phase-Ledger kind message x t run failed h = inr (
    failed_record x t message run,
    failed,
    refl,
    simp (recorded-append, h) (unfold recorded in refl),
    refl,
    refl,
    refl,
    refl,
    run.status.errors,
    refl,
  )

  -- The alert about a degraded run changes neither the phase nor the history.
  alert_if_degraded_keeps :
      (result : SyncResult) (run : Run)
      → ((alert_if_degraded env params result run).status ≡ run.status)
        × (recorded (alert_if_degraded env params result run).effects ≡ recorded run.effects)
  unfolding alert_if_degraded alert_on_failure
  alert_if_degraded_keeps result run = elim (Bool-cases (ltb 0 (length result.errors))) [
    | inl e ↦ rw e (refl, simp recorded-append (unfold recorded in simp append-nil))
    | inr e ↦ rw e (refl, refl)
  ]

  complete-Ledger :
      (x : ExtractResult) (t : TransformResult) (l : LoadResult) (run : Run)
      → env.extract_workflow (extract_params env params) ≡ ok x
      → env.transform_workflow (transform_params env params x) ≡ ok t
      → env.load_workflow (load_params env params t) ≡ ok l
      → recorded run.effects ≡ []
      → Ledger (complete env params x t l run)
  unfolding complete complete_result record_sync_run sync_run_record
  complete-Ledger x t l run ex et el h =
      let keeps = alert_if_degraded_keeps (complete_result env params x t l) _ in
      (
        x,
        t,
        l,
        sync_run_record env params SyncPhase.completed (complete_result env params x t l),
        ex,
        et,
        el,
        ap (λ (s : SyncStatus). s.phase) keeps.0,
        keeps.1 ∙ simp (recorded-append, h) (unfold recorded in refl),
        refl,
        refl,
        refl,
        refl,
        refl,
        refl,
        refl,
      )

  load_phase-Ledger :
      (x : ExtractResult) (t : TransformResult) (c : Check)
      → env.extract_workflow (extract_params env params) ≡ ok x
      → env.transform_workflow (transform_params env params x) ≡ ok t
      → IsAsked c
      → recorded (run_in c).effects ≡ []
      → Ledger (load_phase env params x t c)
  unfolding load_phase sync_run_record partial_counts
  load_phase-Ledger x t (waiting run) ex et s h = (s.0, s.1, h)
  load_phase-Ledger x t (stop e run) ex et s h = inl (s.0, s.1, h)
  load_phase-Ledger x t (go_on run) ex et s h =
      after_load-Ledger (env.load_workflow (load_params env params t)) _ refl
        (rw (recorded-append run.effects _, h) (unfold recorded in refl))
    where
      after_load-Ledger :
          (r : Result String LoadResult) (q : Run)
          → env.load_workflow (load_params env params t) ≡ r
          → recorded q.effects ≡ []
          → Ledger (after_load env params x t r q)
      after_load-Ledger (err e) q el k =
          fail_phase-Ledger "load_failed" e x.records_count t.records_count q
            (inr (inr (x, t, ex, et, el, refl, refl))) k
      after_load-Ledger (ok l) q el k = complete-Ledger x t l q ex et el k

  transform_phase-Ledger :
      (x : ExtractResult) (c : Check)
      → env.extract_workflow (extract_params env params) ≡ ok x
      → IsAsked c
      → recorded (run_in c).effects ≡ []
      → Ledger (transform_phase env params x c)
  unfolding transform_phase sync_run_record partial_counts
  transform_phase-Ledger x (waiting run) ex s h = (s.0, s.1, h)
  transform_phase-Ledger x (stop e run) ex s h = inl (s.0, s.1, h)
  transform_phase-Ledger x (go_on run) ex s h =
      after_transform-Ledger (env.transform_workflow (transform_params env params x)) _ refl
        (rw (recorded-append run.effects _, h) (unfold recorded in refl))
    where
      after_transform-Ledger :
          (r : Result String TransformResult) (q : Run)
          → env.transform_workflow (transform_params env params x) ≡ r
          → recorded q.effects ≡ []
          → Ledger (after_transform env params x r q)
      after_transform-Ledger (err e) q et k =
          fail_phase-Ledger "transform_failed" e x.records_count 0 q
            (inr (inl (x, ex, et, refl, refl))) k
      after_transform-Ledger (ok t) q et k =
          load_phase-Ledger x t _ ex et (check_signals-IsAsked _ _) (rw effects-check_signals k)

  extract_phase-Ledger :
      (c : Check)
      → IsAsked c
      → recorded (run_in c).effects ≡ []
      → Ledger (extract_phase env params c)
  unfolding extract_phase sync_run_record partial_counts
  extract_phase-Ledger (waiting run) s h = (s.0, s.1, h)
  extract_phase-Ledger (stop e run) s h = inl (s.0, s.1, h)
  extract_phase-Ledger (go_on run) s h =
      after_extract-Ledger (env.extract_workflow (extract_params env params)) _ refl
        (rw (recorded-append run.effects _, h) (unfold recorded in refl))
    where
      after_extract-Ledger :
          (r : Result String ExtractResult) (q : Run)
          → env.extract_workflow (extract_params env params) ≡ r
          → recorded q.effects ≡ []
          → Ledger (after_extract env params r q)
      after_extract-Ledger (err e) q ex k =
          fail_phase-Ledger "extract_failed" e 0 0 q (inl (ex, refl, refl)) k
      after_extract-Ledger (ok x) q ex k =
          transform_phase-Ledger x _ ex (check_signals-IsAsked _ _) (rw effects-check_signals k)

  -- A run that returns without an error had three successful phases, and has recorded itself once as
  -- completed, with their counts and the checkpoint of the extraction, which it returns. One that
  -- returns an error was asked to cancel and has recorded nothing, or returns the error of the phase
  -- that failed and has recorded itself once as failed, with the counts of the phases before it, no
  -- checkpoint and its errors, of which that one is the last. One that still waits was asked to pause
  -- and has recorded nothing.
  pub sync_orchestrator-Ledger : Ledger (sync_orchestrator env params)
  unfolding sync_orchestrator
  sync_orchestrator-Ledger =
      extract_phase-Ledger _ (check_signals-IsAsked _ _)
        (rw effects-check_signals (unfold recorded in refl))
