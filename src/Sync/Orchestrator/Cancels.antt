-- ===== src/Sync/Orchestrator/Cancels.antt =====
-- What a cancel signal keeps a run from doing.
use durable_integrations.Prelude.{
  ℕ, ◌≡◌, refl, ap, ◌∙◌, String, Bool, true, false, none, some, List, [], ◌∷◌, ◌++◌, arith, any,
  any-append,
}
use durable_integrations.Prelude.Result.{Result, ok, err}
use durable_integrations.Sync.Types.{
  SyncPhase, SyncParams, SyncResult, ExtractResult, TransformResult,
}
use durable_integrations.Sync.Orchestrator.{
  Effect, Inbox, Env, Run, Outcome, blocked, returned, Check, go_on, stop, waiting, start,
  check_signals, record_sync_run, alert_on_failure, fail_phase, load_phase, after_transform,
  transform_phase, after_extract, extract_phase, sync_orchestrator, transform_params,
  extract_params,
}
use durable_integrations.Sync.Orchestrator.Effects.{run_of, run_in, effects-check_signals}
use durable_integrations.Sync.Orchestrator.Control.{has_cancel, check_signals-cancelled}

abbrev pub is_load : Effect → Bool
is_load (Effect.loads p) = true
is_load (Effect.extracts p) = false
is_load (Effect.transforms p) = false
is_load (Effect.records_run r) = false
is_load (Effect.alerts a) = false

abbrev pub is_transform_or_load : Effect → Bool
is_transform_or_load (Effect.transforms p) = true
is_transform_or_load (Effect.loads p) = true
is_transform_or_load (Effect.extracts p) = false
is_transform_or_load (Effect.records_run r) = false
is_transform_or_load (Effect.alerts a) = false

abbrev pub succeeds : Outcome → Bool
succeeds (blocked run) = false
succeeds (returned result none run) = true
succeeds (returned result (some e) run) = false

-- The run does not succeed and asks for none of these.
abbrev pub Avoids : (Effect → Bool) → Outcome → Type 0
Avoids p o = (succeeds o ≡ false) × (any p (run_of o).effects ≡ false)

-- A test that finds no bookkeeping.
abbrev IsOfPhases : (Effect → Bool) → Type 0
IsOfPhases p =
    ((r : _) → p (Effect.records_run r) ≡ false) × ((a : _) → p (Effect.alerts a) ≡ false)

any-snoc :
    (p : Effect → Bool) (es : List Effect) (e : Effect)
    → any p es ≡ false
    → p e ≡ false
    → any p (es ++ e ∷ []) ≡ false
any-snoc p es e h k = any-append p es (e ∷ []) ∙ (rw h (ground (arith, k)))

any-check_signals :
    (p : Effect → Bool) (inbox : Inbox) (run : Run)
    → any p run.effects ≡ false
    → any p (run_in (check_signals inbox run)).effects ≡ false
any-check_signals p inbox run h = ap (any p) (effects-check_signals inbox run) ∙ h

module _ (env : Env) (params : SyncParams) where
  fail_phase-Avoids :
      (p : Effect → Bool)
      → IsOfPhases p
      → (kind message : String) (x t : ℕ) (run : Run) → any p run.effects ≡ false
      → Avoids p (fail_phase env params kind message x t run)
  unfolding fail_phase record_sync_run alert_on_failure
  fail_phase-Avoids p k kind message x t run h =
      (refl, any-snoc p _ _ (any-snoc p run.effects _ h (k.0 _)) (k.1 _))

  load_phase-Avoids :
      (x : ExtractResult) (t : TransformResult) (run : Run)
      → has_cancel env.before_load.arrived ≡ true
      → any is_load run.effects ≡ false
      → Avoids is_load (load_phase env params x t (check_signals env.before_load run))
  unfolding load_phase
  load_phase-Avoids x t run c h =
      let (q, stops, _, same) = check_signals-cancelled env.before_load run c in
      rw (stops, load_phase) (refl, ap (any is_load) same ∙ h)

  transform_phase-Avoids :
      (x : ExtractResult) (c : Check)
      → has_cancel env.before_load.arrived ≡ true
      → any is_load (run_in c).effects ≡ false
      → Avoids is_load (transform_phase env params x c)
  unfolding transform_phase
  transform_phase-Avoids x (waiting run) c h = (refl, h)
  transform_phase-Avoids x (stop e run) c h = (refl, h)
  transform_phase-Avoids x (go_on run) c h =
      go (env.transform_workflow (transform_params env params x)) _
        (any-snoc is_load run.effects _ h refl)
    where
      go :
          (r : Result String TransformResult) (q : Run)
          → any is_load q.effects ≡ false
          → Avoids is_load (after_transform env params x r q)
      go (err e) q k =
          fail_phase-Avoids is_load (λ r. refl, λ a. refl) "transform_failed" e x.records_count 0 q
            k
      go (ok t) q k = load_phase-Avoids x t _ c k

  extract_phase-Avoids_load :
      (c : Check)
      → has_cancel env.before_load.arrived ≡ true
      → any is_load (run_in c).effects ≡ false
      → Avoids is_load (extract_phase env params c)
  unfolding extract_phase
  extract_phase-Avoids_load (waiting run) c h = (refl, h)
  extract_phase-Avoids_load (stop e run) c h = (refl, h)
  extract_phase-Avoids_load (go_on run) c h =
      go (env.extract_workflow (extract_params env params)) _
        (any-snoc is_load run.effects _ h refl)
    where
      go :
          (r : Result String ExtractResult) (q : Run)
          → any is_load q.effects ≡ false
          → Avoids is_load (after_extract env params r q)
      go (err e) q k = fail_phase-Avoids is_load (λ r. refl, λ a. refl) "extract_failed" e 0 0 q k
      go (ok x) q k =
          transform_phase-Avoids x _ c (any-check_signals is_load env.before_transform _ k)

  transform_phase-Avoids_both :
      (x : ExtractResult) (run : Run)
      → has_cancel env.before_transform.arrived ≡ true
      → any is_transform_or_load run.effects ≡ false
      → Avoids is_transform_or_load
          (transform_phase env params x (check_signals env.before_transform run))
  unfolding transform_phase
  transform_phase-Avoids_both x run c h =
      let (q, stops, _, same) = check_signals-cancelled env.before_transform run c in
      rw (stops, transform_phase) (refl, ap (any is_transform_or_load) same ∙ h)

  extract_phase-Avoids_both :
      (c : Check)
      → has_cancel env.before_transform.arrived ≡ true
      → any is_transform_or_load (run_in c).effects ≡ false
      → Avoids is_transform_or_load (extract_phase env params c)
  unfolding extract_phase
  extract_phase-Avoids_both (waiting run) c h = (refl, h)
  extract_phase-Avoids_both (stop e run) c h = (refl, h)
  extract_phase-Avoids_both (go_on run) c h =
      go (env.extract_workflow (extract_params env params)) _
        (any-snoc is_transform_or_load run.effects _ h refl)
    where
      go :
          (r : Result String ExtractResult) (q : Run)
          → any is_transform_or_load q.effects ≡ false
          → Avoids is_transform_or_load (after_extract env params r q)
      go (err e) q k =
          fail_phase-Avoids is_transform_or_load (λ r. refl, λ a. refl) "extract_failed" e 0 0 q k
      go (ok x) q k = transform_phase-Avoids_both x _ c k

  -- A cancel that has arrived by the look before the extraction ends the run in phase cancelled, with
  -- an error, and nothing was asked of the engine. Whatever came before, one that has arrived by the
  -- look before the transform keeps the run from success and from asking for a transform or a load,
  -- and one that has arrived by the look before the load, from success and from asking for a load.
  pub sync_orchestrator-cancelled :
      (has_cancel env.before_extract.arrived ≡ true
        → ((result : SyncResult) × (e : String) × (q : Run) × (sync_orchestrator env params
              ≡ returned result (some e) q)
            × (q.status.phase ≡ SyncPhase.cancelled)
            × (q.effects ≡ [])))
      × (has_cancel env.before_transform.arrived ≡ true
          → Avoids is_transform_or_load (sync_orchestrator env params))
      × (has_cancel env.before_load.arrived ≡ true → Avoids is_load (sync_orchestrator env params))
  unfolding sync_orchestrator extract_phase
  sync_orchestrator-cancelled = (
    λ c.
        let (q, stops, cancelled, same) =
          check_signals-cancelled env.before_extract (start env) c in
        (_, _, q, ap (extract_phase env params) stops, cancelled, same),
    λ c.
        extract_phase-Avoids_both _ c
          (any-check_signals is_transform_or_load env.before_extract (start env) refl),
    λ c.
        extract_phase-Avoids_load _ c
          (any-check_signals is_load env.before_extract (start env) refl),
  )
