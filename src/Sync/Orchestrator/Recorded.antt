-- ===== src/Sync/Orchestrator/Recorded.antt =====
-- The history of runs among the effects of a run, and what a look at the signals leaves.
use durable_integrations.Prelude.{◌≡◌, refl, List, [], ◌∷◌, ◌++◌, arith, true}
use durable_integrations.Sync.Types.{SyncPhase}
use durable_integrations.Sync.Orchestrator.{
  SyncRunRecord, Effect, Inbox, Run, Check, go_on, stop, waiting, wait_for_resume, check_signals,
}

-- The runs that were recorded, in order.
unfoldable pub recorded : List Effect → List SyncRunRecord
recorded [] = []
recorded (Effect.records_run r ∷ es) = r ∷ recorded es
recorded (Effect.extracts p ∷ es) = recorded es
recorded (Effect.transforms p ∷ es) = recorded es
recorded (Effect.loads p ∷ es) = recorded es
recorded (Effect.alerts a ∷ es) = recorded es

pub recorded-append : (es fs : List Effect) → recorded (es ++ fs) ≡ recorded es ++ recorded fs
unfolding recorded
recorded-append [] fs = refl
recorded-append (Effect.records_run r ∷ es) fs = rw (recorded-append es fs)
recorded-append (Effect.extracts p ∷ es) fs = recorded-append es fs
recorded-append (Effect.transforms p ∷ es) fs = recorded-append es fs
recorded-append (Effect.loads p ∷ es) fs = recorded-append es fs
recorded-append (Effect.alerts a ∷ es) fs = recorded-append es fs

-- A run that the signals stop was asked to cancel, and one that waits was asked to pause.
abbrev pub IsAsked : Check → Type 0
IsAsked (go_on run) = Unit
IsAsked (stop e run) =
    (run.status.phase ≡ SyncPhase.cancelled) × (run.signals.cancel_requested ≡ true)
IsAsked (waiting run) = (run.status.phase ≡ SyncPhase.paused) × (run.signals.pause_requested ≡ true)

pub check_signals-IsAsked : (inbox : Inbox) (run : Run) → IsAsked (check_signals inbox run)
unfolding check_signals wait_for_resume
check_signals-IsAsked inbox run = ground arith
