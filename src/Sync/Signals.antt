-- ===== src/Sync/Signals.antt =====
-- internal/orchestration/signals/signals.go: what pending signals a workflow remembers.
use durable_integrations.Prelude.{String, Bool, true, false, Option, none, some, List, [], ◌∷◌}
use durable_integrations.Prelude.Dict.{Dict}

pub record PauseSignal : Type 0 where
  pub reason : String
  pub request_id : String

pub record CancelSignal : Type 0 where
  pub reason : String
  pub request_id : String
  pub save_state : Bool

-- A raw JSON value is its text.
pub record ModifySignal : Type 0 where
  pub changes : Dict String
  pub request_id : String

pub record SignalState : Type 0 where
  pub pause_requested : Bool
  pub cancel_requested : Bool
  pub pause_reason : String
  pub cancel_reason : String
  pub save_state_on_cancel : Bool
  pub pending_modify : Option ModifySignal

abbrev pub new_signal_state : SignalState
new_signal_state = record {
  pause_requested = false;
  cancel_requested = false;
  pause_reason = "";
  cancel_reason = "";
  save_state_on_cancel = false;
  pending_modify = none;
}

unfoldable pub apply_pause : PauseSignal → SignalState → SignalState
apply_pause sig s = record s { pause_requested = true; pause_reason = sig.reason }

unfoldable pub apply_resume : SignalState → SignalState
apply_resume s = record s { pause_requested = false; pause_reason = "" }

unfoldable pub apply_cancel : CancelSignal → SignalState → SignalState
apply_cancel sig s = record s {
  cancel_requested = true;
  cancel_reason = sig.reason;
  save_state_on_cancel = sig.save_state;
}

unfoldable pub apply_modify : ModifySignal → SignalState → SignalState
apply_modify sig s = record s { pending_modify = some sig }

unfoldable pub consume_modify : SignalState → Option ModifySignal × SignalState
consume_modify s = (s.pending_modify, record s { pending_modify = none })

-- A signal that the handlers of `registerSignalHandlers` receive.
pub data Signal : Type 0 where
  pauses : PauseSignal → Signal
  resumes : String → Signal
  cancels : CancelSignal → Signal
  modifies : ModifySignal → Signal

-- One turn of the goroutine that listens on the signal's channel.
unfoldable pub handle_signal : Signal → SignalState → SignalState
unfolding apply_pause apply_resume apply_cancel apply_modify
handle_signal (pauses sig) s = apply_pause sig s
handle_signal (resumes request_id) s = apply_resume s
handle_signal (cancels sig) s = apply_cancel sig s
handle_signal (modifies sig) s = apply_modify sig s

unfoldable pub handle_all : List Signal → SignalState → SignalState
unfolding handle_signal
handle_all [] s = s
handle_all (sig ∷ rest) s = handle_all rest (handle_signal sig s)
