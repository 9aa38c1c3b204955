-- ===== src/Load/Batcher.antt =====
-- internal/worker/load/batcher.go: records are buffered and flushed in batches, when the buffer is
-- full or a timer fires. What a method does between Lock and Unlock is one function here; the batch
-- that it drains is handed to `flush_fn` after the unlock, as a task of its own. So the calls of
-- several goroutines and of the timer interleave: a history is any sequence of such locked parts and of
-- turns of the tasks that are pending. `flush_fn` is a parameter, which may look at the batches that it
-- was given before. `timer` says whether the background timer is armed.
pub mod Cuts
pub mod Waiting
pub mod History
pub mod Turns
pub mod Closing
mod Samples
use durable_integrations.Prelude.{
  ℕ, zero, suc, ◌+◌, String, Bool, true, false, Option, none, some, List, [], ◌∷◌, ◌++◌, leb, ltb,
  if◌then◌else◌, length, get_elem?,
}
use durable_integrations.Prelude.Int.{ℤ, pos, negsuc}

pub record Batcher {ℓ} (R : Type ℓ) : Type ℓ where
  pub max_size : ℕ
  pub buffer : List R
  pub closed : Bool
  pub last_err : Option String
  pub timer : Bool

-- What a call returns: nothing, that the batcher is closed, the error of an earlier timer flush, or
-- the error of the flush that the call made.
pub data Reply : Type 0 where
  ok : Reply
  is_closed : Reply
  timer_flush_failed : String → Reply
  flush_failed : String → Reply

-- After the unlock the call returns, or it hands a batch to `flushFn`.
pub data Section {ℓ} (R : Type ℓ) : Type ℓ where
  returns : Reply → Section R
  hands_over : List R → Section R

-- `if maxSize <= 0 { maxSize = 1000 }`
abbrev pub default_size : ℤ → ℕ
default_size (pos zero) = 1000
default_size (pos (suc n)) = suc n
default_size (negsuc n) = 1000

-- The error that a call of `flushFn` hands on.
abbrev pub reply_of : Option String → Reply
reply_of none = ok
reply_of (some e) = flush_failed e

module _ {ℓ} {R : Type ℓ} where
  unfoldable pub new_batcher : ℤ → Batcher R
  new_batcher size = record {
    max_size = default_size size;
    buffer = [];
    closed = false;
    last_err = none;
    timer = true;
  }

  pub reset_timer_locked : Batcher R → Batcher R
  reset_timer_locked b = record b { timer = true }

  pub drain_locked : Batcher R → List R × Batcher R
  unfolding reset_timer_locked
  drain_locked b = (b.buffer, reset_timer_locked (record b { buffer = [] }))

  -- The batch that was drained, for after the unlock.
  abbrev drained : List R × Batcher R → Section R × Batcher R
  drained (batch, b) = (hands_over batch, b)

  store : R → Batcher R → Section R × Batcher R
  unfolding drain_locked
  store r b =
      let full = record b { buffer = b.buffer ++ r ∷ [] } in
      if leb b.max_size (length full.buffer)
      then drained (drain_locked full)
      else (returns ok, full)

  add_open : Option String → R → Batcher R → Section R × Batcher R
  unfolding store
  add_open none r b = store r b
  add_open (some e) r b = (returns (timer_flush_failed e), record b { last_err = none })

  pub add : R → Batcher R → Section R × Batcher R
  unfolding add_open
  add r b = if b.closed then (returns is_closed, b) else add_open b.last_err r b

  pub flush : Batcher R → Section R × Batcher R
  unfolding drain_locked
  flush b = if ltb 0 (length b.buffer) then drained (drain_locked b) else (returns ok, b)

  pub close : Batcher R → Section R × Batcher R
  unfolding drain_locked
  close b =
      let stopped = record b { closed = true; timer = false } in
      if b.closed
      then (returns ok, b)
      else if ltb 0 (length b.buffer)
      then drained (drain_locked stopped)
      else (returns ok, stopped)

  abbrev drained_by_timer : List R × Batcher R → Option (List R) × Batcher R
  drained_by_timer (batch, b) = (some batch, b)

  pub timer_flush : Batcher R → Option (List R) × Batcher R
  unfolding drain_locked reset_timer_locked
  timer_flush b =
      if b.closed
      then (none, b)
      else if ltb 0 (length b.buffer)
      then drained_by_timer (drain_locked b)
      else (none, reset_timer_locked b)

  -- The second locked part of `timerFlush`: the error waits for the next `Add`.
  pub keep_error : String → Batcher R → Batcher R
  keep_error e b = record b { last_err = some e }

-- What goroutines have still to do outside the lock: a call or the timer, to hand over its batch; the
-- timer, to take the lock again and keep the error of its flush.
pub data Task {ℓ} (R : Type ℓ) : Type ℓ where
  of_caller of_timer : List R → Task R
  keeps_error : String → Task R

-- The batcher, the tasks that are pending, the batches that `flushFn` was given and the replies of
-- the calls that returned, each in order.
pub record System {ℓ} (R : Type ℓ) : Type ℓ where
  pub batcher : Batcher R
  pub pending : List (Task R)
  pub delivered : List (List R)
  pub replies : List Reply

pub data Call {ℓ} (R : Type ℓ) : Type ℓ where
  adds : R → Call R
  flushes : Call R
  closes : Call R
  timer_fires : Call R

-- A call comes to its locked part, or the task at this place takes its turn.
pub data Step {ℓ} (R : Type ℓ) : Type ℓ where
  calls : Call R → Step R
  proceeds : ℕ → Step R

-- The list without the element at this place.
abbrev pub without {ℓ} : {A : Type ℓ} → ℕ → List A → List A
without n [] = []
without zero (x ∷ xs) = xs
without (suc n) (x ∷ xs) = x ∷ without n xs

module _ {ℓ} {R : Type ℓ} where
  unfoldable pub start : ℤ → System R
  start size = record { batcher = new_batcher size; pending = []; delivered = []; replies = [] }

  abbrev pub unlock : Section R × Batcher R → System R → System R
  unlock (returns reply, b) s = record s { batcher = b; replies = s.replies ++ reply ∷ [] }
  unlock (hands_over batch, b) s = record s {
    batcher = b;
    pending = s.pending ++ of_caller batch ∷ [];
  }

  abbrev pub unlock_timer : Option (List R) × Batcher R → System R → System R
  unlock_timer (none, b) s = record s { batcher = b }
  unlock_timer (some batch, b) s = record s {
    batcher = b;
    pending = s.pending ++ of_timer batch ∷ [];
  }

  pub call : Call R → System R → System R
  unfolding add flush close timer_flush
  call (adds r) s = unlock (add r s.batcher) s
  call flushes s = unlock (flush s.batcher) s
  call closes s = unlock (close s.batcher) s
  call timer_fires s = unlock_timer (timer_flush s.batcher) s

module _ {ℓ} {R : Type ℓ} (flush_fn : List (List R) → List R → Option String) where
  -- The turn of a task, which is no longer among the pending ones.
  pub proceed : Task R → System R → System R
  unfolding keep_error
  proceed (of_caller batch) s = record s {
    delivered = s.delivered ++ batch ∷ [];
    replies = s.replies ++ reply_of (flush_fn s.delivered batch) ∷ [];
  }
  proceed (of_timer batch) s =
      let after = record s { delivered = s.delivered ++ batch ∷ [] } in
      elim (flush_fn s.delivered batch) [
        | none ↦ after
        | some e ↦ record after { pending = s.pending ++ keeps_error e ∷ [] }
      ]
  proceed (keeps_error e) s = record s { batcher = keep_error e s.batcher }

  unfoldable pub step : Step R → System R → System R
  unfolding call proceed
  step (calls c) s = call c s
  step (proceeds i) s = elim (get_elem? s.pending i) [
    | none ↦ s
    | some task ↦ proceed task (record s { pending = without i s.pending })
  ]

  unfoldable pub run : List (Step R) → System R → System R
  run [] s = s
  run (c ∷ cs) s = run cs (step c s)
