-- ===== src/Load/Batcher/History.antt =====
-- However the calls, the timer and the flushes interleave, no record that the batcher takes is lost
-- or doubled, and batches keep to the limit.
use mathlib.Core.List.{append-nil, append_assoc, Permᴰ}
use mathlib.Core.List.Permᴰ
use durable_integrations.Prelude.{
  zero, suc, ◌<◌, ◌≡◌, refl, ap, ◌∙◌, String, Option, none, some, List, [], ◌∷◌, ◌++◌, arith, sym,
  subst, get_elem?, Option-cases, inl, inr,
}
use durable_integrations.Prelude.Int.{ℤ, pos, negsuc}
use durable_integrations.Load.Batcher.{
  Batcher, Section, returns, hands_over, Task, of_caller, of_timer, keeps_error, Call, adds,
  flushes, closes, timer_fires, Step, calls, proceeds, System, new_batcher, default_size, start,
  unlock, unlock_timer, add, flush, close, timer_flush, without, call, proceed, step, run,
}
use durable_integrations.Load.Batcher.Cuts.{
  Cut, Locks, batch_of, taken, add-Locks, flush-Locks, close-Locks, timer_flush-Locks, keeps-Cut,
  drains-Cut, permutes-Cut,
}
use durable_integrations.Load.Batcher.Waiting.{carried, waiting, waiting-append, waiting-without}

module _ {ℓ} {R : Type ℓ} where
  -- The batches that left the buffer: those that `flushFn` was given, and those that still wait.
  abbrev pub out : System R → List (List R)
  out s = s.delivered ++ waiting s.pending

  abbrev pub IsCut : List R → System R → Type ℓ
  IsCut all s = Cut all (out s) s.batcher

  out-append :
      (s : System R) (task : Task R)
      → s.delivered ++ waiting (s.pending ++ task ∷ []) ≡ out s ++ carried task
  out-append s task =
      ap (◌++◌ s.delivered)
        (waiting-append s.pending (task ∷ []) ∙ ap (◌++◌ (waiting s.pending)) (append-nil _))
      ∙ sym (append_assoc s.delivered (waiting s.pending) (carried task))

  unlock-IsCut :
      (all new : List R) (s : System R) (result : Section R × Batcher R)
      → IsCut all s
      → Locks new s.batcher (batch_of result.0) result.1
      → IsCut (all ++ new) (unlock result s)
  unlock-IsCut all new s (returns reply, b) c h = keeps-Cut new s.batcher b c h
  unlock-IsCut all new s (hands_over batch, b) c h =
      rw (out-append s (of_caller batch)) (drains-Cut new s.batcher batch b c h)

  unlock_timer-IsCut :
      (all : List R) (s : System R) (result : Option (List R) × Batcher R)
      → IsCut all s
      → Locks [] s.batcher result.0 result.1
      → IsCut (all ++ []) (unlock_timer result s)
  unlock_timer-IsCut all s (none, b) c h = keeps-Cut [] s.batcher b c h
  unlock_timer-IsCut all s (some batch, b) c h =
      rw (out-append s (of_timer batch)) (drains-Cut [] s.batcher batch b c h)

  call-IsCut :
      (c : Call R) (all : List R) (s : System R)
      → IsCut all s
      → IsCut (all ++ taken c s.batcher) (call c s)
  unfolding call
  call-IsCut (adds r) all s h = unlock-IsCut all _ s (add r s.batcher) h (add-Locks r s.batcher h.4)
  call-IsCut flushes all s h = unlock-IsCut all [] s (flush s.batcher) h (flush-Locks s.batcher h.4)
  call-IsCut closes all s h = unlock-IsCut all [] s (close s.batcher) h (close-Locks s.batcher h.4)
  call-IsCut timer_fires all s h =
      unlock_timer-IsCut all s (timer_flush s.batcher) h (timer_flush-Locks s.batcher h.4)

module _ {ℓ} {R : Type ℓ} (flush_fn : List (List R) → List R → Option String) where
  -- The turn of a task delivers what it carries.
  out-proceed :
      (task : Task R) (s : System R)
      → out (proceed flush_fn task s) ≡ s.delivered ++ (carried task ++ waiting s.pending)
  unfolding proceed
  out-proceed (of_caller batch) s = append_assoc s.delivered (batch ∷ []) (waiting s.pending)
  out-proceed (of_timer batch) s = elim (Option-cases (flush_fn s.delivered batch)) [
    | inl e ↦ rw (e, proceed) (append_assoc s.delivered (batch ∷ []) (waiting s.pending))
    | inr (e, f) ↦
        rw (f, proceed)
          (ap (◌++◌ (s.delivered ++ batch ∷ []))
              (waiting-append s.pending (keeps_error e ∷ []) ∙ append-nil (waiting s.pending))
            ∙ append_assoc s.delivered (batch ∷ []) (waiting s.pending))
  ]
  out-proceed (keeps_error e) s = refl

  proceed-IsCut :
      (task : Task R) (all : List R) (s : System R)
      → Cut all (s.delivered ++ (carried task ++ waiting s.pending)) s.batcher
      → IsCut all (proceed flush_fn task s)
  unfolding proceed
  proceed-IsCut (of_caller batch) all s h =
      subst (λ o. Cut all o s.batcher) (sym (out-proceed (of_caller batch) s)) h
  proceed-IsCut (of_timer batch) all s h =
      let moved = subst (λ o. Cut all o s.batcher) (sym (out-proceed (of_timer batch) s)) h in
      elim (Option-cases (flush_fn s.delivered batch)) [
        | inl e ↦ rw (e, proceed) (rw (e, proceed) at moved)
        | inr (e, f) ↦ rw (f, proceed) (rw (f, proceed) at moved)
      ]
  proceed-IsCut (keeps_error e) all s h = h

  -- The records that the calls of a history take, each in the state that it meets.
  abbrev pub taken_by : Step R → System R → List R
  taken_by (calls c) s = taken c s.batcher
  taken_by (proceeds i) s = []

  unfoldable pub all_taken : List (Step R) → System R → List R
  all_taken [] s = []
  all_taken (c ∷ cs) s = taken_by c s ++ all_taken cs (step flush_fn c s)

  step-IsCut :
      (c : Step R) (all : List R) (s : System R)
      → IsCut all s
      → IsCut (all ++ taken_by c s) (step flush_fn c s)
  unfolding step
  step-IsCut (calls c) all s h = call-IsCut c all s h
  step-IsCut (proceeds i) all s h =
      rw (append-nil all) (elim (Option-cases (get_elem? s.pending i)) [
        | inl e ↦ rw (e, step) h
        | inr (task, e) ↦
            rw (e, step)
              (proceed-IsCut task all (record s { pending = without i s.pending })
                (permutes-Cut s.batcher
                  (Permᴰ.append_left s.delivered (waiting-without s.pending i task e)) h))
      ])

  run-IsCut_from :
      (cs : List (Step R)) (all : List R) (s : System R)
      → IsCut all s
      → IsCut (all ++ all_taken cs s) (run flush_fn cs s)
  unfolding run all_taken
  run-IsCut_from [] all s h = rw (append-nil all) h
  run-IsCut_from (c ∷ cs) all s h =
      subst (λ a. IsCut a (run flush_fn cs (step flush_fn c s)))
        (append_assoc all (taken_by c s) (all_taken cs (step flush_fn c s)))
        (run-IsCut_from cs (all ++ taken_by c s) (step flush_fn c s) (step-IsCut c all s h))

  default_size_pos : (size : ℤ) → 0 < default_size size
  default_size_pos (pos zero) = omega arith
  default_size_pos (pos (suc n)) = omega arith
  default_size_pos (negsuc n) = omega arith

  -- From a new batcher of any size, however the calls, the timer and the turns of the pending tasks
  -- follow on each other and whatever `flushFn` returns: the batches that `flushFn` was given and those
  -- still to be handed over are, in some order, the records that were taken cut into batches, each
  -- of which holds a record and keeps to the limit, up to the ones that still are in the buffer; the
  -- buffer is below the limit, and empty once the batcher is closed.
  pub run-IsCut :
      (size : ℤ) (cs : List (Step R))
      → IsCut (all_taken cs (start size)) (run flush_fn cs (start size))
  unfolding start new_batcher
  run-IsCut size cs =
      run-IsCut_from cs [] (start size)
        ([], refl, Permᴰ.nil, tt, (default_size_pos size, λ e. refl))
