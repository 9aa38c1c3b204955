-- ===== src/Load/Batcher/Closing.antt =====
-- The end of a batcher: it is closed, and the tasks that are pending take their turns.
use mathlib.Core.List.{append-nil, append_assoc, Permᴰ}
use durable_integrations.Prelude.{
  ℕ, zero, suc, ◌+◌, ◌*◌, ◌≤◌, ◌≡◌, refl, ap, ◌∙◌, String, true, Option, List, [], ◌∷◌, ◌++◌,
  length, replicate, arith, sym, subst, if_elim,
}
use durable_integrations.Prelude.Int.{ℤ}
use durable_integrations.Load.Batcher.{
  Batcher, closes, Step, calls, proceeds, System, start, Section, returns, hands_over, unlock,
  close, call, step, run,
}
use durable_integrations.Load.Batcher.Cuts.{concat}
use durable_integrations.Load.Batcher.Waiting.{waiting}
use durable_integrations.Load.Batcher.History.{taken_by, all_taken, run-IsCut}
use durable_integrations.Load.Batcher.Turns.{
  turns, turns-length, turns-caller, turn, all_settle, stays_closed,
}

module _ {ℓ} {R : Type ℓ} where
  -- The close of a batcher, and turns for what is pending.
  abbrev pub closing : ℕ → List (Step R)
  closing n = calls closes ∷ replicate n (proceeds 0)

no_elements {ℓ} : {A : Type ℓ} (xs : List A) → length xs ≡ 0 → xs ≡ []
no_elements [] h = refl
no_elements (x ∷ xs) h = absurd (omega arith)

module _ {ℓ} {R : Type ℓ} (flush_fn : List (List R) → List R → Option String) where
  all_taken-turns : (n : ℕ) (s : System R) → all_taken flush_fn (replicate n (proceeds 0)) s ≡ []
  unfolding all_taken
  all_taken-turns zero s = refl
  all_taken-turns (suc n) s = all_taken-turns n (turn flush_fn s)

  all_taken-append :
      (cs ds : List (Step R)) (s : System R)
      → all_taken flush_fn (cs ++ ds) s
        ≡ all_taken flush_fn cs s ++ all_taken flush_fn ds (run flush_fn cs s)
  unfolding all_taken run
  all_taken-append [] ds s = refl
  all_taken-append (c ∷ cs) ds s =
      let first = taken_by flush_fn c s in
      let next = step flush_fn c s in
      ap (λ xs. first ++ xs) (all_taken-append cs ds next)
      ∙ sym (
          append_assoc first (all_taken flush_fn cs next)
            (all_taken flush_fn ds (run flush_fn cs next)))

  run-append :
      (cs ds : List (Step R)) (s : System R)
      → run flush_fn (cs ++ ds) s ≡ run flush_fn ds (run flush_fn cs s)
  unfolding run
  run-append [] ds s = refl
  run-append (c ∷ cs) ds s = run-append cs ds (step flush_fn c s)

  close-closed : (b : Batcher R) → (close b).1.closed ≡ true
  unfolding close
  close-closed b =
      if_elim (λ (p : Section R × Batcher R). p.1.closed ≡ true) b.closed _ _ (λ c. c)
        (λ c. ground arith)

  call-closed : (s : System R) → (call closes s).batcher.closed ≡ true
  unfolding call
  call-closed s = unlock-closed (close s.batcher) s ∙ close-closed s.batcher
    where
      unlock-closed :
          (p : Section R × Batcher R) (s : System R) → (unlock p s).batcher.closed ≡ p.1.closed
      unlock-closed (returns reply, b) s = refl
      unlock-closed (hands_over batch, b) s = refl

  call-turns : (s : System R) → turns (call closes s).pending ≤ suc (turns s.pending)
  unfolding call
  call-turns s = unlock-turns (close s.batcher)
    where
      unlock-turns :
          (p : Section R × Batcher R) → turns (unlock p s).pending ≤ suc (turns s.pending)
      unlock-turns (returns reply, b) = omega arith
      unlock-turns (hands_over batch, b) = omega (arith, turns-caller s.pending batch)

  closing_settles :
      (n : ℕ) (s : System R)
      → suc (turns s.pending) ≤ n
      → ((run flush_fn (closing n) s).pending ≡ [])
        × ((run flush_fn (closing n) s).batcher.closed ≡ true)
  unfolding run step
  closing_settles n s h = (
    all_settle flush_fn n (call closes s) (let few = call-turns s in omega arith),
    stays_closed flush_fn n (call closes s) ∙ call-closed s,
  )

  -- After any history of a new batcher, once it is closed and the pending tasks have had two turns
  -- for each and one more, no task is pending and the buffer is empty, and the batches that `flushFn` was given
  -- are, in some order, the records that were taken cut into batches.
  pub close_hands_over_all :
      (size : ℤ) (cs : List (Step R)) (n : ℕ)
      → 2 * length (run flush_fn cs (start size)).pending + 1 ≤ n
      → (batches : List (List R)) × (concat batches ≡ all_taken flush_fn cs (start size))
        × Permᴰ batches (run flush_fn (cs ++ closing n) (start size)).delivered
        × ((run flush_fn (cs ++ closing n) (start size)).pending ≡ [])
        × ((run flush_fn (cs ++ closing n) (start size)).batcher.buffer ≡ [])
  unfolding all_taken step
  close_hands_over_all size cs n h =
      let s = run flush_fn cs (start size) in
      let last = run flush_fn (cs ++ closing n) (start size) in
      let joined = run-append cs (closing n) (start size) in
      let (settled, closed) =
        closing_settles n s (let few = turns-length s.pending in omega arith) in
      let (batches, e, p, _, roomy) = run-IsCut flush_fn size (cs ++ closing n) in
      let none_pending : last.pending ≡ [] = ap (λ (q : System R). q.pending) joined ∙ settled in
      let is_closed : last.batcher.closed ≡ true =
        ap (λ (q : System R). q.batcher.closed) joined ∙ closed in
      let empty = no_elements last.batcher.buffer (roomy.1 is_closed) in
      let all : all_taken flush_fn (cs ++ closing n) (start size)
          ≡ all_taken flush_fn cs (start size) =
        all_taken-append cs (closing n) (start size)
        ∙ ap (◌++◌ (all_taken flush_fn cs (start size))) (all_taken-turns n (call closes s))
        ∙ append-nil _ in
      (
        batches,
        sym (append-nil _) ∙ ap (◌++◌ (concat batches)) (sym empty) ∙ e ∙ all,
        subst (Permᴰ batches)
            (ap (λ ts. last.delivered ++ waiting ts) none_pending ∙ append-nil last.delivered) p,
        none_pending,
        empty,
      )
