-- ===== src/Load/Batcher/Turns.antt =====
-- The turns that pending tasks need.
use durable_integrations.Prelude.{
  ℕ, zero, suc, ◌*◌, ◌≤◌, ◌≡◌, refl, ap, ◌∙◌, String, Option, none, some, List, [], ◌∷◌, ◌++◌,
  length, replicate, arith, sym, subst, get_elem?, Option-cases, inl, inr,
}
use durable_integrations.Load.Batcher.{
  Task, of_caller, of_timer, keeps_error, proceeds, System, without, proceed, step, run,
}

module _ {ℓ} {R : Type ℓ} where
  -- The turns that the tasks need: a timer flush takes one more if it fails.
  abbrev pub turns : List (Task R) → ℕ
  turns [] = 0
  turns (of_caller batch ∷ tasks) = suc (turns tasks)
  turns (of_timer batch ∷ tasks) = suc (suc (turns tasks))
  turns (keeps_error e ∷ tasks) = suc (turns tasks)

  pub turns-length : (tasks : List (Task R)) → turns tasks ≤ 2 * length tasks
  turns-length [] = omega arith
  turns-length (of_caller batch ∷ tasks) = omega (arith, turns-length tasks)
  turns-length (of_timer batch ∷ tasks) = omega (arith, turns-length tasks)
  turns-length (keeps_error e ∷ tasks) = omega (arith, turns-length tasks)

  turns-snoc :
      (tasks : List (Task R)) (e : String) → turns (tasks ++ keeps_error e ∷ []) ≡ suc (turns tasks)
  turns-snoc [] e = refl
  turns-snoc (of_caller batch ∷ tasks) e = omega (arith, turns-snoc tasks e)
  turns-snoc (of_timer batch ∷ tasks) e = omega (arith, turns-snoc tasks e)
  turns-snoc (keeps_error f ∷ tasks) e = omega (arith, turns-snoc tasks e)

  pub turns-caller :
      (tasks : List (Task R)) (batch : List R)
      → turns (tasks ++ of_caller batch ∷ []) ≡ suc (turns tasks)
  turns-caller [] batch = refl
  turns-caller (of_caller other ∷ tasks) batch = omega (arith, turns-caller tasks batch)
  turns-caller (of_timer other ∷ tasks) batch = omega (arith, turns-caller tasks batch)
  turns-caller (keeps_error e ∷ tasks) batch = omega (arith, turns-caller tasks batch)

  no_turns : (tasks : List (Task R)) → turns tasks ≤ 0 → tasks ≡ []
  no_turns [] h = refl
  no_turns (of_caller batch ∷ tasks) h = absurd (omega arith)
  no_turns (of_timer batch ∷ tasks) h = absurd (omega arith)
  no_turns (keeps_error e ∷ tasks) h = absurd (omega arith)

module _ {ℓ} {R : Type ℓ} (flush_fn : List (List R) → List R → Option String) where
  -- The first pending task takes its turn.
  abbrev pub turn : System R → System R
  turn s = step flush_fn (proceeds 0) s

  timer-turns :
      (batch : List R) (tasks : List (Task R)) (s : System R)
      → turns (proceed flush_fn (of_timer batch) (record s { pending = tasks })).pending
        ≤ suc (turns tasks)
  unfolding proceed
  timer-turns batch tasks s = elim (Option-cases (flush_fn s.delivered batch)) [
    | inl e ↦ rw (e, proceed) (omega arith)
    | inr (e, f) ↦ rw (f, proceed) (omega (arith, turns-snoc tasks e))
  ]

  turn-cons :
      (task : Task R) (tasks : List (Task R)) (s : System R)
      → s.pending ≡ task ∷ tasks
      → turn s ≡ proceed flush_fn task (record s { pending = tasks })
  unfolding step
  turn-cons task tasks s e =
      rw (e, step) (ap (λ q. proceed flush_fn task (record s { pending = without 0 q })) e)

  turn-nil : (s : System R) → s.pending ≡ [] → turn s ≡ s
  unfolding step
  turn-nil s e =
      ap
        (λ q. elim (get_elem? q 0) [
          | none ↦ s
          | some task ↦ proceed flush_fn task (record s { pending = without 0 s.pending })
        ])
        e

  proceed-turns :
      (task : Task R) (tasks : List (Task R)) (s : System R)
      → suc (turns (proceed flush_fn task (record s { pending = tasks })).pending)
        ≤ turns (task ∷ tasks)
  unfolding proceed
  proceed-turns (of_caller batch) tasks s = omega arith
  proceed-turns (of_timer batch) tasks s = omega (arith, timer-turns batch tasks s)
  proceed-turns (keeps_error e) tasks s = omega arith

  turn-turns :
      (tasks : List (Task R)) (s : System R) (n : ℕ)
      → s.pending ≡ tasks
      → turns tasks ≤ suc n
      → turns (turn s).pending ≤ n
  turn-turns [] s n e h =
      subst (λ (q : System R). turns q.pending ≤ n) (sym (turn-nil s e))
        (subst (λ q. turns q ≤ n) (sym e) (omega arith))
  turn-turns (task ∷ tasks) s n e h =
      subst (λ (q : System R). turns q.pending ≤ n) (sym (turn-cons task tasks s e))
        (let less = proceed-turns task tasks s in omega arith)

  proceed-closed :
      (task : Task R) (s : System R) → (proceed flush_fn task s).batcher.closed ≡ s.batcher.closed
  unfolding proceed
  proceed-closed (of_caller batch) s = refl
  proceed-closed (of_timer batch) s = elim (Option-cases (flush_fn s.delivered batch)) [
    | inl e ↦ rw (e, proceed) refl
    | inr (e, f) ↦ rw (f, proceed) refl
  ]
  proceed-closed (keeps_error e) s = refl

  turn-closed :
      (tasks : List (Task R)) (s : System R)
      → s.pending ≡ tasks
      → (turn s).batcher.closed ≡ s.batcher.closed
  turn-closed [] s e = ap (λ (q : System R). q.batcher.closed) (turn-nil s e)
  turn-closed (task ∷ tasks) s e =
      ap (λ (q : System R). q.batcher.closed) (turn-cons task tasks s e)
      ∙ proceed-closed task (record s { pending = tasks })

  pub stays_closed :
      (n : ℕ) (s : System R)
      → (run flush_fn (replicate n (proceeds 0)) s).batcher.closed ≡ s.batcher.closed
  unfolding run
  stays_closed zero s = refl
  stays_closed (suc n) s = stays_closed n (turn s) ∙ turn-closed s.pending s refl

  pub all_settle :
      (n : ℕ) (s : System R)
      → turns s.pending ≤ n
      → (run flush_fn (replicate n (proceeds 0)) s).pending ≡ []
  unfolding run
  all_settle zero s h = no_turns s.pending h
  all_settle (suc n) s h = all_settle n (turn s) (turn-turns s.pending s n refl h)
