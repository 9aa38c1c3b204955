-- ===== src/Load/Batcher/Samples.antt =====
-- Two histories of a batcher, and the theorems at them.
use mathlib.Core.List.{Permᴰ}
use durable_integrations.Prelude.{
  ℕ, ◌≡◌, refl, String, Option, none, some, List, [], ◌∷◌, ◌++◌, arith,
}
use durable_integrations.Prelude.Int.{pos}
use durable_integrations.Load.Batcher.{
  ok, timer_flush_failed, Step, calls, proceeds, adds, closes, timer_fires, new_batcher, start,
  step, run,
}
use durable_integrations.Load.Batcher.Cuts.{concat}
use durable_integrations.Load.Batcher.History.{IsCut, all_taken, run-IsCut}
use durable_integrations.Load.Batcher.Closing.{closing, close_hands_over_all}

-- The destination refuses the first batch.
abbrev first_fails : List (List ℕ) → List ℕ → Option String
first_fails [] batch = some "timeout"
first_fails (_ ∷ _) batch = none

-- The timer hands its batch over and keeps the error before the next call.
abbrev timer_first : List (Step ℕ)
timer_first =
    calls (adds 1)
    ∷ calls timer_fires
    ∷ proceeds 0
    ∷ proceeds 0
    ∷ calls (adds 2)
    ∷ calls (adds 3)
    ∷ calls (adds 4)
    ∷ proceeds 0
    ∷ []

-- Record 2 meets the error of the timer flush and is not taken.
after_timer_first :
    (run first_fails timer_first (start (pos 2))).delivered ≡ (1 ∷ []) ∷ (3 ∷ 4 ∷ []) ∷ []
unfolding run step start new_batcher
after_timer_first = refl

replies_timer_first :
    (run first_fails timer_first (start (pos 2))).replies
    ≡ ok ∷ timer_flush_failed "timeout" ∷ ok ∷ ok ∷ []
unfolding run step start new_batcher
replies_timer_first = refl

-- The batch of the timer is overtaken by that of a later call, and Close returns before it is
-- handed over.
abbrev overtaken : List (Step ℕ)
overtaken =
    calls (adds 1)
    ∷ calls timer_fires
    ∷ calls (adds 2)
    ∷ calls (adds 3)
    ∷ proceeds 1
    ∷ calls closes
    ∷ proceeds 0
    ∷ []

after_overtaken :
    (run first_fails overtaken (start (pos 2))).delivered ≡ (2 ∷ 3 ∷ []) ∷ (1 ∷ []) ∷ []
unfolding run step start new_batcher
after_overtaken = refl

run-IsCut_example :
    IsCut
      (all_taken first_fails overtaken (start (pos 2)))
      (run first_fails overtaken (start (pos 2)))
run-IsCut_example = run-IsCut first_fails (pos 2) overtaken

close_hands_over_all_example :
    (batches : List (List ℕ)) × (concat batches ≡ all_taken first_fails timer_first (start (pos 2)))
    × Permᴰ batches (run first_fails (timer_first ++ closing 1) (start (pos 2))).delivered
    × ((run first_fails (timer_first ++ closing 1) (start (pos 2))).pending ≡ [])
    × ((run first_fails (timer_first ++ closing 1) (start (pos 2))).batcher.buffer ≡ [])
unfolding run step start new_batcher
close_hands_over_all_example = close_hands_over_all first_fails (pos 2) timer_first 1 (omega arith)
