-- ===== src/Load/Worker/Samples.antt =====
-- A destination that fails twice and then writes all but one record, and the theorems at it.
use durable_integrations.Prelude.{ℕ, zero, suc, ◌<◌, ◌≡◌, refl, true, none, List, [], ◌∷◌, arith}
use durable_integrations.Prelude.Result.{Result, ok, err}
use durable_integrations.Load.Worker.{
  Sink, LoadWorker, WriteFailure, WriteResult, write_batch_with_retry, process_batch, no_result,
}
use durable_integrations.Load.Worker.Retry.{FailsWith, write_batch_with_retry_iff}
use durable_integrations.Load.Worker.Accounts.{
  Written, joined, AreWrites, Balanced, process_batch-Balanced,
}

abbrev busy : WriteFailure
busy = record { message = "busy"; retryable = true }

abbrev partly : WriteResult
partly = record {
  records_written = 1;
  errors = record { message = "too long"; record_text = "b"; error_code = "E1" } ∷ [];
  state_messages = [];
}

abbrev third_time : ℕ → Result WriteFailure WriteResult
third_time zero = err busy
third_time (suc zero) = err busy
third_time (suc (suc n)) = ok partly

abbrev flaky : Sink
flaky = record {
  write = λ start attempt batch. third_time attempt;
  done_before = λ start attempt. none;
  done_in_wait = λ start attempt. none;
}

abbrev dead : Sink
dead = record {
  write = λ start attempt batch. err busy;
  done_before = λ start attempt. none;
  done_in_wait = λ start attempt. none;
}

abbrev worker : LoadWorker
worker = record { batch_size = 2; max_retries = 3; dead_letter = [] }

flaky_fails : (j : ℕ) → j < 2 → (f : WriteFailure) × FailsWith flaky 0 ("a" ∷ "b" ∷ []) j f
flaky_fails zero h = (busy, (refl, refl, refl, refl))
flaky_fails (suc zero) h = (busy, (refl, refl, refl, refl))
flaky_fails (suc (suc n)) h = absurd (omega arith)

write_batch_with_retry_iff_example :
    write_batch_with_retry flaky worker 0 ("a" ∷ "b" ∷ []) ≡ ok partly
write_batch_with_retry_iff_example =
    (write_batch_with_retry_iff flaky worker 0 ("a" ∷ "b" ∷ []) partly).1
      (2, omega arith, omega arith, (refl, refl), λ j p q. flaky_fails j q)

process_batch-Balanced_example :
    (ws : List Written) × (total : WriteResult) × (joined ws ≡ "a" ∷ "b" ∷ "c" ∷ [])
    × AreWrites flaky worker 0 ws
    × ((process_batch flaky none ("a" ∷ "b" ∷ "c" ∷ []) worker).0 ≡ ok total)
    × Balanced ws no_result worker
        (total, (process_batch flaky none ("a" ∷ "b" ∷ "c" ∷ []) worker).1)
process_batch-Balanced_example =
    process_batch-Balanced flaky worker ("a" ∷ "b" ∷ "c" ∷ []) (omega arith)
