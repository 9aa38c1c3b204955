-- ===== src/Load/Worker.antt =====
-- internal/worker/load/worker.go: batches are written to a destination with retries, and what
-- cannot be written goes to the dead letter queue. The destination connector and the context are
-- the parameter `Sink`; time stamps and heartbeats are left out.
pub mod Retry
pub mod Accounts
mod Samples
use durable_integrations.Prelude.{
  ℕ, zero, suc, ◌+◌, String, Bool, true, false, Option, none, some, List, [], ◌∷◌, ◌++◌, ltb,
  if◌then◌else◌, length, map, take, drop,
}
use durable_integrations.Prelude.Int.{ℤ, pos, negsuc}
use durable_integrations.Prelude.Result.{Result, ok, err}
use durable_integrations.Prelude.Text.{concat}
use text.Mathlib.Text.{◌==◌ as str_eq}

-- protocol.WriteError
pub record WriteError : Type 0 where
  pub message : String
  pub record_text : String
  pub error_code : String

-- protocol.WriteResult
pub record WriteResult : Type 0 where
  pub records_written : ℕ
  pub errors : List WriteError
  pub state_messages : List String

-- A failed attempt: its text, and what `common.IsRetryable` says of it.
pub record WriteFailure : Type 0 where
  pub message : String
  pub retryable : Bool

pub record DeadLetterRecord : Type 0 where
  pub letter : String
  pub error : String
  pub attempts : ℕ

-- What the destination and the context do, for the batch that starts at a position and for an
-- attempt: the result of `dest.Write`, and the error of a context that is done before the attempt,
-- or in the wait after it.
pub record Sink : Type 0 where
  pub write : ℕ → ℕ → List String → Result WriteFailure WriteResult
  pub done_before : ℕ → ℕ → Option String
  pub done_in_wait : ℕ → ℕ → Option String

pub record LoadWorker : Type 0 where
  pub batch_size : ℕ
  pub max_retries : ℕ
  pub dead_letter : List DeadLetterRecord

abbrev size_or_default : ℤ → ℕ
size_or_default (pos zero) = 1000
size_or_default (pos (suc n)) = suc n
size_or_default (negsuc n) = 1000

abbrev retries_or_default : ℤ → ℕ
retries_or_default (pos n) = n
retries_or_default (negsuc n) = 3

unfoldable pub new_load_worker : ℤ → ℤ → LoadWorker
new_load_worker batch_size max_retries = record {
  batch_size = size_or_default batch_size;
  max_retries = retries_or_default max_retries;
  dead_letter = [];
}

module _ (sink : Sink) where
  -- After a failed attempt: give up, or wait and go on with `rest`.
  abbrev after_failure :
      WriteFailure → Option String → Result String WriteResult → Result String WriteResult
  after_failure failure (some e) rest = if failure.retryable then err e else err failure.message
  after_failure failure none rest = if failure.retryable then rest else err failure.message

  -- The loop of `writeBatchWithRetry`, for `rounds` more values of `attempt`.
  pub attempts_from : ℕ → ℕ → ℕ → List String → String → Result String WriteResult
  attempts_from zero start attempt batch last = err (concat "max retries exceeded: " last)
  attempts_from (suc rounds) start attempt batch last = elim (sink.done_before start attempt) [
    | some e ↦ err e
    | none ↦ elim (sink.write start attempt batch) [
      | ok result ↦ ok result
      | err failure ↦
          after_failure failure (sink.done_in_wait start attempt)
            (attempts_from rounds start (attempt + 1) batch failure.message)
    ]
  ]

  pub write_batch_with_retry : LoadWorker → ℕ → List String → Result String WriteResult
  write_batch_with_retry lw start batch = attempts_from (suc lw.max_retries) start 0 batch ""

-- `addToDeadLetter`
unfoldable pub add_to_dead_letter : List String → String → LoadWorker → LoadWorker
add_to_dead_letter batch message lw = record lw {
  dead_letter =
      lw.dead_letter
      ++ map (λ r. record { letter = r; error = message; attempts = lw.max_retries + 1 }) batch;
}

abbrev pub no_result : WriteResult
no_result = record { records_written = 0; errors = []; state_messages = [] }

-- The errors of single records that a successful write reports.
unfoldable pub add_write_errors :
    List WriteError → WriteResult → LoadWorker → WriteResult × LoadWorker
add_write_errors [] total lw = (total, lw)
add_write_errors (we ∷ rest) total lw =
    let total' = record total { errors = total.errors ++ we ∷ [] } in
    let queued = record lw {
      dead_letter =
          lw.dead_letter
          ++ record { letter = we.record_text; error = we.message; attempts = lw.max_retries + 1 }
            ∷ [];
    } in
    add_write_errors rest total' (if str_eq we.record_text "" then lw else queued)

-- One round of the loop of `ProcessBatch`, with the result of the batch.
unfoldable pub account :
    List String → Result String WriteResult → WriteResult → LoadWorker → WriteResult × LoadWorker
unfolding add_to_dead_letter add_write_errors
account batch (err message) total lw = (
  record total {
    errors =
        total.errors
        ++ record { message = message; record_text = ""; error_code = "BATCH_FAILED" } ∷ [];
  },
  add_to_dead_letter batch message lw,
)
account batch (ok result) total lw =
    add_write_errors result.errors
      (record total {
        records_written = total.records_written + result.records_written;
        state_messages = total.state_messages ++ result.state_messages;
      })
      lw

module _ (sink : Sink) where
  -- `for start := 0; start < len(records); start += lw.batchSize`. The fuel bounds the rounds.
  pub batches_from : ℕ → ℕ → List String → WriteResult → LoadWorker → WriteResult × LoadWorker
  batches_from zero start records total lw = (total, lw)
  batches_from (suc fuel) start [] total lw = (total, lw)
  batches_from (suc fuel) start (r ∷ rest) total lw =
      let records = r ∷ rest in
      let batch = take lw.batch_size records in
      let (total', lw') = account batch (write_batch_with_retry sink lw start batch) total lw in
      batches_from fuel (start + lw.batch_size) (drop lw.batch_size records) total' lw'

  -- `found` is the error of a destination that is not registered.
  pub process_batch :
      Option String → List String → LoadWorker → Result String WriteResult × LoadWorker
  process_batch (some e) records lw = (err e, lw)
  process_batch none records lw =
      let (total, lw') = batches_from (length records) 0 records no_result lw in (ok total, lw')

-- `DrainDeadLetter`
unfoldable pub drain_dead_letter : LoadWorker → List DeadLetterRecord × LoadWorker
drain_dead_letter lw = (lw.dead_letter, record lw { dead_letter = [] })
