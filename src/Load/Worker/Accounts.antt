-- ===== src/Load/Worker/Accounts.antt =====
-- Where each record of a call ends up.
use mathlib.Core.List.{append_assoc, append-nil}
use durable_integrations.Prelude.{
  ℕ, zero, suc, ◌+◌, ◌≤◌, ◌<◌, ◌≡◌, refl, ap, ◌∙◌, String, none, List, [], ◌∷◌, ◌++◌, map, arith,
  take, drop, length, take-append-drop, length-take-le, length-drop-le, if◌then◌else◌,
}
use durable_integrations.Prelude.Result.{Result, ok, err}
use text.Mathlib.Text.{◌==◌ as str_eq}
use durable_integrations.Load.Worker.{
  Sink, LoadWorker, WriteError, WriteResult, DeadLetterRecord, no_result, write_batch_with_retry,
  add_write_errors, account, batches_from, process_batch,
}

-- A batch with the result of writing it.
pub record Written : Type 0 where
  pub batch : List String
  pub outcome : Result String WriteResult

-- The batches of a call, each with its outcome.
pub outcomes : Sink → LoadWorker → ℕ → ℕ → List String → List Written
outcomes sink lw zero start records = []
outcomes sink lw (suc fuel) start [] = []
outcomes sink lw (suc fuel) start (r ∷ rest) =
    let batch = take lw.batch_size (r ∷ rest) in
    record { batch = batch; outcome = write_batch_with_retry sink lw start batch }
    ∷ outcomes sink lw fuel (start + lw.batch_size) (drop lw.batch_size (r ∷ rest))

abbrev pub joined : List Written → List String
joined [] = []
joined (w ∷ ws) = w.batch ++ joined ws

-- What the outcome of one batch adds to the dead letter queue: all its records if the batch failed,
-- and else each record that the destination named as not written.
abbrev pub named_letters : ℕ → List WriteError → List DeadLetterRecord
named_letters attempts [] = []
named_letters attempts (we ∷ rest) =
    if str_eq we.record_text ""
    then named_letters attempts rest
    else record { letter = we.record_text; error = we.message; attempts = attempts }
      ∷ named_letters attempts rest

abbrev pub letters_of : ℕ → List String → Result String WriteResult → List DeadLetterRecord
letters_of attempts batch (err message) =
    map (λ r. record { letter = r; error = message; attempts = attempts }) batch
letters_of attempts batch (ok result) = named_letters attempts result.errors

abbrev pub letters : ℕ → List Written → List DeadLetterRecord
letters attempts [] = []
letters attempts (w ∷ ws) = letters_of attempts w.batch w.outcome ++ letters attempts ws

abbrev pub count_of : Result String WriteResult → ℕ
count_of (err message) = 0
count_of (ok result) = result.records_written

abbrev pub written : List Written → ℕ
written [] = 0
written (w ∷ ws) = count_of w.outcome + written ws

abbrev pub errors_of : Result String WriteResult → List WriteError
errors_of (err message) =
    record { message = message; record_text = ""; error_code = "BATCH_FAILED" } ∷ []
errors_of (ok result) = result.errors

abbrev pub errors : List Written → List WriteError
errors [] = []
errors (w ∷ ws) = errors_of w.outcome ++ errors ws

add_write_errors_lem :
    (es : List WriteError) (total : WriteResult) (lw : LoadWorker)
    → add_write_errors es total lw ≡ (
      record total { errors = total.errors ++ es },
      record lw { dead_letter = lw.dead_letter ++ named_letters (lw.max_retries + 1) es },
    )
unfolding add_write_errors
add_write_errors_lem [] total lw =
    ground (arith, append-nil total.errors, append-nil lw.dead_letter)
add_write_errors_lem (e ∷ es) total lw =
    let queued : DeadLetterRecord = record {
      letter = e.record_text;
      error = e.message;
      attempts = lw.max_retries + 1;
    } in
    let noted : WriteResult = record total { errors = total.errors ++ e ∷ [] } in
    ground (
      arith,
      add_write_errors_lem es noted lw,
      add_write_errors_lem es noted (record lw { dead_letter = lw.dead_letter ++ queued ∷ [] }),
      append_assoc total.errors (e ∷ []) es,
      append_assoc lw.dead_letter (queued ∷ []) (named_letters (lw.max_retries + 1) es),
    )

account_lem :
    (batch : List String) (r : Result String WriteResult) (total : WriteResult) (lw : LoadWorker)
    → ((account batch r total lw).0.records_written ≡ total.records_written + count_of r)
      × ((account batch r total lw).0.errors ≡ total.errors ++ errors_of r)
      × ((account batch r total lw).1
          ≡ record lw { dead_letter = lw.dead_letter ++ letters_of (lw.max_retries + 1) batch r })
unfolding account
account_lem batch (err message) total lw = (omega arith, refl, refl)
account_lem batch (ok result) total lw = rw add_write_errors_lem (refl, refl, refl)

-- The outcomes do not depend on what is in the queue.
outcomes_queue :
    (sink : Sink) (lw : LoadWorker) (d : List DeadLetterRecord) (fuel start : ℕ)
    (records : List String)
    → outcomes sink (record lw { dead_letter = d }) fuel start records
      ≡ outcomes sink lw fuel start records
unfolding outcomes write_batch_with_retry
outcomes_queue sink lw d zero start records = refl
outcomes_queue sink lw d (suc fuel) start [] = refl
outcomes_queue sink lw d (suc fuel) start (r ∷ rest) =
    rw (outcomes_queue sink lw d fuel (start + lw.batch_size) (drop lw.batch_size (r ∷ rest)))

-- The totals and the queue after a call, from its outcomes.
abbrev pub Balanced : List Written → WriteResult → LoadWorker → WriteResult × LoadWorker → Type 0
Balanced ws total lw (total', lw') =
    (total'.records_written ≡ total.records_written + written ws)
    × (total'.errors ≡ total.errors ++ errors ws)
    × (lw' ≡ record lw { dead_letter = lw.dead_letter ++ letters (lw.max_retries + 1) ws })

Balanced-cons :
    (w : Written) (ws : List Written) (total total' : WriteResult) (lw : LoadWorker)
    (last : WriteResult × LoadWorker)
    → total'.records_written ≡ total.records_written + count_of w.outcome
    → total'.errors ≡ total.errors ++ errors_of w.outcome
    → Balanced ws total'
        (record lw {
          dead_letter = lw.dead_letter ++ letters_of (lw.max_retries + 1) w.batch w.outcome;
        })
        last
    → Balanced (w ∷ ws) total lw last
Balanced-cons w ws total total' lw (last, lw') p q (a, b, c) = (
  omega arith,
  b ∙ ap (λ es. es ++ errors ws) q ∙ append_assoc total.errors _ _,
  c ∙ ap (λ d. record lw { dead_letter = d }) (append_assoc lw.dead_letter _ _),
)

module _ (sink : Sink) where
  batches_from-Balanced :
      (fuel start : ℕ) (records : List String) (total : WriteResult) (lw : LoadWorker)
      → Balanced
          (outcomes sink lw fuel start records)
          total
          lw
          (batches_from sink fuel start records total lw)
  unfolding outcomes batches_from
  batches_from-Balanced zero start records total lw =
      ground (arith, append-nil total.errors, append-nil lw.dead_letter)
  batches_from-Balanced (suc fuel) start [] total lw =
      ground (arith, append-nil total.errors, append-nil lw.dead_letter)
  batches_from-Balanced (suc fuel) start (r ∷ rest) total lw =
      let batch = take lw.batch_size (r ∷ rest) in
      let tail = drop lw.batch_size (r ∷ rest) in
      let out = write_batch_with_retry sink lw start batch in
      let done = account batch out total lw in
      let (p, q, e) = account_lem batch out total lw in
      let queue : List DeadLetterRecord =
        lw.dead_letter ++ letters_of (lw.max_retries + 1) batch out in
      let ih =
        batches_from-Balanced fuel (start + lw.batch_size) tail done.0
          (record lw { dead_letter = queue }) in
      let ih' = rw (outcomes_queue sink lw queue fuel (start + lw.batch_size) tail) at ih in
      Balanced-cons (record { batch = batch; outcome = out })
        (outcomes sink lw fuel (start + lw.batch_size) tail) total done.0 lw
        (batches_from sink fuel (start + lw.batch_size) tail done.0 done.1) p q (rw e ih')

length-drop-cons :
    (n : ℕ) (r : String) (rest : List String) → 0 < n → length (drop n (r ∷ rest)) ≤ length rest
length-drop-cons zero r rest h = absurd (omega arith)
length-drop-cons (suc n) r rest h = length-drop-le n rest

joined-outcomes :
    (sink : Sink) (lw : LoadWorker) (fuel start : ℕ) (records : List String)
    → 0 < lw.batch_size
    → length records ≤ fuel
    → joined (outcomes sink lw fuel start records) ≡ records
unfolding outcomes
joined-outcomes sink lw zero start [] h k = refl
joined-outcomes sink lw zero start (r ∷ rest) h k = absurd (omega arith)
joined-outcomes sink lw (suc fuel) start [] h k = refl
joined-outcomes sink lw (suc fuel) start (r ∷ rest) h k =
    rw
      (joined-outcomes sink lw fuel (start + lw.batch_size) (drop lw.batch_size (r ∷ rest)) h
        (omega (arith, length-drop-cons lw.batch_size r rest h)))
      (take-append-drop lw.batch_size (r ∷ rest))

-- The batches are written one after the other, none larger than the limit, each with its outcome.
abbrev pub AreWrites : Sink → LoadWorker → ℕ → List Written → Type 0
AreWrites sink lw start [] = Unit
AreWrites sink lw start (w ∷ ws) =
    (length w.batch ≤ lw.batch_size)
    × (w.outcome ≡ write_batch_with_retry sink lw start w.batch)
    × AreWrites sink lw (start + lw.batch_size) ws

outcomes-AreWrites :
    (sink : Sink) (lw : LoadWorker) (fuel start : ℕ) (records : List String)
    → AreWrites sink lw start (outcomes sink lw fuel start records)
unfolding outcomes
outcomes-AreWrites sink lw zero start records = tt
outcomes-AreWrites sink lw (suc fuel) start [] = tt
outcomes-AreWrites sink lw (suc fuel) start (r ∷ rest) =
    (length-take-le lw.batch_size (r ∷ rest), refl, outcomes-AreWrites sink lw fuel _ _)

-- With a registered destination and a positive batch size, a call cuts its records into batches of
-- at most that size, which joined in order are the records, and writes each with retries, as the
-- worker stood before the call. It counts as written what the successful
-- batches report, returns the errors of all batches, and appends to the dead letter queue the
-- records of each failed batch and those that a successful one names as not written; nothing else
-- of the worker changes.
pub process_batch-Balanced :
    (sink : Sink) (lw : LoadWorker) (records : List String)
    → 0 < lw.batch_size
    → (ws : List Written) × (total : WriteResult) × (joined ws ≡ records)
      × AreWrites sink lw 0 ws
      × ((process_batch sink none records lw).0 ≡ ok total)
      × Balanced ws no_result lw (total, (process_batch sink none records lw).1)
unfolding process_batch
process_batch-Balanced sink lw records h = (
  outcomes sink lw (length records) 0 records,
  (batches_from sink (length records) 0 records no_result lw).0,
  joined-outcomes sink lw (length records) 0 records h (omega arith),
  outcomes-AreWrites sink lw (length records) 0 records,
  refl,
  batches_from-Balanced sink (length records) 0 records no_result lw,
)
