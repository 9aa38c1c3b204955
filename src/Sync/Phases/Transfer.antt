-- ===== src/Sync/Phases/Transfer.antt =====
-- The load phase (workflows/load.go): its batches, and the answers to their writes.
use durable_integrations.Prelude.{
  ℕ, zero, suc, ◌+◌, ◌≤◌, ◌≡◌, refl, ap, ◌∙◌, String, List, [], ◌∷◌, ◌++◌, length, take, drop,
  take-append-drop, length-take-le, length-drop-le, arith,
}
use durable_integrations.Prelude.Result.{Result, ok, err}
use durable_integrations.Sync.Types.{LoadParams, LoadResult}
use durable_integrations.Sync.Phases.{
  batch_size_or_default, split_within, split_into_batches, WriteOutput, Destination, collected,
  collect, confirmation_errors, load_workflow,
}

abbrev pub join : List (List String) → List String
join [] = []
join (b ∷ bs) = b ++ join bs

-- No batch is empty or larger than the size.
abbrev pub AllWithin : ℕ → List (List String) → Type 0
AllWithin size [] = Unit
AllWithin size (b ∷ bs) = (1 ≤ length b) × (length b ≤ size) × AllWithin size bs

split_within-join :
    (fuel n : ℕ) (rs : List String)
    → length rs ≤ fuel
    → (join (split_within fuel (suc n) rs) ≡ rs) × AllWithin (suc n) (split_within fuel (suc n) rs)
unfolding split_within
split_within-join fuel n [] h = (refl, tt)
split_within-join zero n (r ∷ rs) h = absurd (omega arith)
split_within-join (suc fuel) n (r ∷ rs) h =
    let (joined, within) =
      split_within-join fuel n (drop n rs) (omega (arith, length-drop-le n rs)) in
    (
      ap (λ x. r ∷ take n rs ++ x) joined ∙ ap (λ x. r ∷ x) (take-append-drop n rs),
      (omega arith, omega (arith, length-take-le n rs), within),
    )

-- The records that the destination says it wrote.
abbrev pub count_of : Result String WriteOutput → ℕ
count_of (err message) = 0
count_of (ok out) = out.records_written

abbrev pub written_of : Destination → ℕ → List (List String) → ℕ
written_of dest i [] = 0
written_of dest i (b ∷ bs) = count_of (dest.write i b) + written_of dest (suc i) bs

-- A write that reports no error.
abbrev pub IsWritten : Result String WriteOutput → Type 0
IsWritten r = (out : WriteOutput) × (r ≡ ok out) × (out.errors ≡ [])

abbrev pub AllWritten : Destination → ℕ → List (List String) → Type 0
AllWritten dest i [] = Unit
AllWritten dest i (b ∷ bs) = IsWritten (dest.write i b) × AllWritten dest (suc i) bs

collected-records_loaded :
    (so_far : LoadResult) (r : Result String WriteOutput)
    → (collected so_far r).records_loaded ≡ so_far.records_loaded + count_of r
unfolding collected
collected-records_loaded so_far (err message) = omega arith
collected-records_loaded so_far (ok out) = refl

collect-records_loaded :
    (dest : Destination) (i : ℕ) (so_far : LoadResult) (bs : List (List String))
    → (collect dest i so_far bs).records_loaded ≡ so_far.records_loaded + written_of dest i bs
unfolding collect
collect-records_loaded dest i so_far [] = omega arith
collect-records_loaded dest i so_far (b ∷ bs) =
    let r = dest.write i b in
    omega (
      arith,
      collect-records_loaded dest (suc i) (collected so_far r) bs,
      collected-records_loaded so_far r,
    )

append_nil : (xs ys : List String) → xs ++ ys ≡ [] → (xs ≡ []) × (ys ≡ [])
append_nil [] ys h = (refl, h)
append_nil (x ∷ xs) ys h = cc

collected-errors :
    (so_far : LoadResult) (r : Result String WriteOutput)
    → (collected so_far r).errors ≡ []
    → (so_far.errors ≡ []) × IsWritten r
unfolding collected
collected-errors so_far (err message) h =
    let (none_before, e) = append_nil so_far.errors (message ∷ []) h in cc
collected-errors so_far (ok out) h =
    let (none_before, none_now) = append_nil so_far.errors out.errors h in
    (none_before, (out, refl, none_now))

collect-errors :
    (dest : Destination) (i : ℕ) (so_far : LoadResult) (bs : List (List String))
    → (collect dest i so_far bs).errors ≡ []
    → (so_far.errors ≡ []) × AllWritten dest i bs
unfolding collect
collect-errors dest i so_far [] h = (h, tt)
collect-errors dest i so_far (b ∷ bs) h =
    let (before, later) = collect-errors dest (suc i) (collected so_far (dest.write i b)) bs h in
    let (first, now) = collected-errors so_far (dest.write i b) before in (first, (now, later))

-- A size of at least one.
size_suc : (size : ℕ) → (m : ℕ) × (batch_size_or_default size ≡ suc m)
size_suc zero = (999, refl)
size_suc (suc n) = (n, ground arith)

split_into_batches-join :
    (rs : List String) (size : ℕ)
    → let wanted = batch_size_or_default size in
      let batches = split_into_batches rs wanted in (join batches ≡ rs) × AllWithin wanted batches
unfolding split_into_batches
split_into_batches-join rs size =
    let (m, e) = size_suc size in
    let same : batch_size_or_default (suc m) ≡ suc m = ground arith in
    rw (e, same) (split_within-join (length rs) m rs (omega arith))

-- Whatever the destination answers: the batches, joined in order, are the records, and each holds at
-- least one and at most the size asked for. The phase counts as loaded what the writes report. If it
-- returns no error, then no write of a batch failed or reported one.
pub load_workflow-IsComplete :
    (dest : Destination) (params : LoadParams)
    → let size = batch_size_or_default params.batch_size in
      let batches = split_into_batches params.records size in
      (join batches ≡ params.records)
      × AllWithin size batches
      × ((load_workflow dest params).records_loaded ≡ written_of dest 0 batches)
      × ((load_workflow dest params).errors ≡ [] → AllWritten dest 0 batches)
unfolding load_workflow
load_workflow-IsComplete dest params =
    let size = batch_size_or_default params.batch_size in
    let batches = split_into_batches params.records size in
    let start : LoadResult = record { records_loaded = 0; batches_written = 0; errors = [] } in
    let written = collect dest 0 start batches in
    let (joined, within) = split_into_batches-join params.records params.batch_size in
    (
      joined,
      within,
      omega (arith, collect-records_loaded dest 0 start batches),
      λ h.
          (collect-errors dest 0 start batches (
            (append_nil written.errors
              (confirmation_errors
                (dest.confirm (length params.records) written.records_loaded written.errors))
              h).0)).1,
    )
