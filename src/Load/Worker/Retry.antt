-- ===== src/Load/Worker/Retry.antt =====
-- When a batch is written, and when the worker gives up.
use durable_integrations.Prelude.{
  ℕ, zero, suc, ◌+◌, ◌≤◌, ◌<◌, ◌≡◌, refl, ◌↔◌, ◌⊎◌, inl, inr, sym, ◌∙◌, String, true, none, List,
  arith, Bool-cases, ◌==◌, ==_iff, subst,
}
use durable_integrations.Prelude.Result.{Result, ok, err}
use durable_integrations.Prelude.Text.{concat}
use durable_integrations.Load.Worker.{
  Sink, LoadWorker, WriteResult, WriteFailure, attempts_from, write_batch_with_retry,
}

Result-cases {ℓ κ} :
    {E : Type κ} {A : Type ℓ} (r : Result E A) → ((a : A) × (r ≡ ok a)) ⊎ ((e : E) × (r ≡ err e))
Result-cases (ok a) = inl (a, refl)
Result-cases (err e) = inr (e, refl)

module _ (sink : Sink) (start : ℕ) (batch : List String) where
  -- The attempt fails in a way that may pass, and the context is not done.
  abbrev pub FailsWith : ℕ → WriteFailure → Type 0
  FailsWith attempt failure =
      (sink.done_before start attempt ≡ none)
      × (sink.write start attempt batch ≡ err failure)
      × (failure.retryable ≡ true)
      × (sink.done_in_wait start attempt ≡ none)

  -- The attempt is made and succeeds.
  abbrev pub Succeeds : ℕ → WriteResult → Type 0
  Succeeds attempt result =
      (sink.done_before start attempt ≡ none) × (sink.write start attempt batch ≡ ok result)

  attempts_from_ok :
      (n attempt : ℕ) (last : String) (result : WriteResult)
      → Succeeds attempt result
      → attempts_from sink (suc n) start attempt batch last ≡ ok result
  unfolding attempts_from
  attempts_from_ok n attempt last result h = ground arith

  attempts_from_retry :
      (n attempt : ℕ) (last : String) (failure : WriteFailure)
      → FailsWith attempt failure
      → attempts_from sink (suc n) start attempt batch last
        ≡ attempts_from sink n start (attempt + 1) batch failure.message
  unfolding attempts_from
  attempts_from_retry n attempt last failure h = ground arith

  -- What a first attempt that ends in success, or in a retry, must have been.
  attempts_from_cases :
      (n attempt : ℕ) (last : String) (result : WriteResult)
      → attempts_from sink (suc n) start attempt batch last ≡ ok result
      → Succeeds attempt result ⊎ ((failure : WriteFailure) × FailsWith attempt failure)
  unfolding attempts_from
  attempts_from_cases n attempt last result h =
      elim (Result-cases (sink.write start attempt batch)) [
        | inl (r, e) ↦ inl (ground arith)
        | inr (f, e) ↦ inr (f, ground arith)
      ]

  abbrev pub FirstSuccess : ℕ → ℕ → WriteResult → Type 0
  FirstSuccess attempt n result =
      (k : ℕ) × (attempt ≤ k)
      × (k < attempt + n)
      × Succeeds k result
      × ((j : ℕ) → attempt ≤ j → j < k → (failure : WriteFailure) × FailsWith j failure)

  -- A failure at the first attempt, and at all later ones below `k`.
  fails_from :
      (attempt k : ℕ) (first : WriteFailure)
      → FailsWith attempt first
      → ((j : ℕ) → attempt + 1 ≤ j → j < k → (failure : WriteFailure) × FailsWith j failure)
      → (j : ℕ) → attempt ≤ j
      → j < k
      → (failure : WriteFailure) × FailsWith j failure
  fails_from attempt k first fails later j p q = elim (Bool-cases (j == attempt)) [
    | inl e ↦
        let here : j ≡ attempt = (==_iff j attempt).0 e in
        subst (λ i. (failure : WriteFailure) × FailsWith i failure) (sym here) (first, fails)
    | inr e ↦ later j (ground arith) q
  ]

  attempts_from-FirstSuccess :
      (n attempt : ℕ) (last : String) (result : WriteResult)
      → attempts_from sink n start attempt batch last ≡ ok result
      → FirstSuccess attempt n result
  attempts_from-FirstSuccess zero attempt last result h = unfold attempts_from in cc
  attempts_from-FirstSuccess (suc n) attempt last result h =
      elim (attempts_from_cases n attempt last result h) [
        | inl s ↦ (attempt, omega arith, omega arith, s, λ j p q. absurd (omega arith))
        | inr (f, fails) ↦
            let (k, low, high, s, before) =
              attempts_from-FirstSuccess n (attempt + 1) f.message result
                (sym (attempts_from_retry n attempt last f fails) ∙ h) in
            (k, omega arith, omega arith, s, fails_from attempt k f fails before)
      ]

  FirstSuccess-attempts_from :
      (n attempt : ℕ) (last : String) (result : WriteResult)
      → FirstSuccess attempt n result
      → attempts_from sink n start attempt batch last ≡ ok result
  FirstSuccess-attempts_from zero attempt last result (k, low, high, s, before) =
      absurd (omega arith)
  FirstSuccess-attempts_from (suc n) attempt last result (k, low, high, s, before) =
      elim (Bool-cases (k == attempt)) [
        | inl e ↦
            let here : k ≡ attempt = (==_iff k attempt).0 e in
            attempts_from_ok n attempt last result (subst (λ i. Succeeds i result) here s)
        | inr e ↦
            let later : attempt + 1 ≤ k = ground arith in
            let (f, fails) = before attempt (omega arith) (omega arith) in
            attempts_from_retry n attempt last f fails
            ∙ FirstSuccess-attempts_from n (attempt + 1) f.message result
                (k, later, omega arith, s, λ j p q. before j (omega arith) q)
      ]

  attempts_from_exhausted :
      (n attempt : ℕ) (last : String)
      → ((j : ℕ) → attempt ≤ j → j < attempt + n → (failure : WriteFailure) × FailsWith j failure)
      → (message : String) × (attempts_from sink n start attempt batch last
          ≡ err (concat "max retries exceeded: " message))
  attempts_from_exhausted zero attempt last h = (last, unfold attempts_from in refl)
  attempts_from_exhausted (suc n) attempt last h =
      let (f, fails) = h attempt (omega arith) (omega arith) in
      let (message, e) =
        attempts_from_exhausted n (attempt + 1) f.message
          (λ j p q. h j (omega arith) (omega arith)) in
      (message, attempts_from_retry n attempt last f fails ∙ e)

-- A batch is written with result r exactly if some attempt, among the first and at most `max_retries`
-- more, has the result r while the context is not done, and each attempt before it failed in a way
-- that may pass, with the context not done before it or in the wait after it.
pub write_batch_with_retry_iff :
    (sink : Sink) (lw : LoadWorker) (start : ℕ) (batch : List String) (result : WriteResult)
    → (write_batch_with_retry sink lw start batch ≡ ok result)
      ↔ FirstSuccess sink start batch 0 (suc lw.max_retries) result
unfolding write_batch_with_retry
write_batch_with_retry_iff sink lw start batch result = (
  attempts_from-FirstSuccess sink start batch (suc lw.max_retries) 0 "" result,
  FirstSuccess-attempts_from sink start batch (suc lw.max_retries) 0 "" result,
)

-- If all those attempts fail in a way that may pass, the worker gives up with an error that says so.
pub write_batch_with_retry_exhausted :
    (sink : Sink) (lw : LoadWorker) (start : ℕ) (batch : List String)
    → ((j : ℕ)
        → j < suc lw.max_retries
        → (failure : WriteFailure) × FailsWith sink start batch j failure)
    → (message : String) × (write_batch_with_retry sink lw start batch
        ≡ err (concat "max retries exceeded: " message))
unfolding write_batch_with_retry
write_batch_with_retry_exhausted sink lw start batch h =
    attempts_from_exhausted sink start batch (suc lw.max_retries) 0 "" (λ j p q. h j (omega arith))
