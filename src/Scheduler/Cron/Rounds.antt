-- ===== src/Scheduler/Cron/Rounds.antt =====
-- The loop over a range ends within its rounds, also when the sum wraps around.
use durable_integrations.Prelude.{
  ℕ, zero, suc, ◌+◌, ◌-◌, ◌^◌, ◌%◌, ◌≤◌, ◌<◌, ◌≡◌, refl, inl, inr, false, leb, arith, Bool-cases,
}
use durable_integrations.Scheduler.Cron.{values_from, range_values, signed_leb}

module _ (end step : ℕ) (small : end < 2 ^ 61) (fits : step < 2 ^ 63) where
  -- More rounds change nothing.
  abbrev IsSettled : ℕ → ℕ → Type 0
  IsSettled rounds v =
      (n : ℕ) → rounds ≤ n → values_from n v end step ≡ values_from rounds v end step

  stops : (rounds v : ℕ) → signed_leb v end ≡ false → IsSettled (suc rounds) v
  unfolding values_from
  stops rounds v e zero h = absurd (omega arith)
  stops rounds v e (suc n) h = rw e refl

  goes_on :
      (rounds v w : ℕ) → (v + step) % 2 ^ 64 ≡ w → IsSettled rounds w → IsSettled (suc rounds) v
  unfolding values_from
  goes_on rounds v w e s zero h = absurd (omega arith)
  goes_on rounds v w e s (suc n) h = rw (e, s n (omega arith)) refl

  too_high : (v : ℕ) → end < v → v < 2 ^ 63 → signed_leb v end ≡ false
  unfolding signed_leb
  too_high v h b = ground arith

  -- A step up to the end never wraps around.
  rises :
      (rounds v : ℕ)
      → 0 < step
      → step ≤ end
      → v ≤ end + step
      → end + 2 ≤ v + rounds
      → 0 < rounds
      → IsSettled rounds v
  rises zero v p h b f r = absurd (omega arith)
  rises (suc rounds) v p h b f r = elim (Bool-cases (leb v end)) [
    | inl e ↦
        goes_on rounds v (v + step) (ground arith)
          (rises rounds (v + step) p h (ground arith) (ground arith) (ground arith))
    | inr e ↦ stops rounds v (too_high v (ground arith) (ground arith))
  ]

  -- A larger one stops at once, or passes a negative value and comes out below.
  falls : (rounds v : ℕ) → end < step → v ≤ end → v + 4 ≤ rounds → IsSettled rounds v
  falls (suc (suc (suc (suc rounds)))) v h b f = elim (Bool-cases (leb (2 ^ 63) (v + step))) [
    | inr e ↦
        goes_on _ v (v + step) (ground arith)
          (stops _ (v + step) (too_high (v + step) (omega arith) (ground arith)))
    | inl e ↦ elim (Bool-cases (leb (2 ^ 64) (v + step + step))) [
      | inl over ↦ goes_on _ v (v + step) (ground arith) (
          goes_on _ (v + step) (v + step + step - 2 ^ 64) (ground arith)
            (falls (suc (suc rounds)) (v + step + step - 2 ^ 64) h (ground arith) (ground arith)))
      | inr under ↦ goes_on _ v (v + step) (ground arith) (
          goes_on _ (v + step) (v + step + step) (ground arith) (
            goes_on _ (v + step + step) (v + step + step + step - 2 ^ 64) (ground arith)
              (stops _ _ (too_high _ (ground arith) (ground arith)))))
    ]
  ]
  falls rounds v h b f = absurd (omega arith)

  -- The loop over a range of an upper bound below 2^61 with a step below 2^63 ends within the rounds
  -- that it is given, also when its sum wraps around: with more rounds it finds the same values.
  pub range_values_settled :
      (start rounds : ℕ)
      → 0 < step
      → start ≤ end
      → end + 4 ≤ rounds
      → values_from rounds start end step ≡ range_values start end step
  unfolding range_values
  range_values_settled start rounds p h f = elim (Bool-cases (leb step end)) [
    | inl e ↦
        rises (end + 4) start p (ground arith) (omega arith) (omega arith) (omega arith) rounds f
    | inr e ↦ falls (end + 4) start (ground arith) h (omega arith) rounds f
  ]
