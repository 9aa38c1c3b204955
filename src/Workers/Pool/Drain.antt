-- ===== src/Workers/Pool/Drain.antt =====
-- A pool that is shut down comes to its end.
use durable_integrations.Prelude.{
  ℕ, zero, suc, ◌+◌, ◌*◌, ◌≤◌, ◌<◌, ◌≡◌, refl, inl, inr, ◌⊎◌, true, false, arith, sym, ◌∙◌,
}
use durable_integrations.Prelude.Int.{ℤ}
use durable_integrations.Workers.Pool.Ledger.{shutdown_drains}
use durable_integrations.Workers.Pool.{
  Pool, Step, receives, lowers_pending, raises_active, processes, lowers_active, exits, Reachable,
  later, receive, lower_pending, raise_active, processed, lower_active, exit,
}

-- What is left to do: each item has at most five steps before it, and each worker one.
abbrev pub left : Pool → ℕ
left p = p.queued * 6 + p.taken * 5 + p.between * 4 + p.running * 3 + p.counted * 2 + p.workers

-- What a worker does not touch.
abbrev pub Keeps : Pool → Pool → Type 0
Keeps p q =
    (q.closed ≡ p.closed)
    × (q.accepted ≡ p.accepted)
    × (q.started ≡ p.started)
    × (q.cancelled ≡ p.cancelled)

-- A step of a worker, which leaves the pool closed and less to do.
abbrev pub Works : Pool → Type 0
Works p = (q : Pool) × Step p q × Keeps p q × (left q < left p)

positive_or_zero : (n : ℕ) → (0 < n) ⊎ (n ≡ 0)
positive_or_zero zero = inr refl
positive_or_zero (suc n) = inl (omega arith)

works : (p : Pool) → p.closed ≡ true → 0 < p.workers → Works p
unfolding receive lower_pending raise_active processed lower_active exit
works p c h = elim (positive_or_zero p.taken) [
  | inl a ↦ (lower_pending p, lowers_pending p a, (refl, refl, refl, refl), omega arith)
  | inr a ↦ elim (positive_or_zero p.between) [
    | inl b ↦ (raise_active p, raises_active p b, (refl, refl, refl, refl), omega arith)
    | inr b ↦ elim (positive_or_zero p.running) [
      | inl d ↦ (processed false p, processes p false d, (refl, refl, refl, refl), omega arith)
      | inr d ↦ elim (positive_or_zero p.counted) [
        | inl e ↦ (lower_active p, lowers_active p e, (refl, refl, refl, refl), omega arith)
        | inr e ↦ elim (positive_or_zero p.queued) [
          | inl f ↦ (receive p, receives p f (omega arith), (refl, refl, refl, refl), omega arith)
          | inr f ↦ (exit p, exits p (omega arith) f (inl c), (refl, refl, refl, refl), omega arith)
        ]
      ]
    ]
  ]
]

-- A sequence of steps.
pub data Steps : Pool → Pool → Type 0 where
  done : (p : Pool) → Steps p p
  next : {p q r : Pool} → Step p q → Steps q r → Steps p r

Reachable-Steps : {size : ℤ} {p q : Pool} → Reachable size p → Steps p q → Reachable size q
Reachable-Steps r (done p) = r
Reachable-Steps r (next s rest) = Reachable-Steps (later r s) rest

-- Steps from `p` at the end of which all its workers have returned.
abbrev pub Ends : Pool → Type 0
Ends p = (q : Pool) × Steps p q × Keeps p q × (q.workers ≡ 0)

ends : (fuel : ℕ) (p : Pool) → p.closed ≡ true → left p ≤ fuel → Ends p
ends zero p c h = (p, done p, (refl, refl, refl, refl), omega arith)
ends (suc fuel) p c h = elim (positive_or_zero p.workers) [
  | inr e ↦ (p, done p, (refl, refl, refl, refl), e)
  | inl w ↦
      let (q, s, (a1, a2, a3, a4), less) = works p c w in
      let (last, steps, (b1, b2, b3, b4), none) = ends fuel q (a1 ∙ c) (omega arith) in
      (last, next s steps, (b1 ∙ a1, b2 ∙ a2, b3 ∙ a3, b4 ∙ a4), none)
]

-- A pool that was started and is shut down, with the context of its workers not cancelled, is never
-- stuck: from each state that it reaches there are steps after which all workers have returned, and
-- then all the items accepted so far have been completed or have failed.
pub shutdown_finishes :
    {size : ℤ} {p : Pool}
    → Reachable size p
    → p.started ≡ true
    → p.closed ≡ true
    → p.cancelled ≡ false
    → (q : Pool) × Steps p q × (q.workers ≡ 0) × (p.accepted ≡ q.completed + q.failed)
shutdown_finishes {size} {p} r started closed running =
    let (q, steps, (k1, k2, k3, k4), none) = ends (left p) p closed (omega arith) in
    (
      q,
      steps,
      none,
      sym k2 ∙ shutdown_drains (Reachable-Steps r steps) (k3 ∙ started) (k4 ∙ running) none,
    )
