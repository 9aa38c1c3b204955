-- ===== src/Workers/Pool/Ledger.antt =====
-- The counters of a pool against where its items are.
use durable_integrations.Prelude.{ℕ, zero, suc, ◌+◌, ◌-◌, ◌≤◌, ◌<◌, ◌≡◌, refl, true, false, arith}
use durable_integrations.Prelude.Int.{ℤ, pos, negsuc, ◌+ℤ◌}
use durable_integrations.Workers.Pool.{
  Pool, Step, starts, submits, sends, refuses, receives, lowers_pending, raises_active, processes,
  lowers_active, exits, shuts_down, cancels, resizes, Reachable, fresh, later, new_pool, start,
  submit, send, refuse, receive, lower_pending, raise_active, processed, lower_active, exit,
  shutdown, cancel, resize, busy, at_least_one,
}

pub record IsSound (p : Pool) : Type 0 where
  pub pending : p.pending ≡ pos (p.waiting + p.queued + p.taken)
  pub active : p.active ≡ pos (p.running + p.counted)
  pub accepted : p.accepted ≡ p.queued + p.taken + p.between + p.running + p.completed + p.failed
  pub room : p.queued ≤ p.capacity
  pub hands : busy p ≤ p.workers
  pub positive : 0 < p.concurrency
  pub spawned : p.started ≡ true → p.concurrency ≤ p.workers + p.exited
  pub drained : p.cancelled ≡ false → 0 < p.exited → (p.closed ≡ true) × (p.queued ≡ 0)

raise_pos : (z : ℤ) (n : ℕ) → z ≡ pos n → z +ℤ pos 1 ≡ pos (n + 1)
raise_pos z n e = rw e refl

lower_pos : (z : ℤ) (n : ℕ) → z ≡ pos (n + 1) → z +ℤ negsuc 0 ≡ pos n
lower_pos z n e = ground arith

at_least_one_pos : (n : ℤ) → 0 < at_least_one n
at_least_one_pos (pos zero) = omega arith
at_least_one_pos (pos (suc n)) = omega arith
at_least_one_pos (negsuc n) = omega arith

new_pool-IsSound : (n : ℤ) → IsSound (new_pool n)
unfolding new_pool
new_pool-IsSound n = record {
  pending = refl;
  active = refl;
  accepted = omega arith;
  room = omega arith;
  hands = omega arith;
  positive = at_least_one_pos n;
  spawned = λ e. cc;
  drained = λ e h. absurd (omega arith);
}

Step-IsSound : {p q : Pool} → Step p q → IsSound p → IsSound q
unfolding start submit send refuse receive lower_pending raise_active processed lower_active exit
    shutdown cancel resize
Step-IsSound (starts p) v = ground arith
Step-IsSound (submits p) v = ground (arith, raise_pos p.pending (p.waiting + p.queued + p.taken))
Step-IsSound (sends p a b c) v = ground arith
Step-IsSound (refuses p a) v =
    ground (arith, lower_pos p.pending (p.waiting - 1 + p.queued + p.taken))
Step-IsSound (receives p a b) v = ground arith
Step-IsSound (lowers_pending p a) v =
    ground (arith, lower_pos p.pending (p.waiting + p.queued + (p.taken - 1)))
Step-IsSound (raises_active p a) v = ground (arith, raise_pos p.active (p.running + p.counted))
Step-IsSound (processes p f a) v = ground arith
Step-IsSound (lowers_active p a) v =
    ground (arith, lower_pos p.active (p.running + (p.counted - 1)))
Step-IsSound (exits p a b c) v = ground arith
Step-IsSound (shuts_down p) v = ground arith
Step-IsSound (cancels p) v = ground arith
Step-IsSound (resizes p n) v = ground (arith, at_least_one_pos n)

-- In every state that a pool reaches: `pending` counts the items that wait, stand in the channel or
-- are just taken; `active` those in a processor or just counted; each accepted item is in the channel,
-- with a worker, completed or failed; the channel keeps to its room; no more workers than there are
-- hold an item; and if a worker has returned though nothing was cancelled, the channel is closed and
-- empty.
pub Reachable-IsSound : {size : ℤ} {p : Pool} → Reachable size p → IsSound p
Reachable-IsSound {size} fresh = new_pool-IsSound size
Reachable-IsSound (later r s) = Step-IsSound s (Reachable-IsSound r)

pos_injective : (a b : ℕ) → pos a ≡ pos b → a ≡ b
pos_injective a b e = cc

-- When both counters that WaitIdle reads are 0, each accepted item has been completed or has failed,
-- but for those that a worker has taken and not begun, of which no worker has more than one.
pub idle_accounts :
    {size : ℤ} {p : Pool}
    → Reachable size p
    → p.pending ≡ pos 0
    → p.active ≡ pos 0
    → (p.accepted ≡ p.completed + p.failed + p.between) × (p.between ≤ p.workers)
idle_accounts {size} {p} r h k =
    let v = Reachable-IsSound r in
    let none_waits = pos_injective 0 (p.waiting + p.queued + p.taken) (cc (v.pending, h)) in
    let none_runs = pos_injective 0 (p.running + p.counted) (cc (v.active, k)) in
    ground (arith, v.accepted, v.hands)

-- When all workers of a pool that was started have returned and their context was never cancelled,
-- each accepted item has been completed or has failed.
pub shutdown_drains :
    {size : ℤ} {p : Pool}
    → Reachable size p
    → p.started ≡ true
    → p.cancelled ≡ false
    → p.workers ≡ 0
    → p.accepted ≡ p.completed + p.failed
shutdown_drains {size} {p} r h k none =
    let v = Reachable-IsSound r in
    ground (arith, v.accepted, v.hands, v.positive, v.spawned h, v.drained k)
