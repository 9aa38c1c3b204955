-- ===== src/Workers/Pool.antt =====
-- internal/worker/pool/pool.go. The goroutines interleave, so a history is a sequence of their atomic
-- steps. What the items are does not matter: a field counts those at one place. An item is
-- `waiting` in the select of its submitter, `queued` in the channel, `taken` by a worker that has
-- not yet lowered `pending`, `between` that and the raise of `active`, `running` in the processor, and
-- `counted` until the deferred call lowers `active`. `accepted` counts the submits that returned
-- nil. A submitter that meets the closed channel in its select panics if it is chosen to send; a
-- history ends before that.
pub mod Ledger
pub mod Drain
mod Samples
use durable_integrations.Prelude.{
  ℕ, zero, suc, ◌+◌, ◌-◌, ◌*◌, ◌<◌, ◌≡◌, ◌⊎◌, Bool, true, false, ltb, if◌then◌else◌, not,
}
use durable_integrations.Prelude.Int.{ℤ, pos, negsuc, ◌+ℤ◌}

pub record Pool : Type 0 where
  pub concurrency : ℕ
  pub capacity : ℕ
  pub started : Bool
  pub stopped : Bool
  pub closed : Bool
  pub cancelled : Bool
  pub workers : ℕ
  pub exited : ℕ
  pub waiting : ℕ
  pub queued : ℕ
  pub taken : ℕ
  pub between : ℕ
  pub running : ℕ
  pub counted : ℕ
  pub pending : ℤ
  pub active : ℤ
  pub completed : ℕ
  pub failed : ℕ
  pub accepted : ℕ

-- `if concurrency < 1 { concurrency = 1 }`
abbrev pub at_least_one : ℤ → ℕ
at_least_one (pos zero) = 1
at_least_one (pos (suc n)) = suc n
at_least_one (negsuc n) = 1

pub new_pool : ℤ → Pool
new_pool n = record {
  concurrency = at_least_one n;
  capacity = at_least_one n * 2;
  started = false;
  stopped = false;
  closed = false;
  cancelled = false;
  workers = 0;
  exited = 0;
  waiting = 0;
  queued = 0;
  taken = 0;
  between = 0;
  running = 0;
  counted = 0;
  pending = pos 0;
  active = pos 0;
  completed = 0;
  failed = 0;
  accepted = 0;
}

pub start : Pool → Pool
start p = if p.started then p else record p { started = true; workers = p.workers + p.concurrency }

-- The guards of Submit and SubmitWithContext; a submit that passes them stands in the select.
pub submit : Pool → Pool
submit p =
    if p.stopped
    then p
    else if not p.started
    then p
    else record p { waiting = p.waiting + 1; pending = p.pending +ℤ pos 1 }

-- `case p.input <- item`
pub send : Pool → Pool
send p = record p { waiting = p.waiting - 1; queued = p.queued + 1; accepted = p.accepted + 1 }

-- `case <-p.done`, and `case <-ctx.Done()` of SubmitWithContext.
pub refuse : Pool → Pool
refuse p = record p { waiting = p.waiting - 1; pending = p.pending +ℤ negsuc 0 }

-- `case item, ok := <-p.input`
pub receive : Pool → Pool
receive p = record p { queued = p.queued - 1; taken = p.taken + 1 }

-- `p.pending.Add(-1)`
pub lower_pending : Pool → Pool
lower_pending p = record p {
  taken = p.taken - 1;
  between = p.between + 1;
  pending = p.pending +ℤ negsuc 0;
}

-- `p.active.Add(1)`
pub raise_active : Pool → Pool
raise_active p = record p {
  between = p.between - 1;
  running = p.running + 1;
  active = p.active +ℤ pos 1;
}

-- The processor returns, with an error or without.
pub processed : Bool → Pool → Pool
processed failure p =
    let out : Pool = record p { running = p.running - 1; counted = p.counted + 1 } in
    if failure
    then record out { failed = out.failed + 1 }
    else record out { completed = out.completed + 1 }

-- `defer p.active.Add(-1)`
pub lower_active : Pool → Pool
lower_active p = record p { counted = p.counted - 1; active = p.active +ℤ negsuc 0 }

-- A worker returns.
pub exit : Pool → Pool
exit p = record p { workers = p.workers - 1; exited = p.exited + 1 }

-- Shutdown up to its wait.
pub shutdown : Pool → Pool
shutdown p = if p.stopped then p else record p { stopped = true; closed = true }

-- The context of the workers is done.
pub cancel : Pool → Pool
cancel p = record p { cancelled = true }

pub resize : ℤ → Pool → Pool
resize n p =
    let wanted = at_least_one n in
    let grown : Pool = record p { workers = p.workers + (wanted - p.concurrency) } in
    record (if ltb p.concurrency wanted then grown else p) { concurrency = wanted }

-- The workers that hold an item.
abbrev pub busy : Pool → ℕ
busy p = p.taken + p.between + p.running + p.counted

pub data Step : Pool → Pool → Type 0 where
  starts : (p : Pool) → Step p (start p)
  submits : (p : Pool) → Step p (submit p)
  sends : (p : Pool) → 0 < p.waiting → p.queued < p.capacity → p.closed ≡ false → Step p (send p)
  refuses : (p : Pool) → 0 < p.waiting → Step p (refuse p)
  receives : (p : Pool) → 0 < p.queued → busy p < p.workers → Step p (receive p)
  lowers_pending : (p : Pool) → 0 < p.taken → Step p (lower_pending p)
  raises_active : (p : Pool) → 0 < p.between → Step p (raise_active p)
  processes : (p : Pool) (failure : Bool) → 0 < p.running → Step p (processed failure p)
  lowers_active : (p : Pool) → 0 < p.counted → Step p (lower_active p)
  exits :
      (p : Pool)
      → busy p < p.workers
      → p.queued ≡ 0
      → (p.closed ≡ true) ⊎ (p.cancelled ≡ true)
      → Step p (exit p)
  shuts_down : (p : Pool) → Step p (shutdown p)
  cancels : (p : Pool) → Step p (cancel p)
  resizes : (p : Pool) (n : ℤ) → Step p (resize n p)

pub data Reachable (size : ℤ) : Pool → Type 0 where
  fresh : Reachable size (new_pool size)
  later : {p q : Pool} → Reachable size p → Step p q → Reachable size q
