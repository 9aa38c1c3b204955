-- ===== src/Workers/Pool/Samples.antt =====
-- A pool of one worker that is given one item, and the theorems there.
use durable_integrations.Prelude.{◌+◌, ◌≡◌, refl, inl, false, arith}
use durable_integrations.Prelude.Int.{pos}
use durable_integrations.Workers.Pool.{
  Pool, starts, submits, sends, receives, lowers_pending, raises_active, processes, lowers_active,
  exits, shuts_down, Reachable, fresh, later, new_pool, start, submit, send, receive, lower_pending,
  raise_active, processed, lower_active, exit, shutdown,
}
use durable_integrations.Workers.Pool.Ledger.{IsSound, Reachable-IsSound}
use durable_integrations.Workers.Pool.Drain.{Steps, shutdown_finishes}

abbrev with_item : Pool
with_item = send (submit (start (new_pool (pos 1))))

with_item_reached : Reachable (pos 1) with_item
unfolding new_pool start submit send
with_item_reached =
    later (later (later fresh (starts (new_pool (pos 1)))) (submits (start (new_pool (pos 1)))))
      (sends (submit (start (new_pool (pos 1)))) (omega arith) (omega arith) refl)

-- The worker has taken the item and lowered `pending`, and not yet raised `active`.
abbrev in_hand : Pool
in_hand = lower_pending (receive with_item)

in_hand_reached : Reachable (pos 1) in_hand
unfolding new_pool start submit send receive lower_pending
in_hand_reached =
    later (later with_item_reached (receives with_item (omega arith) (omega arith)))
      (lowers_pending (receive with_item) (omega arith))

abbrev closing : Pool
closing = shutdown in_hand

closing_reached : Reachable (pos 1) closing
closing_reached = later in_hand_reached (shuts_down in_hand)

abbrev at_end : Pool
at_end = exit (lower_active (processed false (raise_active closing)))

at_end_reached : Reachable (pos 1) at_end
unfolding new_pool start submit send receive lower_pending shutdown raise_active processed
    lower_active exit
at_end_reached =
    later
      (later
        (later (later closing_reached (raises_active closing (omega arith)))
          (processes (raise_active closing) false (omega arith)))
        (lowers_active (processed false (raise_active closing)) (omega arith)))
      (exits (lower_active (processed false (raise_active closing))) (omega arith) refl (inl refl))

Reachable-IsSound_example : IsSound at_end
Reachable-IsSound_example = Reachable-IsSound at_end_reached

shutdown_finishes_example :
    (q : Pool) × Steps closing q × (q.workers ≡ 0) × (closing.accepted ≡ q.completed + q.failed)
unfolding new_pool start submit send receive lower_pending shutdown
shutdown_finishes_example = shutdown_finishes closing_reached refl refl refl
