-- ===== src/Scheduler/Registry/Firing.antt =====
-- What a look for due syncs leaves behind.
use durable_integrations.Prelude.{
  ◌≡◌, refl, ◌⊎◌, inl, inr, String, true, false, [], ◌∷◌, Bool-cases, subst, some,
}
use durable_integrations.Prelude.Dict.{AllEntries}
use durable_integrations.Prelude.Result.{Result, ok, err, bind_ok}
use durable_integrations.Scheduler.Calendar.{IsCivil}
use durable_integrations.Scheduler.Cron.{Text, CronError}
use durable_integrations.Scheduler.Search.{Moment, next_cron_time}
use durable_integrations.Scheduler.Search.Earliest.{next_cron_time-Earliest}
use durable_integrations.Scheduler.Registry.{
  is_after, Zone, Env, CronSchedule, ScheduledSync, Registry, next_run_in, location_or_utc,
  fire_entry, fire_due_syncs, reschedule,
}

ok_value : (a b : Moment) → ◌≡◌ {A = Result CronError Moment} (ok a) (ok b) → a ≡ b
ok_value a b e = cc

module _ (env : Env) (now : Moment) (civil : IsCivil now.at) where
  -- A next run that was computed lies in the future.
  next_run_in_future :
      (zone : Zone) (expr : Text) (next : Moment)
      → next_run_in env zone expr now ≡ ok next
      → is_after next now ≡ true
  unfolding next_run_in
  next_run_in_future zone expr next h =
      let (minute, found, e) = bind_ok (next_cron_time expr (zone.to_wall now)) h in
      let (fields, _, _, _, later, _) =
        next_cron_time-Earliest expr (zone.to_wall now) minute (zone.wall_civil now civil) found in
      subst (λ m. is_after m now ≡ true) (ok_value (zone.to_utc minute) next e)
        (zone.future now minute later)

  -- Why an entry may still be due: the engine refused to start it, or its expression has no next
  -- time.
  abbrev pub StillDue : String → ScheduledSync → Type 0
  StillDue id ss =
      (env.starts id ss.tenant_id ss.schedule.expression ≡ false)
      ⊎ ((e : CronError) × (next_run_in env (location_or_utc env ss.schedule.timezone)
              ss.schedule.expression now
            ≡ err e))

  abbrev pub IsSettled : String → ScheduledSync → Type 0
  IsSettled id ss = (is_after ss.schedule.next_run now ≡ true) ⊎ StillDue id ss

  fire_entry-IsSettled :
      (id : String) (ss : ScheduledSync) → IsSettled id (fire_entry env now id ss)
  unfolding fire_entry
  fire_entry-IsSettled id ss = elim (Bool-cases (is_after ss.schedule.next_run now)) [
    | inl a ↦ rw a (inl a)
    | inr a ↦ elim (Bool-cases (env.starts id ss.tenant_id ss.schedule.expression)) [
      | inr b ↦ rw (a, b) (inr (inl b))
      | inl b ↦ rw (a, b) (settled (record ss.schedule { last_run = some now }) _ refl)
    ]
  ]
    where
      settled :
          (s : CronSchedule) (next : Result CronError Moment)
          → next_run_in env (location_or_utc env s.timezone) s.expression now ≡ next
          → IsSettled id (record ss { schedule = reschedule env next s })
      settled s (ok m) h =
          inl (next_run_in_future (location_or_utc env s.timezone) s.expression m h)
      settled s (err e) h = inr (inr (e, h))

  -- After a look at `now`, an entry is not due any more, unless the engine refused to start it or
  -- its expression has no next time.
  pub fire_due_syncs-IsSettled : (r : Registry) → AllEntries IsSettled (fire_due_syncs env now r)
  unfolding fire_due_syncs
  fire_due_syncs-IsSettled [] = tt
  fire_due_syncs-IsSettled ((id, ss) ∷ rest) =
      (fire_entry-IsSettled id ss, fire_due_syncs-IsSettled rest)
