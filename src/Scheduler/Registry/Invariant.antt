-- ===== src/Scheduler/Registry/Invariant.antt =====
-- What holds of the registry after any history.
use text.Mathlib.Text.{◌==◌ as str_eq}
use durable_integrations.Prelude.{
  ◌≡◌, refl, String, ◌||◌, not, List, [], ◌∷◌, arith, Bool-cases, Option-cases, inl, inr, length,
  ◌==◌,
}
use durable_integrations.Prelude.Dict.{
  lookup, AllEntries, AllEntries-lookup, insert-AllEntries, remove-AllEntries,
}
use durable_integrations.Prelude.Result.{Result, ok, err, bind_ok, OnOk, bind-OnOk}
use durable_integrations.Scheduler.Cron.{Text, CronError, CronFields, parse_cron_expr}
use durable_integrations.Scheduler.Search.{Moment, next_cron_time}
use durable_integrations.Scheduler.Registry.{
  Zone, Env, CronSchedule, ScheduledSync, SyncRecord, ScheduleError, Registry, next_run_in,
  location, as_schedule_error, store, schedule_sync, unschedule_sync, fire_entry, fire_due_syncs,
  load_entry, load_from_repo, Call, schedules, unschedules, fires, loads, step, run, kept,
}

abbrev pub IsAccepted : Text → Type 0
IsAccepted expr = (fields : CronFields) × (parse_cron_expr expr ≡ ok fields)

-- An entry stands under its own id, and its expression is one that the parser accepts.
abbrev pub IsRegistered : String → ScheduledSync → Type 0
IsRegistered id ss = (ss.sync_id ≡ id) × IsAccepted ss.schedule.expression

abbrev pub IsConsistent : Registry → Type 0
IsConsistent r = AllEntries IsRegistered r

module _ (env : Env) where
  -- A next time was computed, so the expression was accepted.
  next_run_in_accepts :
      (zone : Zone) (expr : Text) (now next : Moment)
      → next_run_in env zone expr now ≡ ok next
      → IsAccepted expr
  unfolding next_run_in next_cron_time
  next_run_in_accepts zone expr now next h =
      let (minute, found, _) = bind_ok (next_cron_time expr (zone.to_wall now)) h in
      let (fields, e, _) = bind_ok (parse_cron_expr expr) found in (fields, e)

  store-IsConsistent :
      (id : String) (s : CronSchedule) (r : Registry)
      → IsConsistent r
      → IsAccepted s.expression
      → IsConsistent (store env id s (lookup id r) r)
  unfolding store
  store-IsConsistent id s r v accepted = elim (Option-cases (lookup id r)) [
    | inl e ↦ rw e (insert-AllEntries IsRegistered id _ r v (refl, accepted))
    | inr (old, e) ↦ rw e (
        insert-AllEntries IsRegistered id _ r v
          ((AllEntries-lookup IsRegistered id r v e).0, accepted))
  ]

  fire_entry-IsRegistered :
      (now : Moment) (id : String) (ss : ScheduledSync)
      → IsRegistered id ss
      → IsRegistered id (fire_entry env now id ss)
  unfolding fire_entry
  fire_entry-IsRegistered now id ss v = ground arith

  fire_due_syncs-IsConsistent :
      (now : Moment) (r : Registry) → IsConsistent r → IsConsistent (fire_due_syncs env now r)
  unfolding fire_due_syncs
  fire_due_syncs-IsConsistent now [] v = tt
  fire_due_syncs-IsConsistent now ((id, ss) ∷ rest) v =
      (fire_entry-IsRegistered now id ss v.0, fire_due_syncs-IsConsistent now rest v.1)

  load_entry-IsConsistent :
      (sr : SyncRecord) (next : Result CronError Moment) (now : Moment) (r : Registry)
      → next_run_in env env.local sr.cron_expr now ≡ next
      → IsConsistent r
      → IsConsistent (load_entry env next sr r)
  unfolding load_entry
  load_entry-IsConsistent sr (err e) now r h v = v
  load_entry-IsConsistent sr (ok next) now r h v =
      insert-AllEntries IsRegistered sr.sync_id _ r v
        (refl, next_run_in_accepts env.local sr.cron_expr now next h)

  load_from_repo-IsConsistent :
      (now : Moment) (records : List SyncRecord) (r : Registry)
      → IsConsistent r
      → IsConsistent (load_from_repo env now records r)
  unfolding load_from_repo
  load_from_repo-IsConsistent now [] r v = v
  load_from_repo-IsConsistent now (sr ∷ rest) r v =
      load_from_repo-IsConsistent now rest _
        (elim (Bool-cases ((length sr.cron_expr == 0) || not (str_eq sr.status "active"))) [
          | inl e ↦ rw e v
          | inr e ↦ rw e (load_entry-IsConsistent sr _ now r refl v)
        ])

  as_schedule_error_ok :
      (m : Result CronError Moment) (next : Moment)
      → as_schedule_error env m ≡ ok next
      → m ≡ ok next
  unfolding as_schedule_error
  as_schedule_error_ok (ok m) next h = cc
  as_schedule_error_ok (err e) next h = cc

  schedule_sync-IsConsistent :
      (now : Moment) (id : String) (s : CronSchedule) (r : Registry)
      → IsConsistent r
      → OnOk IsConsistent (schedule_sync env now id s r)
  unfolding schedule_sync
  schedule_sync-IsConsistent now id s r v = elim (Bool-cases (str_eq id "")) [
    | inl a ↦ rw a tt
    | inr a ↦ elim (Bool-cases (length s.expression == 0)) [
      | inl b ↦ rw (a, b) tt
      | inr b ↦
          rw (a, b)
            (bind-OnOk IsConsistent (location env s.timezone) _ λ zone _.
              bind-OnOk IsConsistent (as_schedule_error env (next_run_in env zone s.expression now))
                _
                λ next e.
                  store-IsConsistent id (record s { next_run = next }) r v
                    (next_run_in_accepts zone s.expression now next
                      (as_schedule_error_ok _ next e)))
    ]
  ]

  step-IsConsistent : (c : Call) (r : Registry) → IsConsistent r → IsConsistent (step env c r)
  unfolding step unschedule_sync
  step-IsConsistent (schedules now id s) r v =
      kept-IsConsistent (schedule_sync env now id s r) (schedule_sync-IsConsistent now id s r v)
    where
      kept-IsConsistent :
          (m : Result ScheduleError Registry) → OnOk IsConsistent m → IsConsistent (kept r m)
      kept-IsConsistent (ok r') h = h
      kept-IsConsistent (err e) h = v
  step-IsConsistent (unschedules id) r v = remove-AllEntries IsRegistered id r v
  step-IsConsistent (fires now) r v = fire_due_syncs-IsConsistent now r v
  step-IsConsistent (loads now records) r v = load_from_repo-IsConsistent now records r v

  -- From a registry in which this holds, whatever the history of calls: each entry of the registry stands under its own sync id, and has
  -- an expression that the parser accepts.
  pub run-IsConsistent :
      (cs : List Call) (r : Registry) → IsConsistent r → IsConsistent (run env cs r)
  unfolding run
  run-IsConsistent [] r v = v
  run-IsConsistent (c ∷ cs) r v = run-IsConsistent cs (step env c r) (step-IsConsistent c r v)
