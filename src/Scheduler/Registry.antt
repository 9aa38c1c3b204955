-- ===== src/Scheduler/Registry.antt =====
-- The registry of scheduled syncs of scheduler.go. Time zones, the repository of syncs and the
-- workflow engine are parameters: a zone turns a moment into its wall clock and a wall clock's
-- minute back into a moment. A nil client is an engine that starts everything. Each method holds
-- the lock throughout, so a history is a sequence of whole calls.
pub mod Invariant
pub mod Firing
mod Samples
use text.Mathlib.Text.{◌==◌ as str_eq}
use durable_integrations.Prelude.{
  ℕ, ◌+◌, ◌*◌, ◌<◌, ◌≡◌, String, Bool, true, false, ◌&&◌, ◌||◌, not, Option, none, some, List, [],
  ◌∷◌, ltb, ◌==◌, if◌then◌else◌, length,
}
use durable_integrations.Prelude.Dict.{Dict, lookup, insert, remove}
use durable_integrations.Prelude.Result.{Result, ok, err, ◌>>=◌}
use durable_integrations.Scheduler.Calendar.{Civil, IsCivil, key}
use durable_integrations.Scheduler.Cron.{Text, CronError}
use durable_integrations.Scheduler.Search.{Moment, next_cron_time}

-- `a.After(b)`, for moments of one zone.
unfoldable pub is_after : Moment → Moment → Bool
is_after a b = ltb (key b.at) (key a.at) || ((key b.at == key a.at) && ltb b.nanos a.nanos)

-- A zone at a fixed offset from UTC, in whole minutes; clocks that are put back and forth are not
-- modelled. `to_utc` of a minute that the wall clock has not reached lies in the future.
pub record Zone : Type 0 where
  pub to_wall : Moment → Moment
  pub to_utc : Civil → Moment
  pub wall_civil : (m : Moment) → IsCivil m.at → IsCivil (to_wall m).at
  pub future : (m : Moment) (c : Civil) → key (to_wall m).at < key c → is_after (to_utc c) m ≡ true

-- UTC itself, the zone of the server, the database of zones, and the engine's answer to `StartScheduledSync`.
pub record Env : Type 0 where
  pub utc : Zone
  pub local : Zone
  pub load_location : String → Option Zone
  pub starts : String → String → Text → Bool

pub record CronSchedule : Type 0 where
  pub expression : Text
  pub timezone : String
  pub next_run : Moment
  pub last_run : Option Moment

pub record ScheduledSync : Type 0 where
  pub sync_id : String
  pub tenant_id : String
  pub schedule : CronSchedule

pub record SyncRecord : Type 0 where
  pub sync_id : String
  pub tenant_id : String
  pub cron_expr : Text
  pub status : String

pub data ScheduleError : Type 0 where
  sync_id_required expression_required invalid_timezone : ScheduleError
  invalid_cron : CronError → ScheduleError

abbrev pub Registry : Type 0
Registry = Dict ScheduledSync

module _ (env : Env) where
  pub next_run_in : Zone → Text → Moment → Result CronError Moment
  next_run_in zone expr now = next_cron_time expr (zone.to_wall now) >>= λ c. ok (zone.to_utc c)

  -- `time.LoadLocation`, for a zone that is named.
  location : String → Result ScheduleError Zone
  location name = if str_eq name "" then ok env.utc else elim (env.load_location name) [
    | some zone ↦ ok zone
    | none ↦ err ScheduleError.invalid_timezone
  ]

  as_schedule_error : Result CronError Moment → Result ScheduleError Moment
  as_schedule_error (ok m) = ok m
  as_schedule_error (err e) = err (ScheduleError.invalid_cron e)

  store : String → CronSchedule → Option ScheduledSync → Registry → Registry
  store id schedule (some existing) r = insert id (record existing { schedule = schedule }) r
  store id schedule none r =
      insert id (record { sync_id = id; tenant_id = ""; schedule = schedule }) r

  pub schedule_sync : Moment → String → CronSchedule → Registry → Result ScheduleError Registry
  unfolding store
  schedule_sync now id schedule r =
      if str_eq id ""
      then err ScheduleError.sync_id_required
      else if length schedule.expression == 0
      then err ScheduleError.expression_required
      else do
        zone ← location schedule.timezone
        next ← as_schedule_error (next_run_in zone schedule.expression now)
        ok (store id (record schedule { next_run = next }) (lookup id r) r)

  pub unschedule_sync : String → Registry → Registry
  unschedule_sync id r = remove id r

  -- The zone of a stored schedule; one that is gone from the database counts as UTC.
  pub location_or_utc : String → Zone
  location_or_utc name =
      if str_eq name ""
      then env.utc
      else elim (env.load_location name) [ some zone ↦ zone | none ↦ env.utc ]

  reschedule : Result CronError Moment → CronSchedule → CronSchedule
  reschedule (ok next) s = record s { next_run = next }
  reschedule (err e) s = s

  -- One round of the loop of `fireDueSyncs`.
  pub fire_entry : Moment → String → ScheduledSync → ScheduledSync
  unfolding reschedule
  fire_entry now id ss =
      if is_after ss.schedule.next_run now
      then ss
      else if not (env.starts id ss.tenant_id ss.schedule.expression)
      then ss
      else record ss {
        schedule =
            reschedule
              (next_run_in (location_or_utc ss.schedule.timezone) ss.schedule.expression now)
              (record ss.schedule { last_run = some now });
      }

  pub fire_due_syncs : Moment → Registry → Registry
  fire_due_syncs now [] = []
  fire_due_syncs now ((id, ss) ∷ rest) = (id, fire_entry now id ss) ∷ fire_due_syncs now rest

  load_entry : Result CronError Moment → SyncRecord → Registry → Registry
  load_entry (err e) sr r = r
  load_entry (ok next) sr r =
      insert sr.sync_id
        (record {
          sync_id = sr.sync_id;
          tenant_id = sr.tenant_id;
          schedule = record {
            expression = sr.cron_expr;
            timezone = "";
            next_run = next;
            last_run = none;
          };
        })
        r

  -- `loadFromRepo`, once the records are read.
  pub load_from_repo : Moment → List SyncRecord → Registry → Registry
  unfolding load_entry
  load_from_repo now [] r = r
  load_from_repo now (sr ∷ rest) r = load_from_repo now rest (
      if (length sr.cron_expr == 0) || not (str_eq sr.status "active")
      then r
      else load_entry (next_run_in env.local sr.cron_expr now) sr r)

pub data Call : Type 0 where
  schedules : Moment → String → CronSchedule → Call
  unschedules : String → Call
  fires : Moment → Call
  loads : Moment → List SyncRecord → Call

-- A call that fails leaves the registry as it was.
abbrev kept : Registry → Result ScheduleError Registry → Registry
kept r (ok r') = r'
kept r (err e) = r

module _ (env : Env) where
  pub step : Call → Registry → Registry
  step (schedules now id s) r = kept r (schedule_sync env now id s r)
  step (unschedules id) r = unschedule_sync env id r
  step (fires now) r = fire_due_syncs env now r
  step (loads now records) r = load_from_repo env now records r

  pub run : List Call → Registry → Registry
  run [] r = r
  run (c ∷ cs) r = run cs (step c r)
