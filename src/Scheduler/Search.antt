-- ===== src/Scheduler/Search.antt =====
-- NextCronTime of scheduler.go: forward from the next minute, in steps of a month, a day, an hour
-- or a minute, up to a number of rounds.
pub mod Earliest
use durable_integrations.Prelude.{
  ℕ, zero, suc, ◌+◌, ◌*◌, Bool, true, false, ◌&&◌, ◌||◌, not, if◌then◌else◌,
}
use durable_integrations.Prelude.Result.{Result, ok, err, ◌>>=◌}
use durable_integrations.Scheduler.Calendar.{
  Civil, weekday, next_month, next_day, next_hour, next_minute,
}
use durable_integrations.Scheduler.Cron.{Text, CronError, CronFields, parse_cron_expr, has}

-- A point in time: a minute, and the nanoseconds that have passed of it.
pub record Moment : Type 0 where
  pub at : Civil
  pub nanos : ℕ

abbrev pub matches_day : CronFields → Civil → Bool
matches_day fields t = has fields.days t.day && has fields.weekdays (weekday t)

abbrev pub matches : CronFields → Civil → Bool
matches fields t =
    has fields.months t.month
    && matches_day fields t
    && has fields.hours t.hour
    && has fields.minutes t.minute

-- What the loop makes of a minute that does not match.
unfoldable pub advance : CronFields → Civil → Civil
advance fields t =
    if not (has fields.months t.month)
    then next_month t
    else if not (matches_day fields t)
    then next_day t
    else if not (has fields.hours t.hour)
    then next_hour t
    else next_minute t

unfoldable pub search : ℕ → CronFields → Civil → Result CronError Civil
search zero fields t = err CronError.no_match
search (suc fuel) fields t =
    let rest = search fuel fields (advance fields t) in if matches fields t then ok t else rest

-- `4 * 366 * 24 * 60`
abbrev pub max_iterations : ℕ
max_iterations = 2108160

unfoldable pub next_cron_time : Text → Moment → Result CronError Civil
next_cron_time expr after = do
  fields ← parse_cron_expr expr
  search max_iterations fields (next_minute after.at)
