-- ===== src/Scheduler/Registry/Samples.antt =====
-- The parser, the search and the registry at concrete inputs, and the theorems there.
use durable_integrations.Prelude.{
  ℕ, ◌+◌, ◌*◌, ◌≤◌, ◌↔◌, ◌<◌, ◌≡◌, refl, true, false, none, [], ◌∷◌, arith, lt→ltb,
}
use durable_integrations.Prelude.Bytes.{bytes}
use durable_integrations.Prelude.Dict.{AllEntries}
use durable_integrations.Prelude.Result.{ok}
use durable_integrations.Scheduler.Calendar.{
  Civil, IsCivil, key, next_minute, days_in_month, weekday,
}
use durable_integrations.Scheduler.Cron.{
  Text, CronFields, parse_cron_expr, has, values_from, range_values, fields_from, split_from,
  cut_from, atoi, parse_fields, parse_single_field, parse_parts, parse_part, parse_base, split_step,
  bounded_range, bounded_value,
}
use durable_integrations.Scheduler.Cron.Ranges.{has-range_values}
use durable_integrations.Scheduler.Cron.Rounds.{range_values_settled}
use durable_integrations.Scheduler.Cron.Fields.{IsFilled, parse_cron_expr-IsFilled}
use durable_integrations.Scheduler.Search.{Moment, matches, search, advance, next_cron_time}
use durable_integrations.Scheduler.Search.Earliest.{next_cron_time-Earliest}
use durable_integrations.Scheduler.Registry.{
  Zone, Env, ScheduledSync, Registry, is_after, fire_due_syncs, fires, unschedules, run,
}
use durable_integrations.Scheduler.Registry.Invariant.{IsConsistent, run-IsConsistent}
use durable_integrations.Scheduler.Registry.Firing.{IsSettled, fire_due_syncs-IsSettled}

-- Half past nine on each Monday of the quarter's first month.
abbrev mondays : Text
mondays = bytes "30 9 * 1,4,7-10/3 1"

abbrev mondays_fields : CronFields
mondays_fields = record {
  minutes = 30 ∷ [];
  hours = 9 ∷ [];
  days = range_values 1 31 1;
  months = 1 ∷ 4 ∷ 7 ∷ 10 ∷ [];
  weekdays = 1 ∷ [];
}

mondays_parse : parse_cron_expr mondays ≡ ok mondays_fields
unfolding parse_cron_expr parse_fields parse_single_field parse_parts parse_part parse_base
    split_step bounded_range bounded_value range_values fields_from split_from cut_from atoi
mondays_parse = refl

-- Wednesday 12 November 2025, 10:00:05.
abbrev november : Moment
november = record {
  at = record { year = 2025; month = 11; day = 12; hour = 10; minute = 0 };
  nanos = 5_000_000_000;
}

november-IsCivil : IsCivil november.at
unfolding days_in_month
november-IsCivil = omega arith

abbrev january : Civil
january = record { year = 2026; month = 1; day = 5; hour = 9; minute = 30 }

mondays_next : next_cron_time mondays november ≡ ok january
unfolding next_cron_time search advance next_minute weekday parse_cron_expr parse_fields
    parse_single_field parse_parts parse_part parse_base split_step bounded_range bounded_value
    range_values fields_from split_from cut_from atoi days_in_month
mondays_next = refl

parse_cron_expr-IsFilled_example : IsFilled mondays_fields
unfolding fields_from split_from split_step cut_from atoi
parse_cron_expr-IsFilled_example =
    parse_cron_expr-IsFilled mondays mondays_fields refl mondays_parse

-- The largest step is accepted, and the sums wrap around: on from 31 to a negative value, and to 29.
wrapped :
    parse_single_field (bytes "31-31/9223372036854775807") 1 31
    ≡ ok (
        31 ∷ 9223372036854775838 ∷ 29 ∷ 9223372036854775836 ∷ 27 ∷ 9223372036854775834 ∷ 25
        ∷ 9223372036854775832 ∷ 23 ∷ 9223372036854775830 ∷ 21 ∷ 9223372036854775828 ∷ 19
        ∷ 9223372036854775826 ∷ 17 ∷ 9223372036854775824 ∷ 15 ∷ 9223372036854775822 ∷ 13
        ∷ 9223372036854775820 ∷ 11 ∷ 9223372036854775818 ∷ 9 ∷ 9223372036854775816 ∷ 7
        ∷ 9223372036854775814 ∷ 5 ∷ 9223372036854775812 ∷ 3 ∷ 9223372036854775810 ∷ 1
        ∷ 9223372036854775808 ∷ 18446744073709551615 ∷ [])
unfolding parse_single_field parse_parts parse_part parse_base split_step bounded_range
    bounded_value range_values split_from cut_from atoi
wrapped = refl

-- Of that range a hundred rounds find no more than the ones it is given.
range_values_settled_example :
    values_from 100 31 31 9223372036854775807 ≡ range_values 31 31 9223372036854775807
range_values_settled_example =
    range_values_settled 31 9223372036854775807 (omega arith) (omega arith) 31 100 (omega arith)
      (omega arith) (omega arith)

has-range_values_example :
    (has (range_values 7 10 3) 10 ≡ true) ↔ ((k : ℕ) × (10 ≡ 7 + k * 3) × (10 ≤ 10))
has-range_values_example = has-range_values 7 10 3 10 (omega arith) (omega arith) (omega arith)

next_cron_time-Earliest_example :
    (fields : CronFields) × (parse_cron_expr mondays ≡ ok fields)
    × (matches fields january ≡ true)
    × IsCivil january
    × (key november.at < key january)
    × ((u : Civil)
        → IsCivil u
        → key november.at < key u
        → key u < key january
        → matches fields u ≡ false)
next_cron_time-Earliest_example =
    next_cron_time-Earliest mondays november january november-IsCivil mondays_next

-- Wall clocks that show UTC.
abbrev as_utc : Civil → Moment
as_utc c = record { at = c; nanos = 0 }

as_utc_future : (m : Moment) (c : Civil) → key m.at < key c → is_after (as_utc c) m ≡ true
unfolding is_after
as_utc_future m c h = rw (lt→ltb (key m.at) (key c) h)

abbrev utc : Zone
utc = record { to_wall = λ m. m; to_utc = as_utc; wall_civil = λ m v. v; future = as_utc_future }

abbrev engine : Env
engine = record {
  utc = utc;
  local = utc;
  load_location = λ name. none;
  starts = λ id tenant expr. true;
}

abbrev weekly : ScheduledSync
weekly = record {
  sync_id = "s1";
  tenant_id = "acme";
  schedule = record { expression = mondays; timezone = ""; next_run = november; last_run = none };
}

abbrev registry : Registry
registry = ("s1", weekly) ∷ []

run-IsConsistent_example :
    IsConsistent (run engine (fires november ∷ unschedules "s2" ∷ []) registry)
run-IsConsistent_example =
    run-IsConsistent engine (fires november ∷ unschedules "s2" ∷ []) registry
      ((refl, (mondays_fields, mondays_parse)), tt)

fire_due_syncs-IsSettled_example :
    AllEntries
      (IsSettled engine november november-IsCivil)
      (fire_due_syncs engine november registry)
fire_due_syncs-IsSettled_example =
    fire_due_syncs-IsSettled engine november november-IsCivil registry
