-- ===== src/Scheduler.antt =====
-- internal/controlplane/scheduler/scheduler.go. Cron.antt is the 5-field parser, Calendar.antt the
-- civil time that it is matched against, Search.antt is NextCronTime.
pub mod Cron
pub mod Calendar
pub mod Search
pub mod Registry
