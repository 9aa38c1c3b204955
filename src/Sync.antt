-- ===== src/Sync.antt =====
-- internal/orchestration: the durable sync workflow, its signals and its phases.
-- Signals.antt is signals/signals.go; Types.antt is workflows/types.go; Orchestrator.antt is
-- workflows/sync_orchestrator.go; Phases.antt is the child workflows, and Whole.antt the orchestrator
-- with them; Activities.antt is activities/transform_activities.go. The engine that runs child
-- workflows and activities is not part of the repository: what it delivers is an argument, `Env`.
pub mod Signals
pub mod Types
pub mod Orchestrator
pub mod Phases
pub mod Whole
pub mod Activities
