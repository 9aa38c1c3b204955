-- ===== src/Lib.antt =====
-- FlowForge moves records between systems: a durable workflow extracts, transforms and loads them,
-- workers do the phases, and a control plane decides when a workflow starts. This library models
-- the parts of it that decide, as functions, and proves what they promise.
--
-- Parts
--
-- * Sync (internal/orchestration): the run of one sync. Signals.antt is the state that pause, resume,
--   cancel and modify signals change (signals/signals.go). Types.antt holds the parameters and results
--   of the phases (workflows/types.go, types/types.go). Orchestrator.antt is the workflow function
--   SyncOrchestrator with its helpers (workflows/sync_orchestrator.go): it looks for signals, starts
--   a child workflow per phase, and records the run. What the child workflows return, the signals that
--   have arrived at each look and the clock are an argument; what the run asks of the engine is a list
--   of effects in order. A blocked receive is a run that waits. Phases.antt holds the child workflows
--   (workflows/extract.go, transform.go, load.go), which take what their activities answer, and
--   Whole.antt starts these from the orchestrator. Activities.antt holds the activities that transform
--   records: field mappings, coercion of types and duplicates (activities/transform_activities.go).
-- * Partitioner (internal/worker/extract/partitioner.go): CalculatePartitions, which cuts a source
--   into chunks for parallel extraction.
-- * Load (internal/worker/load): Batcher.antt is the buffer in front of a destination (batcher.go): one
--   function for each part of a method under the lock, and the hand-over of batches after the unlock as
--   tasks, so that calls, timer and flushes interleave in any order. Worker.antt writes batches with
--   retries and keeps the dead letter queue (worker.go). The flush function and the destination
--   are arguments.
-- * Scheduler (internal/controlplane/scheduler/scheduler.go): Cron.antt is the parser of 5-field
--   expressions, Calendar.antt the civil time they are matched against, Search.antt NextCronTime, and
--   Registry.antt the scheduled syncs that are registered, removed, loaded and fired.
-- * Security (internal/security): Rbac.antt is CheckPermission with scopes and roles, and the role store
--   in memory (rbac/rbac.go); Policy.antt the built-in roles (rbac/policy.go); Keyring.antt the keys by
--   version over a cipher that is a parameter (encryption/keyring.go).
-- * Transform (internal/worker/transform): Dedup.antt is the Bloom filter with its hash (dedup.go),
--   Mapper.antt the paths into records (mapper.go), Columns.antt a batch in columns (pkg/arrow/buffer.go).
--   Worker.antt is the worker that sends a batch through the filter, the columns and the mapper, in
--   chunks (worker.go); the mapper is a parameter there. Coercer.antt is the table of conversions
--   (coercer.go).
-- * Mapping (internal/mapping): Visual.antt is the model behind the mapping view (visual/model.go);
--   Expression.antt the engine of expressions (expression/engine.go), a tokenizer and a parser that
--   evaluates while it reads, with its functions. A separate description gives the meaning of an
--   expression as a tree and the way it is written. Auto.antt suggests mappings by the edit distance
--   of names and a greedy choice (auto/automapper.go).
-- * Schema (internal/controlplane/schema/manager.go): the comparison of two versions of a schema.
-- * Workers (internal/worker/pool): Pool.antt is the bounded pool (pool.go), as a step relation in which
--   submitters, workers and a shutdown interleave; Supervisor.antt holds its scaling and its health
--   (supervisor.go).
-- * Embedded (internal/embedded): Lifecycle.antt is the manager of embedded integrations over its
--   repository in memory (lifecycle/manager.go), Oauth.antt the authorization flows and tokens of their
--   connectors (oauth/manager.go), as a state that calls in any order change.
--
-- The scheduler starts syncs, a sync starts phases, and the phases' workers use the partitioner, the
-- pools, the filter, the mappings and the load worker.
--
-- Prelude holds what they share: lists, dictionaries in the order of insertion, results, integers,
-- texts and strings of bytes.
--
-- Bounds and fuel
--
-- Integers are unbounded; a 64-bit integer of the source stands for a count of records, a size or a
-- field of a date, and the parser of decimal numbers rejects what does not fit. The lifetime
-- of a token, whose product in nanoseconds wraps, the steps of cron ranges and the bounds of `substring` are
-- exceptions: they wrap. The loop of the load worker has as many
-- rounds as there are records, which is enough for each positive batch size. The transform worker has
-- as many chunks as the source computes, which the records fit in.
-- The loop of NextCronTime has the source's own limit of 4 * 366 * 24 * 60 rounds. The loop over a range
-- of a cron field adds in 64 bits, and end + 4 rounds are enough also when its sum wraps around. A pool that is shut down has at most six steps left per
-- item and one per worker, which bounds its end. The tokenizer has a round per rune, and the parser of
-- expressions a depth of four per token and four more. The loop that fetches batches has no bound in the
-- source: it has fuel here, and `none` stands for a loop that goes on.
--
-- Not modelled
--
-- Logs, metrics and heartbeats have no effect on the results. Calls hold their lock throughout or are
-- taken as atomic, but for those of the pool and of the batcher, which interleave. Time zones have a fixed offset, so no clock is put back. The backoff delays
-- are floating point. In expressions floating point, the tables of unicode, regular expressions and dates
-- are parameters, and so are JSON, sorting and the letter cases where records, scores and names need them.
-- Connectors, HTTP and GraphQL handlers, storage, ciphers and the transports of the tool
-- gateway are input and output or rest on libraries.
pub mod Prelude
pub mod Partitioner
pub mod Embedded
pub mod Load
pub mod Mapping
pub mod Schema
pub mod Scheduler
pub mod Security
pub mod Sync
pub mod Transform
pub mod Workers
