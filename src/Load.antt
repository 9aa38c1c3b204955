-- ===== src/Load.antt =====
-- internal/worker/load: batches of records on their way to a destination.
-- Batcher.antt is batcher.go; Worker.antt is worker.go.
pub mod Batcher
pub mod Worker
