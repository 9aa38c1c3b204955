-- ===== src/Transform.antt =====
-- internal/worker/transform: what is done to the records on their way. Dedup.antt is dedup.go,
-- Mapper.antt the paths of mapper.go, Worker.antt worker.go, Coercer.antt coercer.go. Columns.antt is
-- pkg/arrow/buffer.go.
pub mod Dedup
pub mod Mapper
pub mod Columns
pub mod Worker
pub mod Coercer
