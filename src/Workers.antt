-- ===== src/Workers.antt =====
-- internal/worker/pool: the pools of workers and what watches over them. Pool.antt is pool.go,
-- Supervisor.antt the scaling and the health rule of supervisor.go.
pub mod Pool
pub mod Supervisor
