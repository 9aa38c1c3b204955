-- ===== src/Workers/Supervisor/Scaling.antt =====
-- Where scaling leads, and what the health rule masks.
use durable_integrations.Prelude.{ℕ, ◌*◌, ◌≤◌, ◌<◌, ◌≡◌, ◌⊎◌, ◌↔◌, Option, none, some, arith}
use durable_integrations.Workers.Supervisor.{
  ScaleConfig, HealthStatus, PoolStats, evaluate_scaling, health, depth_status,
}

-- A pool is resized only in the direction of its load: up, when it is loaded above the upper
-- threshold, by at least one worker and to no more than the maximum; down, when it is loaded below the lower
-- threshold, by at least one and to no less than the minimum.
pub evaluate_scaling_directed :
    (c : ScaleConfig) (depth current size : ℕ)
    → evaluate_scaling c depth current ≡ some size
    → ((c.scale_up_threshold < depth) × (current < size) × (size ≤ c.max_workers))
      ⊎ ((depth < c.scale_down_threshold) × (size < current) × (c.min_workers ≤ size))
unfolding evaluate_scaling
evaluate_scaling_directed c depth current size h = ground arith

-- A pool is not resized exactly if it is not loaded above the upper threshold or has its maximum, and
-- is not loaded below the lower threshold or has its minimum.
pub evaluate_scaling_rests :
    (c : ScaleConfig) (depth current : ℕ)
    → (evaluate_scaling c depth current ≡ none) ↔ (
        ((depth ≤ c.scale_up_threshold) ⊎ (c.max_workers ≤ current))
        × ((c.scale_down_threshold ≤ depth) ⊎ (current ≤ c.min_workers)))
unfolding evaluate_scaling
evaluate_scaling_rests c depth current = ground arith

-- Some items were completed, and failures are more than half of all.
abbrev pub MostFail : PoolStats → Type 0
MostFail s = (0 < s.completed) × (s.completed < s.failed)

-- Failures are more than a tenth and at most half of all.
abbrev pub SomeFail : PoolStats → Type 0
SomeFail s = (s.completed < s.failed * 9) × (s.failed ≤ s.completed)

-- The queue is more than `n` times as deep as a busy pool's: its threshold if it scales, and else two
-- items for each worker.
abbrev pub DeeperThan : ℕ → Option ScaleConfig → ℕ → ℕ → Type 0
DeeperThan n (some c) concurrency depth = n * c.scale_up_threshold < depth
DeeperThan n none concurrency depth = (0 < concurrency) × (n * (2 * concurrency) < depth)

-- A pool is unhealthy exactly if most of its items fail, with some completed, or if its queue is
-- more than twice as deep as that of a busy pool and its failures are not more than a tenth and at
-- most half of all. It is degraded exactly if its failures are that many, however deep its queue is,
-- or if its failures are fewer, or no item failed or none was completed, and its queue is deeper than
-- that of a busy pool but not more than twice as deep.
pub health_iff :
    (config : Option ScaleConfig) (concurrency depth : ℕ) (s : PoolStats)
    → ((health config concurrency depth s ≡ HealthStatus.unhealthy)
        ↔ (MostFail s ⊎ (DeeperThan 2 config concurrency depth × (¬ SomeFail s))))
      × ((health config concurrency depth s ≡ HealthStatus.degraded) ↔ (
          SomeFail s
          ⊎ ((¬ MostFail s)
              × DeeperThan 1 config concurrency depth
              × (¬ DeeperThan 2 config concurrency depth))))
unfolding health depth_status
health_iff (some c) concurrency depth s = (ground arith, ground arith)
health_iff none concurrency depth s = (ground arith, ground arith)
