-- ===== src/Workers/Supervisor.antt =====
-- internal/worker/pool/supervisor.go: how a pool is scaled and how its health is judged. Depths and
-- sizes are not negative. The failure rate is compared as an exact fraction.
pub mod Scaling
mod Samples
use durable_integrations.Prelude.{
  ℕ, suc, ◌+◌, ◌-◌, ◌*◌, ◌/◌, Bool, true, false, ◌&&◌, Option, none, some, ltb, if◌then◌else◌,
}

pub record ScaleConfig : Type 0 where
  pub min_workers : ℕ
  pub max_workers : ℕ
  pub scale_up_threshold : ℕ
  pub scale_down_threshold : ℕ

pub data HealthStatus : Type 0 where
  healthy degraded unhealthy : HealthStatus

-- The fields of PoolStats that the rule reads.
pub record PoolStats : Type 0 where
  pub completed : ℕ
  pub failed : ℕ

abbrev at_least_one : ℕ → ℕ
at_least_one n = if ltb n 1 then 1 else n

abbrev at_most : ℕ → ℕ → ℕ
at_most limit n = if ltb limit n then limit else n

abbrev at_least : ℕ → ℕ → ℕ
at_least limit n = if ltb n limit then limit else n

-- The size that evaluateScaling gives a pool whose cooldown has passed, if it resizes it.
unfoldable pub evaluate_scaling : ScaleConfig → ℕ → ℕ → Option ℕ
evaluate_scaling c depth current =
    if ltb c.scale_up_threshold depth && ltb current c.max_workers
    then some (at_most c.max_workers (current + at_least_one (current / 2)))
    else if ltb depth c.scale_down_threshold && ltb c.min_workers current
    then some (at_least c.min_workers (current - at_least_one (current / 4)))
    else none

-- The sizes that ScaleUp and ScaleDown ask for.
unfoldable pub scale_up : Option ScaleConfig → ℕ → ℕ → ℕ
scale_up none current delta = current + delta
scale_up (some c) current delta = at_most c.max_workers (current + delta)

abbrev floor : Option ScaleConfig → ℕ → ℕ
floor none n = n
floor (some c) n = at_least c.min_workers n

-- A difference below zero ends up at the same floor as zero does.
unfoldable pub scale_down : Option ScaleConfig → ℕ → ℕ → ℕ
scale_down config current delta = at_least_one (floor config (current - delta))

unfoldable pub depth_status : Option ScaleConfig → ℕ → ℕ → HealthStatus
depth_status (some c) concurrency depth =
    if ltb (c.scale_up_threshold * 2) depth
    then HealthStatus.unhealthy
    else if ltb c.scale_up_threshold depth
    then HealthStatus.degraded
    else HealthStatus.healthy
depth_status none concurrency depth =
    if ltb 0 concurrency && ltb (concurrency * 4) depth
    then HealthStatus.unhealthy
    else if ltb 0 concurrency && ltb (concurrency * 2) depth
    then HealthStatus.degraded
    else HealthStatus.healthy

-- The status of one pool in HealthCheck.
unfoldable pub health : Option ScaleConfig → ℕ → ℕ → PoolStats → HealthStatus
health config concurrency depth stats =
    let by_depth = depth_status config concurrency depth in
    if ltb 0 stats.failed && ltb 0 stats.completed
    then if ltb (stats.failed + stats.completed) (stats.failed * 2)
      then HealthStatus.unhealthy
      else if ltb (stats.failed + stats.completed) (stats.failed * 10)
      then HealthStatus.degraded
      else by_depth
    else by_depth
