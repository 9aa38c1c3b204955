-- ===== src/Workers/Supervisor/Samples.antt =====
-- A pool between its limits, and the theorems there.
use durable_integrations.Prelude.{◌≡◌, refl, ◌↔◌, ◌⊎◌, some}
use durable_integrations.Workers.Supervisor.{ScaleConfig, HealthStatus, PoolStats, health}
use durable_integrations.Workers.Supervisor.Scaling.{health_iff, DeeperThan, MostFail, SomeFail}

abbrev limits : ScaleConfig
limits = record {
  min_workers = 2;
  max_workers = 10;
  scale_up_threshold = 20;
  scale_down_threshold = 5;
}

abbrev flaky : PoolStats
flaky = record { completed = 8; failed = 2 }

-- The queue is too deep, and yet the pool counts as degraded.
masked : health (some limits) 10 90 flaky ≡ HealthStatus.degraded
unfolding health
masked = refl

health_iff_example :
    ((health (some limits) 10 90 flaky ≡ HealthStatus.unhealthy)
      ↔ (MostFail flaky ⊎ (DeeperThan 2 (some limits) 10 90 × (¬ SomeFail flaky))))
    × ((health (some limits) 10 90 flaky ≡ HealthStatus.degraded) ↔ (
        SomeFail flaky
        ⊎ ((¬ MostFail flaky)
            × DeeperThan 1 (some limits) 10 90
            × (¬ DeeperThan 2 (some limits) 10 90))))
health_iff_example = health_iff (some limits) 10 90 flaky
