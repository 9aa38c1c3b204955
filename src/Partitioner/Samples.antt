-- ===== src/Partitioner/Samples.antt =====
-- Runs of the partitioners, and the theorems at concrete inputs.
use durable_integrations.Prelude.{ℕ, ◌+◌, ◌*◌, ◌≤◌, ◌<◌, ◌≡◌, refl, [], ◌∷◌, ◌⊎◌, length, map}
use durable_integrations.Prelude.Int.{ℤ, pos, negsuc}
use durable_integrations.Partitioner.{Partition, num_partitions, offsets_from, calculate_partitions}
use durable_integrations.Partitioner.Offsets.{Tiles, calculate_partitions-Tiles}

ten_by_four :
    map {B = ℤ × ℤ} (λ (p : Partition). (p.start, p.end)) (calculate_partitions (pos 10) (pos 4))
    ≡ (pos 0, pos 3) ∷ (pos 4, pos 6) ∷ (pos 7, pos 9) ∷ []
unfolding calculate_partitions num_partitions offsets_from
ten_by_four = refl

-- An empty extraction is one chunk, which ends before it starts.
nothing_to_cut :
    map {B = ℤ × ℤ} (λ (p : Partition). (p.start, p.end)) (calculate_partitions (pos 0) (pos 4))
    ≡ (pos 0, negsuc 0) ∷ []
unfolding calculate_partitions num_partitions offsets_from
nothing_to_cut = refl

calculate_partitions-Tiles_example :
    (least most : ℕ) × (most ≤ least + 1)
    × (most ≤ 4)
    × Tiles least most 0 0 10 (calculate_partitions (pos 10) (pos 4))
    × ((length (calculate_partitions (pos 10) (pos 4)) ≡ 1)
        ⊎ (length (calculate_partitions (pos 10) (pos 4)) * 4 < 14))
calculate_partitions-Tiles_example = calculate_partitions-Tiles 10 (pos 4)
