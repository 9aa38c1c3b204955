-- ===== src/Partitioner.antt =====
-- internal/worker/extract/partitioner.go: how an extraction is cut into chunks.
-- Positions are the numbers that the code prints by `%d`, before printing.
pub mod Offsets
mod Samples
use durable_integrations.Prelude.{
  ℕ, zero, suc, ◌+◌, String, List, [], ◌∷◌, Bool, true, false, ltb, if◌then◌else◌,
}
use durable_integrations.Prelude.Int.{ℤ, pos, negsuc, ◌+ℤ◌, ltbℤ, eqbℤ, quot, rem}

pub record Partition : Type 0 where
  pub id : ℕ
  pub kind : String
  pub start : ℤ
  pub end : ℤ

-- `if maxPartitionSize <= 0 { maxPartitionSize = 1 }`
abbrev pub clamp_size : ℤ → ℕ
clamp_size (pos zero) = 1
clamp_size (pos (suc m)) = suc m
clamp_size (negsuc m) = 1

-- `if numPartitions < 1 { numPartitions = 1 }`
abbrev pub at_least_one : ℤ → ℕ
at_least_one (pos zero) = 1
at_least_one (pos (suc n)) = suc n
at_least_one (negsuc n) = 1

-- The number of partitions: the quotient, and one more for a remainder.
pub num_partitions : ℤ → ℕ → ℕ
num_partitions total size =
    let whole = quot total size in
    at_least_one (if eqbℤ (rem total size) (pos 0) then whole else whole +ℤ pos 1)

-- The body of the loop of `CalculatePartitions`, for `rounds` more values of `i`.
pub offsets_from : ℕ → ℕ → ℤ → ℤ → ℤ → List Partition
offsets_from zero i per remainder offset = []
offsets_from (suc rounds) i per remainder offset =
    let size = if ltbℤ (pos i) remainder then per +ℤ pos 1 else per in
    record { id = i; kind = "offset_range"; start = offset; end = offset +ℤ size +ℤ negsuc 0 }
    ∷ offsets_from rounds (i + 1) per remainder (offset +ℤ size)

pub calculate_partitions : ℤ → ℤ → List Partition
calculate_partitions total max_size =
    let n = num_partitions total (clamp_size max_size) in
    offsets_from n 0 (quot total n) (rem total n) (pos 0)
