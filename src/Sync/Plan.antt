-- ===== src/Sync/Plan.antt =====
-- src/sync/scoped/partition/plan.rs: how long the shards of a region are.
pub mod Bounds
use melinoe.Prelude.{ℕ, Option, none, some, ◌==◌, if◌then◌else◌, max}
use melinoe.Region.Tiling.{partition_count}

-- `Parts`, `AvailableParallelism` and `ChunkSize`. A `NonZeroUsize` is a number that `IsPlan` holds
-- above 0.
pub data PartitionPlan : Type 0 where
  at_most_parts : ℕ → PartitionPlan
  hardware_parts : PartitionPlan
  chunks_of : ℕ → PartitionPlan

unfoldable pub nonzero_or_one : ℕ → ℕ
nonzero_or_one value = if value == 0 then 1 else value

unfoldable pub parts : ℕ → PartitionPlan
unfolding nonzero_or_one
parts n = at_most_parts (nonzero_or_one n)

unfoldable pub available_parallelism : PartitionPlan
available_parallelism = hardware_parts

unfoldable pub chunk_size : ℕ → PartitionPlan
unfolding nonzero_or_one
chunk_size n = chunks_of (nonzero_or_one n)

unfoldable pub chunk_for_parts : ℕ → ℕ → ℕ
chunk_for_parts len n = max (partition_count len n) 1

-- `cores` is what `std::thread::available_parallelism()` reports, if it can.
unfoldable pub chunk_len_for : Option ℕ → PartitionPlan → ℕ → ℕ
chunk_len_for cores (at_most_parts n) len = chunk_for_parts len n
chunk_len_for cores hardware_parts len = chunk_for_parts len (elim cores [ none ↦ 1 | some n ↦ n ])
chunk_len_for cores (chunks_of n) len = n

unfoldable pub resolve : Option ℕ → PartitionPlan → ℕ → ℕ
unfolding chunk_len_for
resolve cores plan len = chunk_len_for cores plan len
