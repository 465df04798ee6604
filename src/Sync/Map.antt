-- ===== src/Sync/Map.antt =====
-- src/sync/scoped/partition/map.rs: a closure on each of the disjoint shards of a region.
pub mod Confined
pub mod Correct
use melinoe.Prelude.{ℕ, List, [], max, ◌==◌, if◌then◌else◌}
use melinoe.Machine.{Outcome, returned, panicked, mul_usize}
use melinoe.Region.Shard.{CellSlice, WriterShard, new as shard}
use melinoe.Region.ParChunks.{ParChunks, count, get_unchecked_chunk, par_chunks}
use melinoe.Sync.Plan.{PartitionPlan, parts, available_parallelism, resolve}
use melinoe.Sync.Process.{Process}
use melinoe.Sync.Driver.{Ended, results, unwound, blocked, undefined_behaviour, drive}

module _ {P A R : Type 0} (process : Process P) (cells : CellSlice) where
  -- The closure works on the region's memory through the shard that it is given.
  unfoldable pub partition_map_with :
      PartitionPlan
      → (ℕ → WriterShard → List A → Outcome P R × List A)
      → List A
      → Ended P R × List A
  partition_map_with plan f mem =
      let chunk = resolve process.cores plan cells.len in
      let chunk_size = max chunk 1 in
      let par = par_chunks (shard cells) chunk_size in
      let num_chunks = count par in
      if num_chunks == 0
      then (results [], mem)
      else drive process.registry process.threads num_chunks
          (λ index m. f (mul_usize index chunk_size) (get_unchecked_chunk par index) m) mem

  unfoldable pub partition_map :
      ℕ → (ℕ → WriterShard → List A → Outcome P R × List A) → List A → Ended P R × List A
  unfolding partition_map_with
  partition_map n f mem = partition_map_with (parts n) f mem

  unfoldable pub partition_map_available :
      (ℕ → WriterShard → List A → Outcome P R × List A) → List A → Ended P R × List A
  unfolding partition_map_with
  partition_map_available f mem = partition_map_with available_parallelism f mem

-- A call whose results are dropped.
unfoldable pub discard : {P : Type 0} → Ended P (Unit {0}) → Ended P (Unit {0})
discard (results rs) = results []
discard (unwound p slots) = unwound p slots
discard blocked = blocked
discard undefined_behaviour = undefined_behaviour

module _ {P A : Type 0} (process : Process P) (cells : CellSlice) where
  unfoldable pub partition_for_each_with :
      PartitionPlan
      → (ℕ → WriterShard → List A → Outcome P (Unit {0}) × List A)
      → List A
      → Ended P (Unit {0}) × List A
  unfolding discard partition_map_with
  partition_for_each_with plan f mem =
      let (e, m) = partition_map_with process cells plan f mem in (discard e, m)

  unfoldable pub partition_for_each :
      ℕ
      → (ℕ → WriterShard → List A → Outcome P (Unit {0}) × List A)
      → List A
      → Ended P (Unit {0}) × List A
  unfolding discard partition_map
  partition_for_each n f mem = let (e, m) = partition_map process cells n f mem in (discard e, m)

  unfoldable pub partition_for_each_available :
      (ℕ → WriterShard → List A → Outcome P (Unit {0}) × List A)
      → List A
      → Ended P (Unit {0}) × List A
  unfolding discard partition_map_available
  partition_for_each_available f mem =
      let (e, m) = partition_map_available process cells f mem in (discard e, m)
