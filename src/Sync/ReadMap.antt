-- ===== src/Sync/ReadMap.antt =====
-- src/sync/scoped/partition/read_map.rs: a closure on each of the sub-slices of a shared slice.
pub mod Correct
use melinoe.Prelude.{
  ℕ, ◌-◌, Bool, Option, none, some, List, [], length, slice, min, max, ltb, ◌||◌, ◌==◌,
  if◌then◌else◌,
}
use melinoe.Machine.{Outcome, returned, panicked, add_usize, mul_usize}
use melinoe.Region.Tiling.{partition_count}
use melinoe.Sync.Plan.{PartitionPlan, parts, available_parallelism, resolve}
use melinoe.Sync.Process.{Process}
use melinoe.Sync.Driver.{Ended, results, drive}
use melinoe.Sync.Map.{discard}

-- `&xs[start..end]`; `none` is the panic of an index out of range.
unfoldable pub index_range {ℓ} : {A : Type ℓ} → List A → ℕ → ℕ → Option (List A)
index_range xs start end =
    if ltb end start || ltb (length xs) end then none else some (slice xs start (end - start))

-- The closure reads its sub-slice; `S` is what else it works on.
module _ {P A R S : Type 0} (process : Process P) (xs : List A) where
  unfoldable pub partition_read_map_with :
      PartitionPlan → (ℕ → List A → S → Outcome P R × S) → S → Ended P R × S
  unfolding index_range
  partition_read_map_with plan f s =
      let chunk = resolve process.cores plan (length xs) in
      let chunk_size = max chunk 1 in
      let slice_len = length xs in
      let num_chunks = partition_count slice_len chunk_size in
      if num_chunks == 0
      then (results [], s)
      else drive process.registry process.threads num_chunks
          (λ index st.
            let start = mul_usize index chunk_size in
            let end = min (add_usize start chunk_size) slice_len in
            elim (index_range xs start end) [
              | none ↦ (panicked process.bounds_panic, st)
              | some shard ↦ f start shard st
            ])
          s

  unfoldable pub partition_read_map : ℕ → (ℕ → List A → S → Outcome P R × S) → S → Ended P R × S
  unfolding partition_read_map_with
  partition_read_map n f s = partition_read_map_with (parts n) f s

  unfoldable pub partition_read_map_available :
      (ℕ → List A → S → Outcome P R × S) → S → Ended P R × S
  unfolding partition_read_map_with
  partition_read_map_available f s = partition_read_map_with available_parallelism f s

module _ {P A S : Type 0} (process : Process P) (xs : List A) where
  unfoldable pub partition_read_for_each_with :
      PartitionPlan → (ℕ → List A → S → Outcome P (Unit {0}) × S) → S → Ended P (Unit {0}) × S
  unfolding discard partition_read_map_with
  partition_read_for_each_with plan f s =
      let (e, t) = partition_read_map_with process xs plan f s in (discard e, t)

  unfoldable pub partition_read_for_each :
      ℕ → (ℕ → List A → S → Outcome P (Unit {0}) × S) → S → Ended P (Unit {0}) × S
  unfolding discard partition_read_map
  partition_read_for_each n f s = let (e, t) = partition_read_map process xs n f s in (discard e, t)

  unfoldable pub partition_read_for_each_available :
      (ℕ → List A → S → Outcome P (Unit {0}) × S) → S → Ended P (Unit {0}) × S
  unfolding discard partition_read_map_available
  partition_read_for_each_available f s =
      let (e, t) = partition_read_map_available process xs f s in (discard e, t)
