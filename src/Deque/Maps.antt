-- ===== src/Deque/Maps.antt =====
-- src/collections/deque/partition.rs: the maps over the shards of a deque.
use melinoe.Prelude.{ℕ, Option, none, some, List, [], ◌∷◌, length, if◌then◌else◌}
use melinoe.Machine.{Outcome, panicked}
use melinoe.Sync.Plan.{PartitionPlan, chunk_size}
use melinoe.Sync.Process.{Process}
use melinoe.Sync.Driver.{Ended, results}
use melinoe.Sync.Map.{discard}
use melinoe.Sync.ReadMap.{partition_read_map_with}
use melinoe.Deque.{
  DequeShard, DequeShardPlan, from_lengths, is_empty, read_slice, DequeMutSlices, with_shard_mut,
}

module _ {P A R S : Type 0} (process : Process P) where
  -- The closure that `map_read` hands to the driver: `shard[0]` panics on an empty slice.
  unfoldable pub read_first :
      List A → List A → (ℕ → List A → S → Outcome P R × S) → List DequeShard → S → Outcome P R × S
  unfolding read_slice
  read_first fr ba f [] st = (panicked process.bounds_panic, st)
  read_first fr ba f (s ∷ ss) st = elim (read_slice s fr ba) [
    | none ↦ (panicked process.bounds_panic, st)
    | some xs ↦ f s.start xs st
  ]

  unfoldable pub map_read :
      DequeShardPlan → List A → List A → (ℕ → List A → S → Outcome P R × S) → S → Ended P R × S
  unfolding is_empty partition_read_map_with read_first
  map_read p fr ba f st =
      if is_empty p
      then (results [], st)
      else partition_read_map_with process p.shards (chunk_size 1)
          (λ _ shard. read_first fr ba f shard) st

  -- `BrandedVecDeque::partition_map_with`, of the two slices of the queue.
  unfoldable pub partition_map_with :
      ℕ
      → List A
      → List A
      → PartitionPlan
      → (ℕ → List A → S → Outcome P R × S)
      → S
      → Option (Ended P R × S)
  unfolding from_lengths map_read
  partition_map_with fuel s1 s2 plan f st =
      elim (from_lengths process.cores fuel (length s1) (length s2) plan) [
        | none ↦ none
        | some p ↦ some (map_read p s1 s2 f st)
      ]

module _ {P A S : Type 0} (process : Process P) where
  unfoldable pub for_each_read :
      DequeShardPlan
      → List A
      → List A
      → (ℕ → List A → S → Outcome P (Unit {0}) × S)
      → S
      → Ended P (Unit {0}) × S
  unfolding map_read discard
  for_each_read p fr ba f st = let (e, t) = map_read process p fr ba f st in (discard e, t)

  unfoldable pub partition_for_each_with :
      ℕ
      → List A
      → List A
      → PartitionPlan
      → (ℕ → List A → S → Outcome P (Unit {0}) × S)
      → S
      → Option (Ended P (Unit {0}) × S)
  unfolding from_lengths for_each_read
  partition_for_each_with fuel s1 s2 plan f st =
      elim (from_lengths process.cores fuel (length s1) (length s2) plan) [
        | none ↦ none
        | some p ↦ some (for_each_read p s1 s2 f st)
      ]

module _ {P A R : Type 0} (process : Process P) where
  unfoldable pub write_first :
      (ℕ → List A → Outcome P R × List A)
      → List DequeShard
      → DequeMutSlices A
      → Outcome P R × DequeMutSlices A
  unfolding with_shard_mut
  write_first f [] q = (panicked process.bounds_panic, q)
  write_first f (s ∷ ss) q = with_shard_mut s f q

  unfoldable pub map_mut :
      DequeShardPlan
      → (ℕ → List A → Outcome P R × List A)
      → DequeMutSlices A
      → Ended P R × DequeMutSlices A
  unfolding is_empty partition_read_map_with write_first
  map_mut p f q =
      if is_empty p
      then (results [], q)
      else partition_read_map_with process p.shards (chunk_size 1) (λ _ shard. write_first f shard)
          q

  unfoldable pub partition_map_mut_with :
      ℕ
      → PartitionPlan
      → (ℕ → List A → Outcome P R × List A)
      → DequeMutSlices A
      → Option (Ended P R × DequeMutSlices A)
  unfolding from_lengths map_mut
  partition_map_mut_with fuel plan f q =
      elim (from_lengths process.cores fuel (length q.front_cells) (length q.back_cells) plan) [
        | none ↦ none
        | some p ↦ some (map_mut p f q)
      ]

module _ {P A : Type 0} (process : Process P) where
  unfoldable pub for_each_mut :
      DequeShardPlan
      → (ℕ → List A → Outcome P (Unit {0}) × List A)
      → DequeMutSlices A
      → Ended P (Unit {0}) × DequeMutSlices A
  unfolding map_mut discard
  for_each_mut p f q = let (e, t) = map_mut process p f q in (discard e, t)

  unfoldable pub partition_for_each_mut_with :
      ℕ
      → PartitionPlan
      → (ℕ → List A → Outcome P (Unit {0}) × List A)
      → DequeMutSlices A
      → Option (Ended P (Unit {0}) × DequeMutSlices A)
  unfolding from_lengths for_each_mut
  partition_for_each_mut_with fuel plan f q =
      elim (from_lengths process.cores fuel (length q.front_cells) (length q.back_cells) plan) [
        | none ↦ none
        | some p ↦ some (for_each_mut p f q)
      ]
