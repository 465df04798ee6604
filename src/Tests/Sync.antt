-- ===== src/Tests/Sync.antt =====
-- src/sync/scoped at a region of seven cells.
use melinoe.Prelude.{
  ℕ, zero, suc, ap, true, length, ◌+◌, ◌*◌, ◌≤◌, ◌<◌, ◌≡◌, refl, none, some, List, [], ◌∷◌, map,
  flatten, tabulate, overwrite, min, arith, inl,
}
use melinoe.Prelude.Orders.{contains}
use melinoe.Machine.{Outcome, returned, panicked}
use melinoe.Region.Tiling.{partition_count}
use melinoe.Region.Shard.{CellSlice, new, as_slice, as_mut_slice}
use melinoe.Region.ParChunks.{count, par_chunks, get_unchecked_chunk}
use melinoe.Sync.Plan.{PartitionPlan, parts, resolve, chunk_for_parts}
use melinoe.Sync.OutBuffer.{Slot, take_panic_payload, fresh, from_raw_parts}
use melinoe.Sync.Plan.Bounds.{IsNonZero, resolve_bounds, parts_fall_short}
use melinoe.Sync.Executor.{Executor, Honours}
use melinoe.Sync.Process.{Process}
use melinoe.Sync.Driver.{results, unwound, drive}
use melinoe.Sync.Driver.Results.{RunsAll, drive_results}
use melinoe.Sync.Driver.Panics.{drive_executor_unwinds, drive_executor_panics, drive_threads_panic}
use melinoe.Sync.ReadMap.{partition_read_map_with}
use melinoe.Sync.ReadMap.Correct.{read_len, read_count, partition_read_map_with_lem}
use melinoe.Sync.Map.{partition_map_with}
use melinoe.Sync.Map.Confined.{on_slice, chunk_of}
use melinoe.Sync.Map.Correct.{calm, partition_map_with_lem, shard_len, shard_count, shard_values}

resolve_bounds_example :
    IsNonZero (resolve (some 8) (PartitionPlan.hardware_parts) 100)
    × (partition_count 100 (resolve (some 8) (PartitionPlan.hardware_parts) 100) ≤ 8)
    × (partition_count 100 (resolve (some 8) (PartitionPlan.hardware_parts) 100) ≤ 100)
resolve_bounds_example =
    resolve_bounds (some 8) PartitionPlan.hardware_parts 100 (omega arith) (omega arith)

-- Five cells in four parts make three shards.
parts_fall_short_example : partition_count 5 (resolve none (parts 4) 5) < min 4 5
parts_fall_short_example = parts_fall_short none 4 (omega arith) (omega arith)

-- A pool that runs two tasks in the other order.
abbrev backwards : Executor ℕ
backwards = record { call = λ n. record { order = 1 ∷ 0 ∷ []; unwinds = none } }

backwards-Honours : Honours 2 (backwards.call 2)
backwards-Honours = record {
  once = (omega arith, refl, (omega arith, refl, tt));
  all = λ _ i h. ground arith;
}

abbrev logged : ℕ → List ℕ → Outcome ℕ ℕ × List ℕ
logged i done = (returned (i * 10), i ∷ done)

drive_results_example :
    (s : List ℕ) × (drive (some backwards) (λ _. []) 2 logged [] ≡ (results (0 ∷ 10 ∷ []), s))
    × (contains s 1 ≡ true)
drive_results_example =
    drive_results 2 logged (λ i. i * 10) (λ done s. s ≡ done) (λ s. contains s 1 ≡ true)
      (λ done i s lt new e. (refl, ap (◌∷◌ i) e)) (λ done s all e. rw (e, all 1 (omega arith)))
      (some backwards) (λ _. []) [] (omega arith) (backwards-Honours, refl) refl

-- The shards of seven cells, in an order that a pool of threads may choose.
abbrev pooled : Process ℕ
pooled = record {
  cores = none;
  registry = some (record { call = λ n. record { order = 2 ∷ 0 ∷ 1 ∷ []; unwinds = none } });
  threads = λ n. [];
  bounds_panic = 0;
}

abbrev seven : CellSlice
seven = record { base = 1; len = 7 }

abbrev memory : List ℕ
memory = 10 ∷ 11 ∷ 12 ∷ 13 ∷ 14 ∷ 15 ∷ 16 ∷ 17 ∷ 18 ∷ []

abbrev add_start : ℕ → List ℕ → ℕ × List ℕ
add_start start xs = (length xs, map (λ x. x + start) xs)

abbrev three_parts : PartitionPlan
three_parts = PartitionPlan.at_most_parts 3

three_shards : partition_count 7 (resolve none three_parts 7) ≡ 3
unfolding partition_count resolve chunk_for_parts
three_shards = refl

pooled-RunsAll :
    RunsAll pooled.registry pooled.threads (partition_count 7 (resolve none three_parts 7))
pooled-RunsAll = rw three_shards (
  record {
    once = (omega arith, refl, (omega arith, refl, (omega arith, refl, tt)));
    all = λ _ i h. ground arith;
  },
  refl,
)

partition_map_with_lem_example :
    (mem' : List ℕ) × (partition_map_with pooled seven three_parts
        (on_slice (calm add_start))
        memory
      ≡ (
        results (
            tabulate (shard_count pooled seven three_parts add_start memory) 0 (λ i.
              (add_start
                (i * shard_len pooled seven three_parts add_start memory)
                (shard_values pooled seven three_parts add_start memory i)).0)),
        mem',
      ))
    × (as_slice mem' (new seven)
        ≡ flatten (
            tabulate (shard_count pooled seven three_parts add_start memory) 0 (λ i.
              overwrite
                (shard_values pooled seven three_parts add_start memory i)
                (add_start
                  (i * shard_len pooled seven three_parts add_start memory)
                  (shard_values pooled seven three_parts add_start memory i)).1)))
    × (as_slice mem' (new (record { base = 8; len = 1 }))
        ≡ as_slice memory (new (record { base = 8; len = 1 })))
partition_map_with_lem_example =
    partition_map_with_lem pooled seven three_parts add_start memory (omega arith) (omega arith)
      pooled-RunsAll (new (record { base = 8; len = 1 })) (inl (omega arith))

-- The same call, run.
partition_map_with_run :
    partition_map_with pooled seven three_parts (on_slice (calm add_start)) memory
    ≡ (results (3 ∷ 3 ∷ 1 ∷ []), 10 ∷ 11 ∷ 12 ∷ 13 ∷ 17 ∷ 18 ∷ 19 ∷ 23 ∷ 18 ∷ [])
unfolding partition_map_with resolve chunk_for_parts drive take_panic_payload fresh from_raw_parts
    partition_count count par_chunks get_unchecked_chunk as_mut_slice
partition_map_with_run = refl

abbrev sum_from : ℕ → List ℕ → ℕ
sum_from start xs = elim xs [ [] ↦ start | x ∷ rest ↦ start + x ]

abbrev seven_values : List ℕ
seven_values = 11 ∷ 12 ∷ 13 ∷ 14 ∷ 15 ∷ 16 ∷ 17 ∷ []

partition_read_map_with_lem_example :
    (partition_read_map_with {S = ℕ} pooled seven_values three_parts
        (λ start shard s. (returned (sum_from start shard), s))
        0
      ≡ (
        results (
            tabulate (read_count pooled seven_values three_parts) 0 (λ i.
              sum_from
                (i * read_len pooled seven_values three_parts)
                (chunk_of seven_values (read_len pooled seven_values three_parts) i))),
        0,
      ))
    × (flatten (
          tabulate
            (read_count pooled seven_values three_parts)
            0
            (chunk_of seven_values (read_len pooled seven_values three_parts)))
        ≡ seven_values)
partition_read_map_with_lem_example =
    partition_read_map_with_lem pooled seven_values three_parts ℕ ℕ sum_from 0 (omega arith)
      (omega arith) pooled-RunsAll

-- Of three tasks the first returns; the others panic with their index.
abbrev failing : ℕ → Outcome ℕ ℕ
failing i = elim i [ zero ↦ returned 7 | suc k ↦ panicked (suc k) ]

abbrev fail_at : ℕ → List ℕ → Outcome ℕ ℕ × List ℕ
fail_at i done = (failing i, i ∷ done)

abbrev reversed : Executor ℕ
reversed = record { call = λ n. record { order = 2 ∷ 0 ∷ 1 ∷ []; unwinds = none } }

reversed-Honours : Honours 3 (reversed.call 3)
reversed-Honours = record {
  once = (omega arith, refl, (omega arith, refl, (omega arith, refl, tt)));
  all = λ _ i h. ground arith;
}

-- It gives up after the tasks 2 and 0.
abbrev failed_pool : Executor ℕ
failed_pool = record { call = λ n. record { order = 2 ∷ 0 ∷ []; unwinds = some 9 } }

failed_pool-Honours : Honours 3 (failed_pool.call 3)
failed_pool-Honours = record {
  once = (omega arith, refl, (omega arith, refl, tt));
  all = λ e. absurd (grind (arith, e));
}

drive_executor_unwinds_example :
    (s : List ℕ) × (drive (some failed_pool) (λ _. []) 3 fail_at []
      ≡ (unwound 9 (Slot.dropped ∷ Slot.uninit ∷ Slot.uninit ∷ []), s))
drive_executor_unwinds_example =
    drive_executor_unwinds 3 failing fail_at (λ done s. s ≡ done)
      (λ done i s lt new e. (refl, ap (◌∷◌ i) e)) failed_pool (λ _. []) [] 9 failed_pool-Honours
      refl refl

drive_executor_panics_example :
    (s : List ℕ) × (drive (some reversed) (λ _. []) 3 fail_at []
      ≡ (unwound 2 (Slot.dropped ∷ Slot.uninit ∷ Slot.uninit ∷ []), s))
drive_executor_panics_example =
    drive_executor_panics 3 failing fail_at (λ done s. s ≡ done)
      (λ done i s lt new e. (refl, ap (◌∷◌ i) e)) reversed (λ _. []) [] 2 reversed-Honours refl refl
      refl

drive_threads_panic_example :
    (s : List ℕ) × (drive none (λ n. 2 ∷ 0 ∷ 1 ∷ []) 3 fail_at [] ≡ (unwound 2 [], s))
drive_threads_panic_example =
    drive_threads_panic 3 failing fail_at (λ done s. s ≡ done)
      (λ done i s lt new e. (refl, ap (◌∷◌ i) e)) (λ n. 2 ∷ 0 ∷ 1 ∷ []) [] 2 (omega arith)
      reversed-Honours.once (reversed-Honours.all refl) refl refl
