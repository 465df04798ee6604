-- ===== src/Tests/Interleave.antt =====
-- src/sync/scoped/partition: three tasks on seven cells, step by step.
use melinoe.Prelude.{
  ℕ, Bool, zero, suc, ◌+◌, ◌*◌, ◌<◌, ◌≡◌, refl, true, false, some, List, [], ◌∷◌, map, All, arith,
  inl, overwrite, flatten, tabulate,
}
use melinoe.Prelude.Orders.{IsOrder, IsComplete}
use melinoe.Machine.{returned, panicked, mul_usize}
use melinoe.Region.Tiling.{partition_count}
use melinoe.Region.Shard.{WriterShard, new, as_slice, as_mut_slice}
use melinoe.Region.ParChunks.{ParChunks, count, par_chunks, get_unchecked_chunk}
use melinoe.Sync.Executor.{run_tasks}
use melinoe.Sync.OutBuffer.{
  Buffer, Slot, uninit, dropped, init, fresh, task_wrapper, drop_successful,
}
use melinoe.Sync.Driver.{results, unwound, conclude, teardown}
use melinoe.Sync.Driver.Ending.{Drops}
use melinoe.Sync.Map.Correct.{calm}
use melinoe.Sync.Map.Confined.{on_slice, chunk_of}
use melinoe.Sync.Interleave.{Work, finish, access, Pool, over, complete, interleave, start}
use melinoe.Sync.Interleave.Serial.{interleave-task_wrapper}
use melinoe.Sync.Interleave.Results.{interleave_results}
use melinoe.Sync.Interleave.Scoped.{Scope, interleave_threads, spawn_all, join}
use melinoe.Sync.Interleave.Scoped.Joined.{interleave_threads_results}
use melinoe.Sync.Interleave.Torn.{teardown-interleave}

abbrev seven : WriterShard
seven = new (record { base = 1; len = 7 })

abbrev memory : List ℕ
memory = 10 ∷ 11 ∷ 12 ∷ 13 ∷ 14 ∷ 15 ∷ 16 ∷ 17 ∷ 18 ∷ []

abbrev first_or : ℕ → List ℕ → ℕ
first_or d [] = d
first_or d (x ∷ xs) = x

-- A closure that adds twice to each value, a step each; the one on the second shard panics then.
abbrev add_twice : ℕ → Work ℕ ℕ ℕ
add_twice index = access (map (λ x. x + index)) (λ seen.
    access (map (λ x. x + first_or 0 seen)) (λ _. elim index [
      | zero ↦ finish (returned 5)
      | suc zero ↦ finish (returned 6)
      | suc (suc zero) ↦ finish (returned 7)
      | suc (suc (suc zero)) ↦ finish (panicked 9)
      | suc (suc (suc (suc k))) ↦ finish (returned k)
    ]))

abbrev tasks : ℕ → Work ℕ ℕ ℕ
tasks i = add_twice (mul_usize i 3)

abbrev par : ParChunks
par = par_chunks seven 3

abbrev mixed : List ℕ
mixed = 2 ∷ 0 ∷ 1 ∷ 1 ∷ 2 ∷ 0 ∷ 1 ∷ 2 ∷ 0 ∷ 2 ∷ 0 ∷ []

mixed_run :
    let s = interleave par mixed (start 3 tasks memory) in
    (s.memory ≡ 10 ∷ 22 ∷ 23 ∷ 24 ∷ 31 ∷ 32 ∷ 33 ∷ 40 ∷ 18 ∷ [])
    × (s.buffer.slots ≡ init 5 ∷ uninit ∷ init 2 ∷ [])
    × (s.buffer.successful ≡ true ∷ false ∷ true ∷ [])
    × (s.buffer.panic_payload.payload ≡ some 9)
unfolding interleave start par_chunks get_unchecked_chunk as_mut_slice fresh
mixed_run = (refl, refl, refl, refl)

mixed_over :
    (i : ℕ)
    → i < count par
    → (interleave par mixed (start (count par) tasks memory)).phases i ≡ over
unfolding interleave start par_chunks get_unchecked_chunk as_mut_slice fresh count partition_count
mixed_over zero h = refl
mixed_over (suc zero) h = refl
mixed_over (suc (suc zero)) h = refl
mixed_over (suc (suc (suc i))) h = absurd (omega arith)

three : count par ≡ 3
unfolding count par_chunks partition_count
three = refl

mixed_below : All (λ i. i < count par) mixed
mixed_below = rw three (omega arith)

interleave-task_wrapper_example :
    (order : List ℕ) × IsOrder (count par) order
    × IsComplete (count par) order
    × (let s = interleave par mixed (start (count par) tasks memory) in
        (s.buffer, s.memory)
        ≡ run_tasks
            (task_wrapper (λ index now.
              on_slice
                (λ first. complete (add_twice first))
                (mul_usize index 3)
                (get_unchecked_chunk par index)
                now))
            order
            (fresh (count par), memory))
interleave-task_wrapper_example =
    interleave-task_wrapper seven 3 (omega arith) (omega arith) (omega arith) add_twice memory mixed
      mixed_below mixed_over

-- A closure that adds its start index to each value, and returns the first value that it saw.
abbrev steady : ℕ → Work ℕ ℕ ℕ
steady first = access (map (λ x. x + first)) (λ seen. finish (returned (first_or 0 seen)))

abbrev in_one : ℕ → List ℕ → ℕ × List ℕ
in_one first xs = (first_or 0 xs, overwrite xs (map (λ x. x + first) xs))

steady-in_one : (first : ℕ) (xs : List ℕ) → complete (steady first) xs ≡ calm in_one first xs
unfolding complete
steady-in_one first xs = refl

abbrev evenly : List ℕ
evenly = 2 ∷ 0 ∷ 1 ∷ 0 ∷ 1 ∷ 2 ∷ 2 ∷ 1 ∷ 0 ∷ []

abbrev steady_end : Pool ℕ ℕ ℕ
steady_end = interleave par evenly (start (count par) (λ i. steady (mul_usize i 3)) memory)

evenly_over : (i : ℕ) → i < count par → steady_end.phases i ≡ over
unfolding interleave start par_chunks get_unchecked_chunk as_mut_slice fresh count partition_count
evenly_over zero h = refl
evenly_over (suc zero) h = refl
evenly_over (suc (suc zero)) h = refl
evenly_over (suc (suc (suc i))) h = absurd (omega arith)

abbrev shard_of : ℕ → List ℕ
shard_of i = chunk_of (as_slice memory seven) 3 i

abbrev last_cell : WriterShard
last_cell = new (record { base = 8; len = 1 })

interleave_results_example :
    (conclude steady_end.buffer
      ≡ results (tabulate (count par) 0 (λ i. (in_one (i * 3) (shard_of i)).0)))
    × (as_slice steady_end.memory seven
        ≡ flatten
            (tabulate (count par) 0 (λ i. overwrite (shard_of i) (in_one (i * 3) (shard_of i)).1)))
    × (as_slice steady_end.memory last_cell ≡ as_slice memory last_cell)
interleave_results_example =
    interleave_results seven 3 (omega arith) (omega arith) (omega arith) steady memory evenly
      (rw three (omega arith)) in_one last_cell steady-in_one (rw three (omega arith))
      (inl (omega arith)) evenly_over

-- The same on scoped threads: each thread makes two steps.
abbrev paired : List ℕ
paired = 1 ∷ 2 ∷ 0 ∷ 2 ∷ 1 ∷ 0 ∷ []

abbrev scope_end : Scope ℕ ℕ ℕ
scope_end =
    interleave_threads par paired (spawn_all (count par) (λ i. steady (mul_usize i 3)) memory)

paired_over : (i : ℕ) → i < count par → scope_end.phases i ≡ over
unfolding interleave_threads spawn_all par_chunks get_unchecked_chunk as_mut_slice count
    partition_count
paired_over zero h = refl
paired_over (suc zero) h = refl
paired_over (suc (suc zero)) h = refl
paired_over (suc (suc (suc i))) h = absurd (omega arith)

interleave_threads_results_example :
    (join (count par) scope_end.handles
      ≡ results (tabulate (count par) 0 (λ i. (in_one (i * 3) (shard_of i)).0)))
    × (as_slice scope_end.memory seven
        ≡ flatten
            (tabulate (count par) 0 (λ i. overwrite (shard_of i) (in_one (i * 3) (shard_of i)).1)))
    × (as_slice scope_end.memory last_cell ≡ as_slice memory last_cell)
interleave_threads_results_example =
    interleave_threads_results seven 3 (omega arith) (omega arith) (omega arith) steady memory
      paired in_one last_cell (rw three (omega arith)) steady-in_one (rw three (omega arith))
      (inl (omega arith)) paired_over

-- The executor unwinds in the middle: the first task has written its slot and not its flag, the third
-- is over.
abbrev partial : List ℕ
partial = 2 ∷ 0 ∷ 1 ∷ 1 ∷ 2 ∷ 0 ∷ 1 ∷ 2 ∷ 0 ∷ 2 ∷ []

abbrev cut_short : Buffer ℕ ℕ
cut_short = (interleave par partial (start (count par) tasks memory)).buffer

teardown-interleave_example :
    (flag : ℕ → Bool) × (before : ℕ → Slot ℕ) × (left : ℕ → Slot ℕ) × (cut_short.successful
      ≡ tabulate (count par) 0 flag)
    × (cut_short.slots ≡ tabulate (count par) 0 before)
    × (teardown 4 cut_short ≡ unwound 4 (tabulate (count par) 0 left))
    × ((i : ℕ) → i < count par → Drops (flag i) (before i) (left i))
teardown-interleave_example =
    teardown-interleave seven 3 (omega arith) (omega arith) (omega arith) add_twice memory partial 4
      (rw three (omega arith))

cut_short_run : teardown 4 cut_short ≡ unwound 4 (init 5 ∷ uninit ∷ dropped ∷ [])
unfolding teardown interleave start par_chunks get_unchecked_chunk as_mut_slice fresh count
    partition_count drop_successful
cut_short_run = refl
