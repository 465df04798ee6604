-- ===== src/Tests/Vector.antt =====
-- src/collections/branded_vec at a vector of five values.
use melinoe.Prelude.{
  ℕ, Bool, ◌++◌, ◌/◌, ◌%◌, true, false, ◌==◌, if◌then◌else◌, suc, ◌+◌, ◌*◌, ◌≡◌, refl, none, some,
  List, [], ◌∷◌, length, map, flatten, tabulate, overwrite, arith,
}
use melinoe.Region.Tiling.{partition_count}
use melinoe.Sync.Plan.{PartitionPlan, resolve, chunk_len_for}
use melinoe.Sync.Process.{Process}
use melinoe.Sync.Driver.{results}
use melinoe.Sync.Driver.Results.{RunsAll}
use melinoe.Sync.Map.Confined.{chunk_of}
use melinoe.Sync.Map.Correct.{calm}
use melinoe.Vector.{
  from_fn, retain_mut, resize_with, BrandedVec, of, insert, remove, swap_remove, drain,
  partition_map_mut_with,
}
use melinoe.Drain.{take_ends}
use melinoe.Token.{Token}
use melinoe.Token.World.{World, empty}
use melinoe.Vector.{BrandedDrain}
use melinoe.Vector.Drains.{next, next_back, size_hint, drain-take_ends}
use melinoe.Vector.Views.{with_generated}
use melinoe.Vector.Operations.{remove-insert}
use melinoe.Vector.Partition.{chunk, chunks, partition_map_mut_with-chunks}

abbrev three_calls : List Bool
three_calls = true ∷ false ∷ true ∷ []

abbrev five : BrandedVec ℕ
five = of (10 ∷ 11 ∷ 12 ∷ 13 ∷ 14 ∷ [])

remove-insert_example :
    (w : BrandedVec ℕ) × (insert 2 99 five ≡ some w)
    × (length w.cells ≡ suc 5)
    × (remove 2 w ≡ some (99, five))
remove-insert_example = remove-insert five 2 99 (omega arith)

swap_remove_run :
    (swap_remove 1 five ≡ some (11, of (10 ∷ 14 ∷ 12 ∷ 13 ∷ [])))
    × (drain 1 3 five ≡ some (record { inner = 11 ∷ 12 ∷ [] }, of (10 ∷ 13 ∷ 14 ∷ [])))
    × (remove 5 five ≡ none)
unfolding swap_remove drain remove
swap_remove_run = (refl, refl, refl)

-- The even values, halved, and how many went.
resized_run :
    (from_fn 3 (λ i n. (i + n, n + 1)) 5 ≡ (of (5 ∷ 7 ∷ 9 ∷ []), 8))
    × (retain_mut (λ x n. if x % 2 == 0 then (true, x / 2, n) else (false, x, n + 1)) 0 five
        ≡ (of (5 ∷ 6 ∷ 7 ∷ []), 2))
    × (resize_with 7 (λ n. (n, n * 2)) 1 five ≡ (of (10 ∷ 11 ∷ 12 ∷ 13 ∷ 14 ∷ 1 ∷ 2 ∷ []), 4))
unfolding from_fn retain_mut resize_with
resized_run = (refl, refl, refl)

abbrev pooled : Process ℕ
pooled = record {
  cores = none;
  registry = some (record { call = λ n. record { order = 2 ∷ 0 ∷ 1 ∷ []; unwinds = none } });
  threads = λ n. [];
  bounds_panic = 0;
}

abbrev twos : PartitionPlan
twos = PartitionPlan.chunks_of 2

abbrev add_start : ℕ → List ℕ → ℕ × List ℕ
add_start start xs = (length xs, map (λ x. x + start) xs)

three_chunks : chunks pooled five twos add_start ≡ 3
unfolding partition_count resolve chunk_len_for
three_chunks = refl

pooled-RunsAll : RunsAll pooled.registry pooled.threads 3
pooled-RunsAll = (
  record {
    once = (omega arith, refl, (omega arith, refl, (omega arith, refl, tt)));
    all = λ _ i h. ground arith;
  },
  refl,
)

partition_map_mut_with-chunks_example : partition_map_mut_with pooled twos (calm add_start) five ≡ (
  results (
      tabulate (chunks pooled five twos add_start) 0 (λ i.
        (add_start
          (i * chunk pooled five twos add_start)
          (chunk_of five.cells (chunk pooled five twos add_start) i)).0)),
  of (
      flatten (
        tabulate (chunks pooled five twos add_start) 0 (λ i.
          overwrite
            (chunk_of five.cells (chunk pooled five twos add_start) i)
            (add_start
              (i * chunk pooled five twos add_start)
              (chunk_of five.cells (chunk pooled five twos add_start) i)).1))),
)
partition_map_mut_with-chunks_example =
    partition_map_mut_with-chunks pooled five twos add_start (omega arith) (omega arith)
      (rw three_chunks pooled-RunsAll)

-- Two values from the front and one from the back of a drained range of four.
drain-take_ends_example :
    (d : BrandedDrain ℕ) × (w : BrandedVec ℕ) × (drain 1 5 five ≡ some (d, w))
    × (w.cells ≡ 10 ∷ [])
    × ((10 ∷ [])
          ++ (((take_ends next next_back three_calls d).0
                ++ ((take_ends next next_back three_calls d).2.inner
                    ++ (take_ends next next_back three_calls d).1))
              ++ [])
        ≡ five.cells)
    × (length (take_ends next next_back three_calls d).0
          + size_hint (take_ends next next_back three_calls d).2
          + length (take_ends next next_back three_calls d).1
        ≡ 4)
drain-take_ends_example = drain-take_ends five 1 5 three_calls (omega arith) (omega arith)

abbrev four : BrandedDrain ℕ
four = record { inner = 11 ∷ 12 ∷ 13 ∷ 14 ∷ [] }

take_ends-next :
    take_ends next next_back three_calls four ≡ (11 ∷ 12 ∷ [], 14 ∷ [], record { inner = 13 ∷ [] })
unfolding next next_back
take_ends-next = refl

-- What is seen in a scope with a generated vector of three values.
abbrev looked_at : BrandedVec ℕ × ℕ → Token → World ℕ → List ℕ × ℕ × ℕ × ℕ
looked_at (v, s) token w = (v.cells, s, token.brand, w.next)

generated_scope :
    with_generated 0 3 (λ i s. (i * 10, s + 1)) 5 looked_at (empty ℕ) ≡ (0 ∷ 10 ∷ 20 ∷ [], 8, 0, 1)
unfolding with_generated
generated_scope = refl
