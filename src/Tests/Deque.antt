-- ===== src/Tests/Deque.antt =====
-- src/collections/deque/partition.rs at a queue of seven elements, three of them before the wrap.
use melinoe.Prelude.{
  ℕ, ◌+◌, ◌-◌, ◌^◌, ◌≡◌, refl, none, some, List, [], ◌∷◌, ◌++◌, length, map, flatten, overwrite,
  arith,
}
use melinoe.Sync.Plan.{PartitionPlan, chunk_size, resolve, chunk_len_for}
use melinoe.Sync.Process.{Process}
use melinoe.Sync.Driver.{results}
use melinoe.Sync.Driver.Results.{RunsAll}
use melinoe.Sync.Map.Correct.{calm}
use melinoe.Deque.{front, back, DequeShard, DequeMutSlices, from_lengths, fill, pushed}
use melinoe.Deque.Maps.{partition_map_with, partition_map_mut_with}
use melinoe.Deque.Tiles.{Tiles, values}
use melinoe.Deque.Plan.{from_lengths-Tiles}
use melinoe.Deque.Endless.{from_lengths_endless}
use melinoe.Deque.Writes.{shown}
use melinoe.Deque.Read.{shards, reader, partition_map_with-Tiles}
use melinoe.Deque.Mutate.{cut, partition_map_mut_with_lem}

abbrev twos : PartitionPlan
twos = PartitionPlan.chunks_of 2

-- The chunk from 2 to 4 crosses the wrap.
abbrev five_shards : List DequeShard
five_shards =
    record { start = 0; segment = front; offset = 0; len = 2 }
    ∷ record { start = 2; segment = front; offset = 2; len = 1 }
    ∷ record { start = 3; segment = back; offset = 0; len = 1 }
    ∷ record { start = 4; segment = back; offset = 1; len = 2 }
    ∷ record { start = 6; segment = back; offset = 3; len = 1 }
    ∷ []

from_lengths_run : from_lengths none 7 3 4 twos ≡ some (record { shards = five_shards })
unfolding from_lengths chunk_len_for fill pushed
from_lengths_run = refl

from_lengths-Tiles_example :
    (ss : List DequeShard) × (from_lengths none 7 3 4 twos ≡ some (record { shards = ss }))
    × Tiles 3 4 (resolve none twos 7) 0 ss
from_lengths-Tiles_example =
    from_lengths-Tiles none 7 3 4 twos (omega arith) (omega arith) (omega arith)

from_lengths_endless_example : from_lengths none 1000 5 (2 ^ 64 - 6) (chunk_size (2 ^ 63)) ≡ none
from_lengths_endless_example = from_lengths_endless none 1000 5 (2 ^ 64 - 6) (omega arith)

abbrev pooled : Process ℕ
pooled = record {
  cores = none;
  registry =
      some (record { call = λ n. record { order = 4 ∷ 2 ∷ 0 ∷ 1 ∷ 3 ∷ []; unwinds = none } });
  threads = λ n. [];
  bounds_panic = 0;
}

pooled-RunsAll : RunsAll pooled.registry pooled.threads 5
pooled-RunsAll = (
  record {
    once = (
      omega arith,
      refl,
      (omega arith, refl, (omega arith, refl, (omega arith, refl, (omega arith, refl, tt)))),
    );
    all = λ _ i h. ground arith;
  },
  refl,
)

abbrev fronts : List ℕ
fronts = 10 ∷ 11 ∷ 12 ∷ []

abbrev backs : List ℕ
backs = 13 ∷ 14 ∷ 15 ∷ 16 ∷ []

abbrev queue : DequeMutSlices ℕ
queue = record { front_cells = fronts; back_cells = backs }

abbrev add_length : ℕ → List ℕ → ℕ
add_length start xs = start + length xs

five : length (shards pooled fronts backs 7 twos) ≡ 5
unfolding from_lengths chunk_len_for fill pushed
five = refl

five_cut : length (cut pooled queue 7 twos) ≡ 5
unfolding from_lengths chunk_len_for fill pushed
five_cut = refl

partition_map_with-Tiles_example :
    (partition_map_with {S = ℕ} pooled 7 fronts backs twos (reader add_length) 0
      ≡ some (
        results (
            map
              (λ s. add_length s.start (values fronts backs s))
              (shards pooled fronts backs 7 twos)),
        0,
      ))
    × (flatten (map (values fronts backs) (shards pooled fronts backs 7 twos)) ≡ fronts ++ backs)
    × Tiles 3 4 (resolve none twos 7) 0 (shards pooled fronts backs 7 twos)
partition_map_with-Tiles_example =
    partition_map_with-Tiles pooled fronts backs 7 twos add_length 0 (omega arith) (omega arith)
      (omega arith) (rw five pooled-RunsAll)

abbrev add_start : ℕ → List ℕ → ℕ × List ℕ
add_start start xs = (length xs, map (λ x. x + start) xs)

partition_map_mut_with_lem_example :
    (now : DequeMutSlices ℕ) × (partition_map_mut_with pooled 7 twos (calm add_start) queue
      ≡ some (
        results (map (λ s. (add_start s.start (shown queue s)).0) (cut pooled queue 7 twos)),
        now,
      ))
    × (now.front_cells ++ now.back_cells
        ≡ flatten (
            map
              (λ s. overwrite (shown queue s) (add_start s.start (shown queue s)).1)
              (cut pooled queue 7 twos)))
    × (length now.front_cells ≡ 3)
    × (length now.back_cells ≡ 4)
    × Tiles 3 4 (resolve none twos 7) 0 (cut pooled queue 7 twos)
partition_map_mut_with_lem_example =
    partition_map_mut_with_lem pooled queue 7 twos add_start (omega arith) (omega arith)
      (omega arith) (rw five_cut pooled-RunsAll)
