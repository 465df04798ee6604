-- ===== src/Tests/Region.antt =====
-- src/region at a region of seven cells cut into chunks of three.
use melinoe.Prelude.{
  ℕ, ◌+◌, ◌-◌, ◌*◌, ◌^◌, ◌≤◌, ◌<◌, ◌≡◌, ◌↔◌, refl, Option, none, some, flatten, List, [], ◌∷◌, ◌++◌,
  tabulate, arith,
}
use melinoe.Region.Tiling.{partition_count}
use melinoe.Region.Tiling.Ceiling.{partition_count_ceiling}
use melinoe.Region.Shard.{WriterShard, Disjoint, new, split_at, as_slice}
use melinoe.Region.Shard.Split.{split_at_parts}
use melinoe.Region.ParChunks.{ParChunks, count, get_unchecked_chunk, par_chunks}
use melinoe.Region.ParChunks.Tile.{chunks_apart, chunks_cover}
use melinoe.Region.ParChunks.Wrap.{wrapped_chunk_overruns}
use melinoe.Region.Chunks.{ShardChunks, chunks, collect, next, size_hint}
use melinoe.Region.Chunks.Sequence.{chunks-collect, size_hint-next}

abbrev memory : List ℕ
memory = 10 ∷ 11 ∷ 12 ∷ 13 ∷ 14 ∷ 15 ∷ 16 ∷ 17 ∷ 18 ∷ []

-- All but the first and the last cell of the memory.
abbrev seven : WriterShard
seven = new (record { base = 1; len = 7 })

count_seven : partition_count 7 3 ≡ 3
unfolding partition_count
count_seven = refl

last_chunk : as_slice memory (get_unchecked_chunk (par_chunks seven 3) 2) ≡ 17 ∷ []
unfolding as_slice get_unchecked_chunk par_chunks
last_chunk = refl

split_at_parts_example :
    (l : WriterShard) × (r : WriterShard) × (split_at seven 2 ≡ some (l, r))
    × (l.cells.len ≡ 2)
    × (l.cells.len + r.cells.len ≡ 7)
    × Disjoint l.cells r.cells
    × (as_slice memory l ++ as_slice memory r ≡ as_slice memory seven)
split_at_parts_example = split_at_parts memory seven 2 (omega arith)

three_chunks : count (par_chunks seven 3) ≡ 3
unfolding count par_chunks partition_count
three_chunks = refl

chunks_apart_example :
    let a = (get_unchecked_chunk (par_chunks seven 3) 0).cells in
    let b = (get_unchecked_chunk (par_chunks seven 3) 2).cells in
    (0 < a.len) × (1 ≤ a.base) × (a.base + a.len ≤ 1 + 7) × Disjoint a b
chunks_apart_example =
    chunks_apart seven 3 0 2 (omega arith) (omega arith) (omega (arith, three_chunks))
      (omega (arith, three_chunks)) (omega arith)

chunks_cover_example :
    flatten (
      tabulate
        (count (par_chunks seven 3))
        0
        (λ i. as_slice memory (get_unchecked_chunk (par_chunks seven 3) i)))
    ≡ as_slice memory seven
chunks_cover_example = chunks_cover memory seven 3 (omega arith) (omega arith)

partition_count_ceiling_example :
    (7 ≤ partition_count 7 3 * 3)
    × (partition_count 7 3 * 3 < 7 + 3)
    × (partition_count 7 3 ≤ 7)
    × ((i : ℕ) → (i < partition_count 7 3) ↔ (i * 3 < 7))
partition_count_ceiling_example = partition_count_ceiling 3 (omega arith) 7 (omega arith)

abbrev seven_left : ShardChunks
seven_left = record { rest = some (record { base = 1; len = 7 }); chunk = 3 }

size_hint-next_example :
    (o : Option WriterShard) × (s : ShardChunks) × (next seven_left ≡ some (o, s))
    × (size_hint seven_left ≡ size_hint s + (elim o [ none ↦ 0 | some w ↦ 1 ]))
    × ((o ≡ none) ↔ (size_hint seven_left ≡ 0))
size_hint-next_example = size_hint-next 1 7 3 (omega arith) (omega arith)

chunks-collect_example :
    collect 4 (chunks seven 3)
    ≡ some (tabulate (count (par_chunks seven 3)) 0 (get_unchecked_chunk (par_chunks seven 3)))
chunks-collect_example =
    chunks-collect seven 3 4 (omega arith) (omega arith) (omega (arith, three_chunks))

-- `usize::MAX` cells that take no space, in two chunks of `1 << 63`.
abbrev vast : ParChunks
vast = record { base = 0; len = 2 ^ 64 - 1; chunk = 2 ^ 63 }

two_chunks : 1 < count vast
unfolding count partition_count
two_chunks = omega arith

wrapped_chunk_overruns_example :
    ((get_unchecked_chunk vast 1).cells.len ≡ 2 ^ 63)
    × (2 ^ 64 - 1 < 1 * 2 ^ 63 + (get_unchecked_chunk vast 1).cells.len)
wrapped_chunk_overruns_example =
    wrapped_chunk_overruns vast 1 (omega arith) (omega arith) (omega arith) two_chunks (omega arith)
