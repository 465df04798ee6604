-- ===== src/Region/ParChunks.antt =====
-- src/region/par_chunks.rs: the indexed view of the disjoint shards of a region.
pub mod Tile
pub mod Wrap
use melinoe.Prelude.{ℕ, Bool, ltb, if◌then◌else◌, max, ◌==◌}
use melinoe.Machine.{add_usize, mul_usize, sub_usize}
use melinoe.Region.Tiling.{partition_count}
use melinoe.Region.Shard.{CellSlice, WriterShard, new as shard}

-- `base` stands for the pointer to the first cell.
pub record ParChunks : Type 0 where
  pub base : ℕ
  pub len : ℕ
  pub chunk : ℕ

unfoldable pub new : CellSlice → ℕ → ParChunks
new cells chunk_size = record { base = cells.base; len = cells.len; chunk = max chunk_size 1 }

-- `ParChunks::len`
unfoldable pub count : ParChunks → ℕ
count p = partition_count p.len p.chunk

unfoldable pub is_empty : ParChunks → Bool
is_empty p = p.len == 0

-- `[start, end)` of partition `index`, each end held at the length of the region.
unfoldable pub range : ParChunks → ℕ → ℕ × ℕ
range p index =
    let start = mul_usize index p.chunk in
    let end = add_usize start p.chunk in
    let end' = if ltb end p.len then end else p.len in
    let start' = if ltb start p.len then start else p.len in (start', end')

-- The slice of `end - start` cells from `base + start` on.
unfoldable pub get_unchecked_chunk : ParChunks → ℕ → WriterShard
unfolding range
get_unchecked_chunk p index =
    let (start, end) = range p index in
    shard (record { base = add_usize p.base start; len = sub_usize end start })

-- `WriterShard::par_chunks`
unfoldable pub par_chunks : WriterShard → ℕ → ParChunks
unfolding new
par_chunks w chunk_size = new w.cells chunk_size
