-- ===== src/Region/Chunks.antt =====
-- src/region/chunks.rs: the iterator that carves shards off the front of a region.
pub mod Sequence
use melinoe.Prelude.{ℕ, zero, suc, Option, none, some, List, [], ◌∷◌, min, max, ◌==◌, if◌then◌else◌}
use melinoe.Region.Tiling.{partition_count}
use melinoe.Region.Shard.{CellSlice, WriterShard, new as shard, split_at_mut}

pub record ShardChunks : Type 0 where
  pub rest : Option CellSlice
  pub chunk : ℕ

-- `WriterShard::chunks`
unfoldable pub chunks : WriterShard → ℕ → ShardChunks
chunks w chunk_size = record { rest = some w.cells; chunk = max chunk_size 1 }

-- One call of `next` on what `rest.take()` gave; the outer `none` is the panic of `split_at_mut`.
next_on : Option CellSlice → ℕ → Option (Option WriterShard × ShardChunks)
unfolding split_at_mut
next_on none chunk = some (none, record { rest = none; chunk = chunk })
next_on (some slice) chunk =
    if slice.len == 0
    then some (none, record { rest = none; chunk = chunk })
    else elim (split_at_mut slice (min chunk slice.len)) [
      | none ↦ none
      | some (head, tail) ↦ some (some (shard head), record { rest = some tail; chunk = chunk })
    ]

unfoldable pub next : ShardChunks → Option (Option WriterShard × ShardChunks)
unfolding next_on
next s = next_on s.rest s.chunk

-- Both bounds of `size_hint`, the value of `len`.
unfoldable pub size_hint : ShardChunks → ℕ
size_hint s = partition_count (elim s.rest [ none ↦ 0 | some slice ↦ slice.len ]) s.chunk

-- A `for` loop over the iterator, which calls `next` at most `fuel` times.
unfoldable pub collect : ℕ → ShardChunks → Option (List WriterShard)
collect zero s = none
collect (suc fuel) s = elim (next s) [
  | none ↦ none
  | some (none, s') ↦ some []
  | some (some w, s') ↦ elim (collect fuel s') [ none ↦ none | some ws ↦ some (w ∷ ws) ]
]
