-- ===== src/Region/ParChunks/Wrap.antt =====
-- `ParChunks::get_unchecked_chunk` (src/region/par_chunks.rs) over cells that take no space: such a
-- region may hold more than `isize::MAX` cells, and then the end of a chunk can wrap.
use melinoe.Prelude.{ℕ, zero, suc, ◌+◌, ◌*◌, ◌≤◌, ◌<◌, ◌≡◌, arith}
use melinoe.Machine.{usize_mod}
use melinoe.Region.Tiling.Ceiling.{partition_count_ceiling}
use melinoe.Region.ParChunks.{ParChunks, count, get_unchecked_chunk}

later_chunk :
    (i c l : ℕ) → i * c < l → l < usize_mod → usize_mod ≤ i * c + c → c < usize_mod → c ≤ i * c
later_chunk zero c l h k w m = absurd (omega arith)
later_chunk (suc i) c l h k w m = omega arith

-- If the end of an existing chunk does not fit `usize`, the shard of that chunk has the full chunk
-- size and overruns the region.
pub wrapped_chunk_overruns :
    (p : ParChunks) (i : ℕ)
    → 1 ≤ p.chunk
    → p.chunk < usize_mod
    → p.len < usize_mod
    → i < count p
    → usize_mod ≤ i * p.chunk + p.chunk
    → ((get_unchecked_chunk p i).cells.len ≡ p.chunk)
      × (p.len < i * p.chunk + (get_unchecked_chunk p i).cells.len)
unfolding get_unchecked_chunk count
wrapped_chunk_overruns p i k m l h w =
    let s = ((partition_count_ceiling p.chunk k p.len l).3 i).0 h in
    ground (arith, later_chunk i p.chunk p.len s l w m)
