-- ===== src/Region/ParChunks/Tile.antt =====
-- The shards of `ParChunks` (src/region/par_chunks.rs) tile the region.
use melinoe.Prelude.{
  ℕ, zero, suc, ◌+◌, ◌-◌, ◌*◌, ◌≤◌, ◌<◌, ◌≡◌, ◌≢◌, ap, sym, ◌∙◌, arith, min, max, List, tabulate,
  flatten, slice, slice-slice, flatten-chunks, tabulate_ext, length-slice,
}
use melinoe.Machine.{usize_mod, slice_mod}
use melinoe.Region.Tiling.{partition_count}
use melinoe.Region.Tiling.Ceiling.{partition_count_ceiling}
use melinoe.Region.Shard.{WriterShard, Disjoint, as_slice, new as shard}
use melinoe.Region.ParChunks.{ParChunks, count, range, get_unchecked_chunk, par_chunks}

-- A view as `new` makes it of a slice that lies in memory: no address of it wraps.
pub record IsView (p : ParChunks) : Type 0 where
  pub chunk_pos : 1 ≤ p.chunk
  pub chunk_fits : p.chunk < usize_mod
  pub len_fits : p.len < slice_mod
  pub end_fits : p.base + p.len < usize_mod

-- A chunk that does not start at 0 is shorter than the region.
chunk_end_fits : (i c l : ℕ) → i * c < l → l < slice_mod → c < usize_mod → i * c + c < usize_mod
chunk_end_fits zero c l h k m = omega arith
chunk_end_fits (suc i) c l h k m = omega arith

module _ (p : ParChunks) (v : IsView p) where
  pub start_lt : (i : ℕ) → i < count p → i * p.chunk < p.len
  unfolding count
  start_lt i h = ((partition_count_ceiling p.chunk v.chunk_pos p.len (omega arith)).3 i).0 h

  range_lem : (i : ℕ) → i < count p → range p i ≡ (i * p.chunk, min (i * p.chunk + p.chunk) p.len)
  unfolding range
  range_lem i h =
      ground
        (arith, start_lt i h, chunk_end_fits i p.chunk p.len (start_lt i h) v.len_fits v.chunk_fits)

  pub get_unchecked_chunk_lem :
      (i : ℕ)
      → i < count p
      → get_unchecked_chunk p i
        ≡ shard (record { base = p.base + i * p.chunk; len = min p.chunk (p.len - i * p.chunk) })
  unfolding get_unchecked_chunk
  get_unchecked_chunk_lem i h =
      ground
        (arith, start_lt i h, chunk_end_fits i p.chunk p.len (start_lt i h) v.len_fits v.chunk_fits)

-- The shard at an index below the count, for a slice in memory and any chunk size of `usize`.
abbrev pub InMemory : WriterShard → Type 0
InMemory w = (w.cells.len < slice_mod) × (w.cells.base + w.cells.len < usize_mod)

pub par_chunks-IsView :
    (w : WriterShard) (c : ℕ) → InMemory w → c < usize_mod → IsView (par_chunks w c)
unfolding par_chunks
par_chunks-IsView w c m h = omega arith

pub count-par_chunks :
    (w : WriterShard) (c : ℕ) → 1 ≤ c → count (par_chunks w c) ≡ partition_count w.cells.len c
unfolding par_chunks count
count-par_chunks w c k = ap (partition_count w.cells.len) (let e : max c 1 ≡ c = omega arith in e)

-- Every index below the count names a shard that is not empty and lies within the region.
pub chunk_within :
    (w : WriterShard) (c i : ℕ)
    → InMemory w
    → c < usize_mod
    → i < count (par_chunks w c)
    → let a = (get_unchecked_chunk (par_chunks w c) i).cells in
      (0 < a.len) × (w.cells.base ≤ a.base) × (a.base + a.len ≤ w.cells.base + w.cells.len)
unfolding par_chunks
chunk_within w c i m h hi =
    let v = par_chunks-IsView w c m h in
    rw (get_unchecked_chunk_lem (par_chunks w c) v i hi)
      (ground (arith, start_lt (par_chunks w c) v i hi))

lt_mul : (i j c : ℕ) → i < j → i * c + c ≤ j * c
lt_mul i j c h = grind arith

-- Every index below the count names a shard that is not empty and lies within the region, and two
-- indices below the count name shards that share no cell.
pub chunks_apart :
    (w : WriterShard) (c i j : ℕ)
    → InMemory w
    → c < usize_mod
    → i < count (par_chunks w c)
    → j < count (par_chunks w c)
    → i ≢ j
    → let a = (get_unchecked_chunk (par_chunks w c) i).cells in
      let b = (get_unchecked_chunk (par_chunks w c) j).cells in
      (0 < a.len)
      × (w.cells.base ≤ a.base)
      × (a.base + a.len ≤ w.cells.base + w.cells.len)
      × Disjoint a b
unfolding par_chunks
chunks_apart w c i j m h hi hj ne =
    let v = par_chunks-IsView w c m h in
    let p = par_chunks w c in
    rw (get_unchecked_chunk_lem p v i hi, get_unchecked_chunk_lem p v j hj)
      (ground (arith, start_lt p v i hi, start_lt p v j hj, lt_mul i j p.chunk, lt_mul j i p.chunk))

-- The shard at an index below the count shows its chunk of what the region shows.
pub as_slice-chunk {ℓ} :
    {A : Type ℓ} (mem : List A) (w : WriterShard) (c i : ℕ)
    → InMemory w
    → c < usize_mod
    → i < count (par_chunks w c)
    → as_slice mem (get_unchecked_chunk (par_chunks w c) i)
      ≡ slice (as_slice mem w) (i * max c 1) (max c 1)
unfolding par_chunks as_slice
as_slice-chunk mem w c i m h hi =
    rw (get_unchecked_chunk_lem (par_chunks w c) (par_chunks-IsView w c m h) i hi)
      (sym (slice-slice mem w.cells.base w.cells.len (i * max c 1) (max c 1)))

-- For a region in memory and a chunk length that fits `usize`: the values of the shards, in index
-- order, are the values of the region.
pub chunks_cover {ℓ} :
    {A : Type ℓ} (mem : List A) (w : WriterShard) (c : ℕ)
    → InMemory w
    → c < usize_mod
    → let p = par_chunks w c in
      flatten (tabulate (count p) 0 (λ i. as_slice mem (get_unchecked_chunk p i))) ≡ as_slice mem w
unfolding par_chunks as_slice count
chunks_cover mem w c m h =
    let p = par_chunks w c in
    ap flatten (
      tabulate_ext (count p) 0 (λ i. as_slice mem (get_unchecked_chunk p i))
        (λ i. slice (as_slice mem w) (i * max c 1) (max c 1))
        (λ i _ hi. as_slice-chunk mem w c i m h (omega arith)))
    ∙ flatten-chunks (as_slice mem w) (max c 1) (count p) (
        omega (
          arith,
          length-slice mem w.cells.base w.cells.len,
          (partition_count_ceiling (max c 1) (omega arith) w.cells.len (omega arith)).0,
        ))
