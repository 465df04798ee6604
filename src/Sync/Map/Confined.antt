-- ===== src/Sync/Map/Confined.antt =====
-- Closures that work on the values of their own shard, as `BrandedVec::partition_map_mut_with` makes
-- them: what the others see does not depend on when they run.
use melinoe.Prelude.{
  ℕ, ◌*◌, ◌≤◌, ◌<◌, ◌≡◌, refl, ap, ◌∙◌, inl, inr, false, List, [], ◌∷◌, slice, overwrite, max, ◌==◌,
  ==→eq, ==→ne, ==_refl, if◌then◌else◌, Bool-cases, arith,
}
use melinoe.Prelude.Orders.{contains}
use melinoe.Machine.{Outcome, usize_mod, mul_usize}
use melinoe.Region.Shard.{WriterShard, Disjoint, as_slice, as_mut_slice}
use melinoe.Region.Shard.Split.{as_slice-as_mut_slice_self, as_slice-as_mut_slice-Disjoint}
use melinoe.Region.ParChunks.{count, get_unchecked_chunk, par_chunks}
use melinoe.Region.ParChunks.Tile.{
  InMemory, chunks_apart, chunk_within, as_slice-chunk, start_lt, par_chunks-IsView,
}

module _ {P A R : Type 0} where
  -- `|start, mut shard| f(start, shard.as_mut_slice())`
  abbrev pub on_slice :
      (ℕ → List A → Outcome P R × List A) → ℕ → WriterShard → List A → Outcome P R × List A
  on_slice f start w mem = as_mut_slice w (f start) mem

-- The `i`-th chunk of the values of a region.
abbrev pub chunk_of {ℓ} : {A : Type ℓ} → List A → ℕ → ℕ → List A
chunk_of xs c i = slice xs (i * c) c

module _ {P A R : Type 0} (w : WriterShard) (c : ℕ) (m : InMemory w) (k : 1 ≤ c)
    (fits : c < usize_mod) (f : ℕ → List A → Outcome P R × List A) (mem : List A) where
  -- What task `i` does to its chunk.
  abbrev pub updated : ℕ → List A
  updated i =
      overwrite (chunk_of (as_slice mem w) c i) (f (i * c) (chunk_of (as_slice mem w) c i)).1

  -- The memory after the tasks of `done`: a chunk is updated or as it was, and so is the rest.
  pub record Progress (done : List ℕ) (now : List A) : Type 0 where
    pub chunk_at :
        (i : ℕ)
        → i < count (par_chunks w c)
        → as_slice now (get_unchecked_chunk (par_chunks w c) i)
          ≡ (if contains done i then updated i else chunk_of (as_slice mem w) c i)
    pub elsewhere : (v : WriterShard) → Disjoint w.cells v.cells → as_slice now v ≡ as_slice mem v

  pub chunk_at_start :
      (i : ℕ)
      → i < count (par_chunks w c)
      → as_slice mem (get_unchecked_chunk (par_chunks w c) i) ≡ chunk_of (as_slice mem w) c i
  chunk_at_start i h =
      as_slice-chunk mem w c i m fits h
      ∙ ap (λ t. chunk_of (as_slice mem w) t i) (let e : max c 1 ≡ c = omega arith in e)

  pub Progress-start : Progress [] mem
  Progress-start = record { chunk_at = chunk_at_start; elsewhere = λ v d. refl }

  -- The start index of an existing chunk does not wrap.
  pub start_exact : (i : ℕ) → i < count (par_chunks w c) → mul_usize i c ≡ i * c
  unfolding par_chunks
  start_exact i h =
      let e : max c 1 ≡ c = omega arith in
      let s = start_lt (par_chunks w c) (par_chunks-IsView w c m fits) i h in
      omega (arith, s, ap (λ t. i * t) e)

  -- A disjoint shard of the region is disjoint from each of its chunks.
  piece_within :
      (i : ℕ) (v : WriterShard)
      → i < count (par_chunks w c)
      → Disjoint w.cells v.cells
      → Disjoint (get_unchecked_chunk (par_chunks w c) i).cells v.cells
  piece_within i v h d = ground (arith, chunk_within w c i m fits h)

  module _ (done : List ℕ) (i : ℕ) (now : List A) (lt : i < count (par_chunks w c))
      (new : contains done i ≡ false) (p : Progress done now) where
    task_sees :
        as_slice now (get_unchecked_chunk (par_chunks w c) i) ≡ chunk_of (as_slice mem w) c i
    task_sees = p.chunk_at i lt ∙ (rw new)

    pub task_outcome :
        (on_slice f (mul_usize i c) (get_unchecked_chunk (par_chunks w c) i) now).0
        ≡ (f (i * c) (chunk_of (as_slice mem w) c i)).0
    unfolding as_mut_slice
    task_outcome = rw (start_exact i lt) (ap (λ xs. (f (i * c) xs).0) task_sees)

    task_updates :
        as_slice
          (on_slice f (mul_usize i c) (get_unchecked_chunk (par_chunks w c) i) now).1
          (get_unchecked_chunk (par_chunks w c) i)
        ≡ updated i
    task_updates =
        as_slice-as_mut_slice_self now (get_unchecked_chunk (par_chunks w c) i) (f (mul_usize i c))
        ∙ ap (λ xs. overwrite xs (f (mul_usize i c) xs).1) task_sees
        ∙ ap
            (λ t. overwrite (chunk_of (as_slice mem w) c i) (f t (chunk_of (as_slice mem w) c i)).1)
            (start_exact i lt)

    pub task_Progress :
        Progress
          (i ∷ done)
          (on_slice f (mul_usize i c) (get_unchecked_chunk (par_chunks w c) i) now).1
    task_Progress = record {
      chunk_at = λ j h. elim (Bool-cases (i == j)) [
        | inl e ↦ let q = ==→eq i j e in rw (← q, ==_refl i) task_updates
        | inr ne ↦ rw ne (
            as_slice-as_mut_slice-Disjoint now (get_unchecked_chunk (par_chunks w c) i)
              (f (mul_usize i c)) (get_unchecked_chunk (par_chunks w c) j)
              (chunks_apart w c i j m fits lt h (==→ne i j ne)).3
            ∙ p.chunk_at j h)
      ];
      elsewhere = λ v d.
          as_slice-as_mut_slice-Disjoint now (get_unchecked_chunk (par_chunks w c) i)
            (f (mul_usize i c)) v (piece_within i v lt d)
          ∙ p.elsewhere v d;
    }
