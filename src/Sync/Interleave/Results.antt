-- ===== src/Sync/Interleave/Results.antt =====
-- What `drive` (src/sync/scoped/partition/driver_core.rs) makes of a buffer that interleaved tasks
-- have left.
use melinoe.Prelude.{
  ℕ, ◌*◌, ◌≤◌, ◌<◌, ◌≡◌, refl, sym, ap, ◌∙◌, none, some, List, [], All, flatten, tabulate,
  overwrite,
}
use melinoe.Machine.{usize_mod, mul_usize}
use melinoe.Region.Shard.{WriterShard, Disjoint, as_slice}
use melinoe.Region.ParChunks.{count, get_unchecked_chunk, par_chunks}
use melinoe.Region.ParChunks.Tile.{InMemory}
use melinoe.Sync.Executor.{Executor, Honours, execute}
use melinoe.Sync.Driver.{results, conclude, drive}
use melinoe.Sync.Map.Confined.{on_slice, chunk_of}
use melinoe.Sync.Map.Correct.{calm, driven}
use melinoe.Sync.Interleave.{Work, over, complete, interleave, start}
use melinoe.Sync.Interleave.Ended.{serial}
use melinoe.Sync.Interleave.Serial.{interleave-task_wrapper}

module _ {P A R : Type 0} (w : WriterShard) (c : ℕ) (m : InMemory w) (k : 1 ≤ c)
    (fits : c < usize_mod) (work : ℕ → Work P A R) (mem : List A) (schedule : List ℕ)
    (below : All (λ i. i < count (par_chunks w c)) schedule) where
  abbrev n : ℕ
  n = count (par_chunks w c)

  abbrev given : ℕ → List A
  given i = chunk_of (as_slice mem w) c i

  -- What an interleaving comes to is what `drive` comes to on some executor that honours its contract.
  pub interleave-drive :
      (threads : ℕ → List ℕ)
      → let s = interleave (par_chunks w c) schedule (start n (λ i. work (mul_usize i c)) mem) in
        ((i : ℕ) → i < n → s.phases i ≡ over)
        → (x : Executor P) × Honours n (x.call n)
          × ((x.call n).unwinds ≡ none)
          × (drive (some x) threads n (serial w c m k fits work mem) mem
              ≡ (conclude s.buffer, s.memory))
  unfolding drive execute
  interleave-drive threads all =
      let (order, once, complete_order, same) =
        interleave-task_wrapper w c m k fits work mem schedule below all in
      (
        record { call = λ _. record { order = order; unwinds = none } },
        record { once = once; all = λ _. complete_order },
        refl,
        ap (λ st. (conclude st.0, st.1)) (sym same),
      )

  -- For closures that come to `f` on the values of their shard and do not panic, and at least one
  -- shard: however their steps interleave, once every task is over `drive` returns the results in
  -- index order, the region holds the shards' new values in index order, and any other stretch of
  -- memory what it held before.
  pub interleave_results :
      (f : ℕ → List A → R × List A) (v : WriterShard)
      → ((first : ℕ) (xs : List A) → complete (work first) xs ≡ calm f first xs)
      → 1 ≤ n
      → Disjoint w.cells v.cells
      → let s = interleave (par_chunks w c) schedule (start n (λ i. work (mul_usize i c)) mem) in
        ((i : ℕ) → i < n → s.phases i ≡ over)
        → (conclude s.buffer ≡ results (tabulate n 0 (λ i. (f (i * c) (given i)).0)))
          × (as_slice s.memory w
              ≡ flatten (tabulate n 0 (λ i. overwrite (given i) (f (i * c) (given i)).1)))
          × (as_slice s.memory v ≡ as_slice mem v)
  interleave_results f v h pos d all =
      let (x, honours, back, same) = interleave-drive (λ _. []) all in
      let (mem', ran, done) = driven (some x) (λ _. []) w c m k fits f mem pos (honours, back) in
      let calls : serial w c m k fits work mem ≡ (λ index now.
        on_slice (calm f) (mul_usize index c) (get_unchecked_chunk (par_chunks w c) index) now) =
        λ t index now.
          on_slice (λ first xs. h first xs t) (mul_usize index c)
            (get_unchecked_chunk (par_chunks w c) index) now in
      let ends = sym same ∙ ap (λ run. drive (some x) (λ _. []) n run mem) calls ∙ ran in
      let now = ap (λ r. r.1) ends in
      (
        ap (λ r. r.0) ends,
        ap (λ z. as_slice z w) now ∙ done.0,
        ap (λ z. as_slice z v) now ∙ done.1 v d,
      )
