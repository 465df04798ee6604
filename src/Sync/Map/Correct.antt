-- ===== src/Sync/Map/Correct.antt =====
-- What `partition_map_with` (src/sync/scoped/partition/map.rs) computes.
use melinoe.Prelude.{
  ℕ, ◌*◌, ◌≤◌, ◌<◌, ◌≡◌, refl, sym, ap, ◌∙◌, inl, inr, List, [], overwrite, max, ◌==◌, ==→eq, ==→ne,
  if◌then◌else◌, Bool-cases, arith, flatten, tabulate, tabulate_ext,
}
use melinoe.Prelude.Orders.{IsComplete}
use melinoe.Machine.{Outcome, returned, usize_mod, mul_usize}
use melinoe.Region.Tiling.{partition_count}
use melinoe.Region.Shard.{CellSlice, WriterShard, Disjoint, as_slice, new as shard}
use melinoe.Region.ParChunks.{count, get_unchecked_chunk, par_chunks}
use melinoe.Region.ParChunks.Tile.{InMemory, chunks_cover, count-par_chunks}
use melinoe.Sync.Plan.{PartitionPlan, resolve}
use melinoe.Sync.Plan.Bounds.{IsPlan, resolve_bounds}
use melinoe.Sync.Executor.{Registry}
use melinoe.Sync.Process.{Process}
use melinoe.Sync.Driver.{results, drive}
use melinoe.Sync.Driver.Results.{RunsAll, drive_results}
use melinoe.Sync.Map.{partition_map_with}
use melinoe.Sync.Map.Confined.{
  on_slice, chunk_of, Progress, Progress-start, task_outcome, task_Progress,
}

-- A closure on slices that does not panic.
abbrev pub calm : {P A R : Type 0} → (ℕ → List A → R × List A) → ℕ → List A → Outcome P R × List A
calm f start xs = let (r, ys) = f start xs in (returned r, ys)

-- The theorem for the shards of `par_chunks`.
module _ {P A R : Type 0} (registry : Registry P) (threads : ℕ → List ℕ) (w : WriterShard) (c : ℕ)
    (m : InMemory w) (k : 1 ≤ c) (fits : c < usize_mod) (f : ℕ → List A → R × List A)
    (mem : List A) where
  abbrev n : ℕ
  n = count (par_chunks w c)

  abbrev given : ℕ → List A
  given i = chunk_of (as_slice mem w) c i

  abbrev pub Done : List A → Type 0
  Done now =
      (as_slice now w ≡ flatten (tabulate n 0 (λ i. overwrite (given i) (f (i * c) (given i)).1)))
      × ((v : WriterShard) → Disjoint w.cells v.cells → as_slice now v ≡ as_slice mem v)

  finished :
      (done : List ℕ) (now : List A)
      → IsComplete n done
      → Progress {P = P} w c m k fits (calm f) mem done now
      → Done now
  finished done now all p = (
    sym (chunks_cover now w c m fits)
        ∙ ap flatten (
            tabulate_ext n 0 (λ i. as_slice now (get_unchecked_chunk (par_chunks w c) i))
              (λ i. overwrite (given i) (f (i * c) (given i)).1)
              (λ i _ h. p.chunk_at i (omega arith) ∙ rw (all i (omega arith)))),
    p.elsewhere,
  )

  pub driven :
      1 ≤ n
      → RunsAll registry threads n
      → (mem' : List A) × (drive registry threads n
            (λ index now.
              on_slice {P = P}
                (calm f)
                (mul_usize index c)
                (get_unchecked_chunk (par_chunks w c) index)
                now)
            mem
          ≡ (results (tabulate n 0 (λ i. (f (i * c) (given i)).0)), mem'))
        × Done mem'
  driven pos runs =
      drive_results n
        (λ index now.
          on_slice (calm f) (mul_usize index c) (get_unchecked_chunk (par_chunks w c) index) now)
        (λ i. (f (i * c) (given i)).0) (Progress w c m k fits (calm f) mem) Done
        (λ done i now lt new p. (
          task_outcome w c m k fits (calm f) mem done i now lt new p,
          task_Progress w c m k fits (calm f) mem done i now lt new p,
        ))
        finished registry threads mem pos runs (Progress-start w c m k fits (calm f) mem)

  mapped :
      RunsAll registry threads n
      → (mem' : List A) × ((if n == 0
            then (results [], mem)
            else drive registry threads n
                (λ index now.
                  on_slice {P = P}
                    (calm f)
                    (mul_usize index c)
                    (get_unchecked_chunk (par_chunks w c) index)
                    now)
                mem)
          ≡ (results (tabulate n 0 (λ i. (f (i * c) (given i)).0)), mem'))
        × Done mem'
  mapped runs = elim (Bool-cases (n == 0)) [
    | inl empty ↦
        let z : n ≡ 0 = ==→eq n 0 empty in
        (mem, rw (empty, z), (sym (chunks_cover mem w c m fits) ∙ rw z, λ v d. refl))
    | inr some_shard ↦ rw some_shard (driven (let q = ==→ne n 0 some_shard in omega arith) runs)
  ]

module _ {P A R : Type 0} (process : Process P) (cells : CellSlice) (plan : PartitionPlan)
    (f : ℕ → List A → R × List A) (mem : List A) where
  -- The length of a shard, their number, and the values that shard `i` holds at the start.
  abbrev pub shard_len : ℕ
  shard_len = resolve process.cores plan cells.len

  abbrev pub shard_count : ℕ
  shard_count = partition_count cells.len shard_len

  abbrev pub shard_values : ℕ → List A
  shard_values i = chunk_of (as_slice mem (shard cells)) shard_len i

  -- For a region in memory, a valid plan and a driver that runs every task once: a closure that works
  -- on the values of its shard and does not panic gets, for each shard, the index of its first cell
  -- and its values; the call returns what it returned, in index order; afterwards the region holds
  -- the shards' new values in index order, and any other stretch of memory what it held before. No
  -- order of the tasks and no choice of the driver makes a difference.
  pub partition_map_with_lem :
      InMemory (shard cells)
      → IsPlan process.cores plan
      → RunsAll process.registry process.threads shard_count
      → (v : WriterShard) → Disjoint cells v.cells
      → (mem' : List A) × (partition_map_with process cells plan (on_slice (calm f)) mem
          ≡ (results (tabulate shard_count 0 (λ i. (f (i * shard_len) (shard_values i)).0)), mem'))
        × (as_slice mem' (shard cells)
            ≡ flatten (
                tabulate shard_count 0
                  (λ i. overwrite (shard_values i) (f (i * shard_len) (shard_values i)).1)))
        × (as_slice mem' v ≡ as_slice mem v)
  unfolding partition_map_with
  partition_map_with_lem m p runs v d =
      let b = (resolve_bounds process.cores plan cells.len (omega arith) p).0 in
      let e : max shard_len 1 ≡ shard_len = omega arith in
      let q = count-par_chunks (shard cells) shard_len b.0 in
      rw (e, ← q)
        (let (mem', ran, now) =
            mapped process.registry process.threads (shard cells) shard_len m b.0 b.1 f mem
              (rw q runs) in
          (mem', ran, now.0, now.1 v d))
