-- ===== src/Vector/Partition.antt =====
-- `BrandedVec::partition_map_mut_with` (src/collections/branded_vec/partition.rs).
use melinoe.Prelude.{
  ℕ, ◌*◌, ◌≤◌, ◌<◌, ◌≡◌, sym, ap, ap₂, ◌∙◌, inl, List, length, length-slice, slice_all, slice_past,
  flatten, tabulate, overwrite, arith,
}
use melinoe.Machine.{slice_mod}
use melinoe.Region.Tiling.{partition_count}
use melinoe.Region.Shard.{CellSlice, WriterShard, as_slice, new as shard}
use melinoe.Sync.Plan.{PartitionPlan, resolve}
use melinoe.Sync.Plan.Bounds.{IsPlan}
use melinoe.Sync.Process.{Process}
use melinoe.Sync.Driver.{results}
use melinoe.Sync.Driver.Results.{RunsAll}
use melinoe.Sync.Map.{partition_map_with}
use melinoe.Sync.Map.Confined.{on_slice, chunk_of}
use melinoe.Sync.Map.Correct.{calm, partition_map_with_lem}
use melinoe.Vector.{BrandedVec, of, partition_map_mut_with}

module _ {P A R : Type 0} (process : Process P) (v : BrandedVec A) (plan : PartitionPlan)
    (f : ℕ → List A → R × List A) where
  abbrev pub chunk : ℕ
  chunk = resolve process.cores plan (length v.cells)

  abbrev pub chunks : ℕ
  chunks = partition_count (length v.cells) chunk

  -- For a vector in memory, a valid plan and a driver that runs every task once, a closure that works
  -- on the values of its shard and does not panic gets the consecutive chunks of the vector with
  -- their start indices; the call returns its results in index order, and the vector holds the new
  -- values in index order and nothing else.
  pub partition_map_mut_with-chunks :
      length v.cells < slice_mod
      → IsPlan process.cores plan
      → RunsAll process.registry process.threads chunks
      → (partition_map_mut_with process plan (calm f) v ≡ (
        results (tabulate chunks 0 (λ i. (f (i * chunk) (chunk_of v.cells chunk i)).0)),
        of (
            flatten (
              tabulate chunks 0 (λ i.
                overwrite
                  (chunk_of v.cells chunk i)
                  (f (i * chunk) (chunk_of v.cells chunk i)).1))),
      ))
  unfolding partition_map_mut_with as_slice
  partition_map_mut_with-chunks h p runs =
      let cells : CellSlice = record { base = 0; len = length v.cells } in
      let run = partition_map_with process cells plan (on_slice (calm f)) v.cells in
      let beyond : WriterShard = shard (record { base = length v.cells; len = length run.1 }) in
      let (now, ran, values, kept) =
        partition_map_with_lem process cells plan f v.cells (omega (arith, h)) p runs beyond
          (inl (omega arith)) in
      let same : length run.1 ≡ length now = ap (λ r. length r.1) ran in
      let none_left =
        ap length (kept ∙ slice_past v.cells (length v.cells) (length run.1) (omega arith)) in
      let short : length now ≤ length v.cells =
        omega (arith, same, none_left, length-slice now (length v.cells) (length run.1)) in
      let whole = slice_all v.cells (length v.cells) (omega arith) in
      ap (λ r. (r.0, of r.1)) ran
      ∙ ap₂ (λ rs xs. (rs, of xs))
          (ap (λ xs. results (tabulate chunks 0 (λ i. (f (i * chunk) (chunk_of xs chunk i)).0)))
            whole)
          (sym (slice_all now (length v.cells) short)
            ∙ values
            ∙ ap
                (λ xs. flatten (
                  tabulate chunks 0
                    (λ i. overwrite (chunk_of xs chunk i) (f (i * chunk) (chunk_of xs chunk i)).1)))
                whole)
