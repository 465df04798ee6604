-- ===== src/Sync/ReadMap/Correct.antt =====
-- What `partition_read_map_with` (src/sync/scoped/partition/read_map.rs) computes.
use melinoe.Prelude.{
  ℕ, zero, suc, ◌+◌, ◌*◌, ◌≤◌, ◌<◌, ◌≡◌, refl, ap, ◌∙◌, inl, inr, false, none, some, List, [], ◌∷◌,
  length, slice_clip, flatten-chunks, min, max, tabulate, flatten, ◌==◌, ==→eq, ==→ne,
  if◌then◌else◌, Bool-cases, arith,
}
use melinoe.Prelude.Orders.{contains, IsComplete}
use melinoe.Machine.{Outcome, returned, usize_mod, slice_mod, add_usize, mul_usize}
use melinoe.Region.Tiling.{partition_count}
use melinoe.Region.Tiling.Ceiling.{partition_count_ceiling}
use melinoe.Sync.Plan.{PartitionPlan, resolve}
use melinoe.Sync.Plan.Bounds.{IsPlan, resolve_bounds}
use melinoe.Sync.Process.{Process}
use melinoe.Sync.Driver.{Ended, results, drive}
use melinoe.Sync.Driver.Results.{RunsAll, drive_results}
use melinoe.Sync.Map.Confined.{chunk_of}
use melinoe.Sync.ReadMap.{index_range, partition_read_map_with}

later_end : (i c l : ℕ) → i * c < l → l < slice_mod → c < usize_mod → i * c + c < usize_mod
later_end zero c l h k m = omega arith
later_end (suc i) c l h k m = omega arith

-- An index below the count names a sub-slice within the slice: its chunk.
index_range-chunk {ℓ} :
    {A : Type ℓ} (xs : List A) (c i : ℕ)
    → length xs < slice_mod
    → 1 ≤ c
    → c < usize_mod
    → i < partition_count (length xs) c
    → index_range xs (mul_usize i c) (min (add_usize (mul_usize i c) c) (length xs))
      ≡ some (chunk_of xs c i)
unfolding index_range
index_range-chunk xs c i h k m lt =
    let s = ((partition_count_ceiling c k (length xs) (omega arith)).3 i).0 lt in
    let e = later_end i c (length xs) s h m in ground (arith, s, e, slice_clip xs (i * c) c)

-- The call with sub-slices of `c` values.
module _ {P A R S : Type 0} (process : Process P) (xs : List A)
    (f : ℕ → List A → S → Outcome P R × S) (c : ℕ) where
  abbrev task : ℕ → S → Outcome P R × S
  task index st =
      elim (index_range xs (mul_usize index c)
        (min (add_usize (mul_usize index c) c) (length xs))) [
          | none ↦ (Outcome.panicked process.bounds_panic, st)
          | some shard ↦ f (mul_usize index c) shard st
        ]

  abbrev pub read_by : S → Ended P R × S
  read_by s =
      if partition_count (length xs) c == 0
      then (results [], s)
      else drive process.registry process.threads (partition_count (length xs) c) task s

-- The theorem for any closure whose tasks are independent: `J done s` holds of the state that the
-- tasks of `done` leave, and there any other task returns what `val` says.
module _ {ℓ κ} {P A R S : Type 0} (process : Process P) (xs : List A) (c : ℕ)
    (f : ℕ → List A → S → Outcome P R × S) (h : length xs < slice_mod) (k : 1 ≤ c)
    (m : c < usize_mod) (val : ℕ → R) (J : List ℕ → S → Type ℓ) (Final : S → Type κ)
    (step : (done : List ℕ) (i : ℕ) (s : S)
      → i < partition_count (length xs) c
      → contains done i ≡ false
      → J done s
      → ((f (i * c) (chunk_of xs c i) s).0 ≡ returned (val i))
        × J (i ∷ done) (f (i * c) (chunk_of xs c i) s).1)
    (finish : (done : List ℕ) (s : S)
      → IsComplete (partition_count (length xs) c) done
      → J done s
      → Final s) where
  task_lem :
      (i : ℕ) (s : S)
      → i < partition_count (length xs) c
      → task process xs f c i s ≡ f (i * c) (chunk_of xs c i) s
  task_lem i s lt =
      let b = ((partition_count_ceiling c k (length xs) (omega arith)).3 i).0 lt in
      let e : mul_usize i c ≡ i * c = omega arith in
      rw (index_range-chunk xs c i h k m lt, task) (ap (λ t. f t (chunk_of xs c i) s) e)

  pub read_driven :
      (s : S)
      → RunsAll process.registry process.threads (partition_count (length xs) c)
      → J [] s
      → (s' : S) × (read_by process xs f c s
          ≡ (results (tabulate (partition_count (length xs) c) 0 val), s'))
        × Final s'
  read_driven s runs start = elim (Bool-cases (partition_count (length xs) c == 0)) [
    | inl empty ↦
        let z = ==→eq (partition_count (length xs) c) 0 empty in
        (s, rw (empty, z), finish [] s (λ i lt. absurd (omega arith)) start)
    | inr more ↦ rw more (
        drive_results (partition_count (length xs) c) (task process xs f c) val J Final
          (λ done i now lt new j. rw (task_lem i now lt) (step done i now lt new j)) finish
          process.registry process.threads s
          (let q = ==→ne (partition_count (length xs) c) 0 more in omega arith) runs start)
  ]

module _ {P A : Type 0} (process : Process P) (xs : List A) (plan : PartitionPlan) where
  -- The length of a sub-slice, and their number.
  abbrev pub read_len : ℕ
  read_len = resolve process.cores plan (length xs)

  abbrev pub read_count : ℕ
  read_count = partition_count (length xs) read_len

  -- For a slice in memory, a valid plan and a driver that runs every task once: a closure that reads
  -- its sub-slice and does not panic gets the consecutive sub-slices, which joined are the slice,
  -- each with the index of its first element; the call returns what it returned, in index order.
  pub partition_read_map_with_lem :
      (R S : Type 0) (f : ℕ → List A → R) (s : S)
      → length xs < slice_mod
      → IsPlan process.cores plan
      → RunsAll process.registry process.threads read_count
      → (partition_read_map_with process xs plan (λ start shard s. (returned (f start shard), s)) s
          ≡ (results (tabulate read_count 0 (λ i. f (i * read_len) (chunk_of xs read_len i))), s))
        × (flatten (tabulate read_count 0 (chunk_of xs read_len)) ≡ xs)
  unfolding partition_read_map_with
  partition_read_map_with_lem R S f s h p runs =
      let b = (resolve_bounds process.cores plan (length xs) (omega arith) p).0 in
      let e : max read_len 1 ≡ read_len = omega arith in
      let g : ℕ → List A → S → Outcome P R × S = λ start shard t. (returned (f start shard), t) in
      let out = results (tabulate read_count 0 (λ i. f (i * read_len) (chunk_of xs read_len i))) in
      let (s', ran, kept) =
        read_driven process xs read_len g h b.0 b.1 (λ i. f (i * read_len) (chunk_of xs read_len i))
          (λ _ t. t ≡ s) (λ t. t ≡ s) (λ _ _ _ _ _ j. (refl, j)) (λ _ _ _ j. j) s runs refl in
      (
        ap (λ c. read_by process xs g c s) e ∙ ran ∙ ap (λ t. (out, t)) kept,
        flatten-chunks xs read_len read_count
            ((partition_count_ceiling read_len b.0 (length xs) (omega arith)).0),
      )
