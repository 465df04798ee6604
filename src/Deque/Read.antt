-- ===== src/Deque/Read.antt =====
-- What `BrandedVecDeque::partition_map_with` (src/collections/deque/partition.rs) computes.
use mathlib.Core.Path.{subst}
use melinoe.Prelude.{
  ℕ, ◌+◌, ◌-◌, ◌≤◌, ◌<◌, ◌≡◌, refl, ap, ◌∙◌, Option, none, some, List, [], ◌∷◌, ◌++◌, length,
  slice_all, map, flatten, arith,
}
use melinoe.Machine.{Outcome, returned, slice_mod}
use melinoe.Sync.Plan.{PartitionPlan, resolve}
use melinoe.Sync.Plan.Bounds.{IsPlan}
use melinoe.Sync.Process.{Process}
use melinoe.Sync.Driver.{results}
use melinoe.Sync.Driver.Results.{RunsAll}
use melinoe.Sync.ReadMap.{index_range}
use melinoe.Deque.{
  DequeSegment, front, back, DequeShard, DequeShardPlan, from_lengths, is_empty, read_slice,
}
use melinoe.Deque.Maps.{read_first, map_read, partition_map_with}
use melinoe.Deque.Tiles.{at_segment, Tiles, InSegment, values, flatten-values}
use melinoe.Deque.Plan.{from_lengths-Tiles}
use melinoe.Deque.Descriptors.{shard_at, shard_at-within, length-Tiles, each_shard}

module _ {A : Type 0} (fr ba : List A) (h : length fr + length ba < slice_mod) where
  read_segment :
      (start offset len : ℕ) (segment : DequeSegment)
      → let s = at_segment start offset len segment in
        InSegment (length fr) (length ba) s → read_slice s fr ba ≡ some (values fr ba s)
  unfolding read_slice index_range
  read_segment start offset len front k = ground arith
  read_segment start offset len back k = ground arith

  -- A shard in its segment is read without a panic.
  pub read_slice-values :
      (s : DequeShard)
      → InSegment (length fr) (length ba) s
      → read_slice s fr ba ≡ some (values fr ba s)
  read_slice-values s k = read_segment s.start s.offset s.len s.segment k

-- The shards of a plan, if there is one.
abbrev pub shards_in : Option DequeShardPlan → List DequeShard
shards_in made = elim made [ none ↦ [] | some p ↦ p.shards ]

abbrev pub shards_of : Option ℕ → ℕ → ℕ → ℕ → PartitionPlan → List DequeShard
shards_of cores fuel f b plan = shards_in (from_lengths cores fuel f b plan)

-- A closure that reads its shard and does not panic.
abbrev pub reader : {P A R S : Type 0} → (ℕ → List A → R) → ℕ → List A → S → Outcome P R × S
reader f start shard st = (returned (f start shard), st)

module _ {P A R S : Type 0} (process : Process P) (s1 s2 : List A) (f : ℕ → List A → R) where
  read_all :
      (c : ℕ) (ss : List DequeShard) (st : S)
      → length s1 + length s2 < slice_mod
      → Tiles (length s1) (length s2) c 0 ss
      → RunsAll process.registry process.threads (length ss)
      → map_read process (record { shards = ss }) s1 s2 (reader f) st
        ≡ (results (map (λ s. f s.start (values s1 s2 s)) ss), st)
  unfolding map_read is_empty
  read_all c [] st h t runs = refl
  read_all c (s ∷ rest) st h t runs =
      let ss = s ∷ rest in
      let val : DequeShard → R = λ s. f s.start (values s1 s2 s) in
      let seen : (i : ℕ) (t' : S)
          → i < length ss
          → read_first process s1 s2 (reader f) (shard_at ss i ∷ []) t'
            ≡ (returned (val (shard_at ss i)), t') =
        λ i t' lt.
          rw
            (
              read_first,
              read_slice-values s1 s2 h (shard_at ss i)
                  (shard_at-within (length s1) (length s2) c 0 ss i t lt).1,
            )
            refl in
      let (s', ran, kept) =
        each_shard process ss
          (let q = length-Tiles (length s1) (length s2) c 0 ss t in omega (arith, q))
          (read_first process s1 s2 (reader f)) val (λ _ t'. t' ≡ st) (λ t'. t' ≡ st)
          (λ done i t' lt new j. (ap (λ r. r.0) (seen i t' lt), ap (λ r. r.1) (seen i t' lt) ∙ j))
          (λ _ _ _ j. j) st runs refl in
      ran ∙ ap (λ t'. (results (map val ss), t')) kept

module _ {P A : Type 0} (process : Process P) (s1 s2 : List A) (fuel : ℕ)
    (plan : PartitionPlan) where
  -- The shards that the plan cuts the queue into.
  abbrev pub shards : List DequeShard
  shards = shards_of process.cores fuel (length s1) (length s2) plan

  -- For a queue in memory, a valid plan, as much fuel as the queue is long, and a driver that runs
  -- every task once: the shards tile the queue, the closure that reads its shard and does not panic
  -- gets each of them with its logical start, the call returns what it returned, in logical order,
  -- and the values that it was given, joined, are those of the queue.
  pub partition_map_with-Tiles :
      {R S : Type 0} (f : ℕ → List A → R) (st : S)
      → length s1 + length s2 < slice_mod
      → IsPlan process.cores plan
      → length s1 + length s2 ≤ fuel
      → RunsAll process.registry process.threads (length shards)
      → (partition_map_with process fuel s1 s2 plan (reader f) st
          ≡ some (results (map (λ s. f s.start (values s1 s2 s)) shards), st))
        × (flatten (map (values s1 s2) shards) ≡ s1 ++ s2)
        × Tiles
            (length s1)
            (length s2)
            (resolve process.cores plan (length s1 + length s2))
            0
            shards
  unfolding partition_map_with
  partition_map_with-Tiles f st h p enough runs =
      let (ss, made, tiles) =
        from_lengths-Tiles process.cores fuel (length s1) (length s2) plan h p enough in
      let e : shards ≡ ss = ap shards_in made in
      let c = resolve process.cores plan (length s1 + length s2) in
      rw e (
        ap (λ o. elim o [ none ↦ none | some p' ↦ some (map_read process p' s1 s2 (reader f) st) ])
              made
            ∙ ap some (
                read_all process s1 s2 f c ss st h tiles
                  (subst (λ k. RunsAll process.registry process.threads (length k)) e runs)),
        flatten-values s1 s2 c 0 ss tiles
            ∙ slice_all (s1 ++ s2) (length (s1 ++ s2) - 0) (omega arith),
        tiles,
      )
