-- ===== src/Deque/Mutate.antt =====
-- What `BrandedVecDeque::partition_map_mut_with` (src/collections/deque/partition.rs) computes.
use mathlib.Core.Path.{subst}
use melinoe.Prelude.{
  ℕ, ◌+◌, ◌-◌, ◌≤◌, ◌<◌, ◌≡◌, refl, sym, ap, ◌∙◌, inl, inr, false, none, some, List, [], ◌∷◌, ◌++◌,
  length, overwrite, slice_all, map, flatten, tabulate_ext, if◌then◌else◌, Bool-cases, ◌==◌, ==→eq,
  ==→ne, ==_refl, arith,
}
use native.Mathlib.Decide.{dec_lt}
use melinoe.Prelude.Orders.{contains, IsComplete}
use melinoe.Machine.{returned, slice_mod}
use melinoe.Sync.Plan.{PartitionPlan, resolve}
use melinoe.Sync.Plan.Bounds.{IsPlan}
use melinoe.Sync.Process.{Process}
use melinoe.Sync.Driver.{results}
use melinoe.Sync.Driver.Results.{RunsAll}
use melinoe.Sync.Map.Correct.{calm}
use melinoe.Deque.{DequeShard, DequeMutSlices, is_empty, with_shard_mut}
use melinoe.Deque.Maps.{write_first, map_mut, partition_map_mut_with}
use melinoe.Deque.Tiles.{Tiles, flatten-values}
use melinoe.Deque.Plan.{from_lengths-Tiles}
use melinoe.Deque.Descriptors.{
  shard_at, shard_at-within, shards_apart, map-shard_at, length-Tiles, each_shard,
}
use melinoe.Deque.Writes.{shown, with_shard_mut_self, with_shard_mut_other}
use melinoe.Deque.Read.{shards_in, shards_of}

module _ {A R : Type 0} (q : DequeMutSlices A) (c : ℕ) (ss : List DequeShard)
    (f : ℕ → List A → R × List A)
    (t : Tiles (length q.front_cells) (length q.back_cells) c 0 ss) where
  -- What the task of a shard leaves there.
  abbrev updated : DequeShard → List A
  updated s = overwrite (shown q s) (f s.start (shown q s)).1

  -- The queue after the tasks of `done`.
  record Progress (done : List ℕ) (now : DequeMutSlices A) : Type 0 where
    front_length : length now.front_cells ≡ length q.front_cells
    back_length : length now.back_cells ≡ length q.back_cells
    shard :
        (i : ℕ)
        → i < length ss
        → shown now (shard_at ss i)
          ≡ (if contains done i then updated (shard_at ss i) else shown q (shard_at ss i))

  -- The queue after the tasks, in terms of the shards' values.
  abbrev Done : DequeMutSlices A → Type 0
  Done now =
      (now.front_cells ++ now.back_cells ≡ flatten (map updated ss))
      × (length now.front_cells ≡ length q.front_cells)
      × (length now.back_cells ≡ length q.back_cells)

  finished :
      (done : List ℕ) (now : DequeMutSlices A)
      → IsComplete (length ss) done
      → Progress done now
      → Done now
  finished done now all p =
      let e : flatten (map (shown now) ss) ≡ now.front_cells ++ now.back_cells =
        flatten-values now.front_cells now.back_cells c 0 ss (rw (p.front_length, p.back_length) t)
        ∙ slice_all (now.front_cells ++ now.back_cells)
            (length (now.front_cells ++ now.back_cells) - 0) (omega arith) in
      let g : map (shown now) ss ≡ map updated ss =
        sym (map-shard_at (shown now) ss)
        ∙ tabulate_ext (length ss) 0 (λ i. shown now (shard_at ss i)) (λ i. updated (shard_at ss i))
            (λ i _ lt. p.shard i (omega arith) ∙ rw (all i (omega arith)))
        ∙ map-shard_at updated ss in
      (sym e ∙ ap flatten g, p.front_length, p.back_length)

module _ (P : Type 0) {A R : Type 0} (q : DequeMutSlices A) (c : ℕ) (ss : List DequeShard)
    (f : ℕ → List A → R × List A)
    (t : Tiles (length q.front_cells) (length q.back_cells) c 0 ss) where
  module _ (done : List ℕ) (i : ℕ) (now : DequeMutSlices A) (lt : i < length ss)
      (new : contains done i ≡ false) (p : Progress q c ss f t done now) where
    seen : shown now (shard_at ss i) ≡ shown q (shard_at ss i)
    seen = p.shard i lt ∙ (rw new)

    task_returns :
        (with_shard_mut {P = P} (shard_at ss i) (calm f) now).0
        ≡ returned (f (shard_at ss i).start (shown q (shard_at ss i))).0
    task_returns =
        (with_shard_mut_self {P = P} (calm f) now (shard_at ss i)).0
        ∙ ap (λ xs. returned (f (shard_at ss i).start xs).0) seen

    task_updates :
        shown (with_shard_mut {P = P} (shard_at ss i) (calm f) now).1 (shard_at ss i)
        ≡ updated q c ss f t (shard_at ss i)
    task_updates =
        (with_shard_mut_self {P = P} (calm f) now (shard_at ss i)).1
        ∙ ap (λ xs. overwrite xs (f (shard_at ss i).start xs).1) seen

    -- Two shards of the tiling have no cell in common, so the others show what they did.
    task_keeps :
        (j : ℕ)
        → j < length ss
        → (i == j) ≡ false
        → shown (with_shard_mut {P = P} (shard_at ss i) (calm f) now).1 (shard_at ss j)
          ≡ shown now (shard_at ss j)
    task_keeps j lj ne =
        let a = length q.front_cells in
        let b = length q.back_cells in
        with_shard_mut_other {P = P} (calm f) now a b (shard_at ss i) (shard_at ss j)
          (shard_at-within a b c 0 ss i t lt).1 (shard_at-within a b c 0 ss j t lj).1
          (elim (dec_lt i j) [
            | yes before ↦ inl (shards_apart a b c 0 ss i j t before lj)
            | no after ↦
                inr (shards_apart a b c 0 ss j i t (let d = ==→ne i j ne in omega (arith, d)) lt)
          ])

    task_Progress :
        Progress q c ss f t (i ∷ done) (with_shard_mut {P = P} (shard_at ss i) (calm f) now).1
    task_Progress = record {
      front_length = (with_shard_mut_self {P = P} (calm f) now (shard_at ss i)).2 ∙ p.front_length;
      back_length = (with_shard_mut_self {P = P} (calm f) now (shard_at ss i)).3 ∙ p.back_length;
      shard = λ j lj. elim (Bool-cases (i == j)) [
        | inl e ↦ let k = ==→eq i j e in rw (← k, ==_refl i) task_updates
        | inr ne ↦ rw ne (task_keeps j lj ne ∙ p.shard j lj)
      ];
    }

module _ {P A R : Type 0} (process : Process P) (q : DequeMutSlices A)
    (f : ℕ → List A → R × List A) where
  write_all :
      (c : ℕ) (ss : List DequeShard)
      → length q.front_cells + length q.back_cells < slice_mod
      → (t : Tiles (length q.front_cells) (length q.back_cells) c 0 ss)
      → RunsAll process.registry process.threads (length ss)
      → (now : DequeMutSlices A) × (map_mut process (record { shards = ss }) (calm f) q
          ≡ (results (map (λ s. (f s.start (shown q s)).0) ss), now))
        × Done q c ss f t now
  unfolding map_mut is_empty write_first
  write_all c [] h t runs = (
    q,
    refl,
    finished q c [] f t [] q (λ i lt. absurd (omega arith))
        (record { front_length = refl; back_length = refl; shard = λ i lt. absurd (omega arith) }),
  )
  write_all c (s ∷ rest) h t runs =
      let ss = s ∷ rest in
      each_shard process ss
        (let k = length-Tiles (length q.front_cells) (length q.back_cells) c 0 ss t in
          omega (arith, k))
        (write_first process (calm f)) (λ s. (f s.start (shown q s)).0) (Progress q c ss f t)
        (Done q c ss f t)
        (λ done i now lt new p. (
          task_returns P q c ss f t done i now lt new p,
          task_Progress P q c ss f t done i now lt new p,
        ))
        (finished q c ss f t) q runs
        (record { front_length = refl; back_length = refl; shard = λ i lt. refl })

module _ {P A : Type 0} (process : Process P) (q : DequeMutSlices A) (fuel : ℕ)
    (plan : PartitionPlan) where
  -- The shards that the plan cuts the queue into.
  abbrev pub cut : List DequeShard
  cut = shards_of process.cores fuel (length q.front_cells) (length q.back_cells) plan

  -- For a queue in memory, a valid plan, as much fuel as the queue is long, and a driver that runs
  -- every task once: the shards tile the queue, from its first value on, each with its logical start
  -- and in its segment; a closure that works on the values of its shard and does not panic gets each of
  -- them with that start; the call returns what it returned, in logical order, and the two segments
  -- keep their lengths and hold, one after the other, the shards' new values in logical order. No order
  -- of the tasks makes a difference.
  pub partition_map_mut_with_lem :
      {R : Type 0} (f : ℕ → List A → R × List A)
      → length q.front_cells + length q.back_cells < slice_mod
      → IsPlan process.cores plan
      → length q.front_cells + length q.back_cells ≤ fuel
      → RunsAll process.registry process.threads (length cut)
      → (now : DequeMutSlices A) × (partition_map_mut_with process fuel plan (calm f) q
          ≡ some (results (map (λ s. (f s.start (shown q s)).0) cut), now))
        × (now.front_cells ++ now.back_cells
            ≡ flatten (map (λ s. overwrite (shown q s) (f s.start (shown q s)).1) cut))
        × (length now.front_cells ≡ length q.front_cells)
        × (length now.back_cells ≡ length q.back_cells)
        × Tiles
            (length q.front_cells)
            (length q.back_cells)
            (resolve process.cores plan (length q.front_cells + length q.back_cells))
            0
            cut
  unfolding partition_map_mut_with
  partition_map_mut_with_lem f h p enough runs =
      let (ss, made, tiles) =
        from_lengths-Tiles process.cores fuel (length q.front_cells) (length q.back_cells) plan h p
          enough in
      let e : cut ≡ ss = ap shards_in made in
      let c = resolve process.cores plan (length q.front_cells + length q.back_cells) in
      let (now, ran, done) =
        write_all process q f c ss h tiles
          (subst (λ k. RunsAll process.registry process.threads (length k)) e runs) in
      (
        now,
        rw e (
            ap (λ o. elim o [ none ↦ none | some p' ↦ some (map_mut process p' (calm f) q) ]) made
            ∙ ap some ran),
        rw e done.0,
        done.1,
        done.2,
        rw e tiles,
      )
