-- ===== src/Deque/Descriptors.antt =====
-- src/collections/deque/partition.rs: the driver run on a list of shards, one in each task.
use melinoe.Prelude.{
  ℕ, zero, suc, ◌+◌, ◌*◌, ◌≤◌, ◌<◌, ◌≡◌, refl, ap, ◌∙◌, false, none, some, List, [], ◌∷◌, length,
  slice, slice_none, get_elem?, map, tabulate, tabulate-suc, arith,
}
use melinoe.Prelude.Orders.{contains, IsComplete}
use melinoe.Machine.{Outcome, returned, slice_mod}
use melinoe.Region.Tiling.{partition_count}
use melinoe.Region.Tiling.Ceiling.{partition_count_ceiling}
use melinoe.Sync.Plan.{chunk_size, resolve, chunk_len_for, nonzero_or_one}
use melinoe.Sync.Process.{Process}
use melinoe.Sync.Driver.{results}
use melinoe.Sync.Driver.Results.{RunsAll}
use melinoe.Sync.Map.Confined.{chunk_of}
use melinoe.Sync.ReadMap.{partition_read_map_with}
use melinoe.Sync.ReadMap.Correct.{read_driven}
use melinoe.Deque.{front, DequeShard}
use melinoe.Deque.Tiles.{Tiles, InSegment}

-- The shard of an index below the length.
abbrev pub shard_at : List DequeShard → ℕ → DequeShard
shard_at ss i = elim (get_elem? ss i) [
  | none ↦ record { start = 0; segment = front; offset = 0; len = 0 }
  | some s ↦ s
]

pub map-shard_at {ℓ} :
    {R : Type ℓ} (val : DequeShard → R) (ss : List DequeShard)
    → tabulate (length ss) 0 (λ i. val (shard_at ss i)) ≡ map val ss
map-shard_at val [] = refl
map-shard_at val (s ∷ ss) =
    ap (◌∷◌ (val s))
      (tabulate-suc (length ss) 0 (λ i. val (shard_at (s ∷ ss) i)) ∙ map-shard_at val ss)

pub slice-shard_at :
    (ss : List DequeShard) (i : ℕ) → i < length ss → slice ss i 1 ≡ shard_at ss i ∷ []
slice-shard_at [] i h = absurd (omega arith)
slice-shard_at (s ∷ ss) zero h = ap (◌∷◌ s) (slice_none ss 0)
slice-shard_at (s ∷ ss) (suc i) h = slice-shard_at ss i (omega arith)

-- In a tiling each shard lies in its segment, at or after `at`.
pub shard_at-within :
    (f b c at : ℕ) (ss : List DequeShard) (i : ℕ)
    → Tiles f b c at ss
    → i < length ss
    → (at ≤ (shard_at ss i).start) × InSegment f b (shard_at ss i)
shard_at-within f b c at [] i t h = absurd (omega arith)
shard_at-within f b c at (s ∷ ss) zero (at_s, pos, small, seg, rest) h = (omega (arith, at_s), seg)
shard_at-within f b c at (s ∷ ss) (suc i) (at_s, pos, small, seg, rest) h =
    let r = shard_at-within f b c (at + s.len) ss i rest (omega arith) in (omega (arith, r), r.1)

-- Of two shards of a tiling the one of the lower index ends where the other starts, or before.
pub shards_apart :
    (f b c at : ℕ) (ss : List DequeShard) (i j : ℕ)
    → Tiles f b c at ss
    → i < j
    → j < length ss
    → (shard_at ss i).start + (shard_at ss i).len ≤ (shard_at ss j).start
shards_apart f b c at [] i j t lt h = absurd (omega arith)
shards_apart f b c at (s ∷ ss) i zero t lt h = absurd (omega arith)
shards_apart f b c at (s ∷ ss) zero (suc j) (at_s, pos, small, seg, rest) lt h =
    let r = shard_at-within f b c (at + s.len) ss j rest (omega arith) in omega (arith, r, at_s)
shards_apart f b c at (s ∷ ss) (suc i) (suc j) (at_s, pos, small, seg, rest) lt h =
    shards_apart f b c (at + s.len) ss i j rest (omega arith) (omega arith)

-- There are at most as many shards as elements.
pub length-Tiles :
    (f b c at : ℕ) (ss : List DequeShard) → Tiles f b c at ss → at + length ss ≤ f + b
length-Tiles f b c at [] t = omega (arith, t)
length-Tiles f b c at (s ∷ ss) (at_s, pos, small, seg, rest) =
    let r = length-Tiles f b c (at + s.len) ss rest in omega (arith, r, pos)

module _ {ℓ κ} {P R S : Type 0} (process : Process P) (ss : List DequeShard)
    (h : length ss < slice_mod) (g : List DequeShard → S → Outcome P R × S) (val : DequeShard → R)
    (J : List ℕ → S → Type ℓ) (Final : S → Type κ)
    (step : (done : List ℕ) (i : ℕ) (s : S)
      → i < length ss
      → contains done i ≡ false
      → J done s
      → ((g (shard_at ss i ∷ []) s).0 ≡ returned (val (shard_at ss i)))
        × J (i ∷ done) (g (shard_at ss i ∷ []) s).1)
    (finish : (done : List ℕ) (s : S) → IsComplete (length ss) done → J done s → Final s) where
  one_each : partition_count (length ss) 1 ≡ length ss
  one_each =
      let b = partition_count_ceiling 1 (omega arith) (length ss) (omega arith) in omega (arith, b)

  alone : (i : ℕ) → i < length ss → chunk_of ss 1 i ≡ shard_at ss i ∷ []
  alone i lt =
      ap (λ t. slice ss t 1) (let e : i * 1 ≡ i = omega arith in e) ∙ slice-shard_at ss i lt

  -- Tasks that are independent, as `J` and `val` say, give the results of the shards in their order.
  pub each_shard :
      (s : S)
      → RunsAll process.registry process.threads (length ss)
      → J [] s
      → (s' : S) × (partition_read_map_with process ss (chunk_size 1) (λ _ shard. g shard) s
          ≡ (results (map val ss), s'))
        × Final s'
  unfolding partition_read_map_with chunk_size resolve chunk_len_for nonzero_or_one
  each_shard s runs start =
      let n = partition_count (length ss) 1 in
      let (s', ran, final) =
        read_driven process ss 1 (λ _ shard. g shard) h (omega arith) (omega arith)
          (λ i. val (shard_at ss i)) J Final
          (λ done i t lt new j.
            rw (alone i (omega (arith, one_each))) (step done i t (omega (arith, one_each)) new j))
          (λ done t all j. finish done t (rw (← one_each) all) j) s (rw one_each runs) start in
      (
        s',
        ran
            ∙ ap (λ k. (results (tabulate k 0 (λ i. val (shard_at ss i))), s')) one_each
            ∙ ap (λ rs. (results rs, s')) (map-shard_at val ss),
        final,
      )
