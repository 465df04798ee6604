-- ===== src/Region/Chunks/Sequence.antt =====
-- `ShardChunks` (src/region/chunks.rs) yields the shards of `ParChunks` in index order.
use melinoe.Prelude.{
  ℕ, zero, suc, ◌+◌, ◌-◌, ◌*◌, ◌≤◌, ◌<◌, ◌≡◌, ◌↔◌, refl, ap, sym, ◌∙◌, Option, none, some, ◌∷◌, min,
  max, tabulate, tabulate_ext, arith, tabulate-suc,
}
use melinoe.Machine.{usize_mod}
use melinoe.Region.Tiling.{partition_count}
use melinoe.Region.Tiling.Ceiling.{
  partition_count_ceiling, partition_count-suc, partition_count-zero,
}
use melinoe.Region.Shard.{WriterShard, new as shard}
use melinoe.Region.ParChunks.{count, get_unchecked_chunk, par_chunks}
use melinoe.Region.ParChunks.Tile.{InMemory, get_unchecked_chunk_lem, par_chunks-IsView}
use melinoe.Region.Chunks.{ShardChunks, next, size_hint, collect, chunks}

abbrev at : ℕ → ℕ → ℕ → ShardChunks
at b l c = record { rest = some (record { base = b; len = l }); chunk = c }

abbrev piece : ℕ → ℕ → ℕ → ℕ → WriterShard
piece b l c i = shard (record { base = b + i * c; len = min c (l - i * c) })

next-empty : (b c : ℕ) → next (at b 0 c) ≡ some (none, record { rest = none; chunk = c })
unfolding next
next-empty b c = refl

next-cons :
    (b l c : ℕ)
    → 0 < l
    → next (at b l c)
      ≡ some (some (shard (record { base = b; len = min c l })), at (b + min c l) (l - min c l) c)
unfolding next
next-cons b l c p = ground arith

pieces_match :
    (b l c i : ℕ)
    → i * c < l - min c l
    → piece (b + min c l) (l - min c l) c i ≡ piece b l c (suc i)
pieces_match b l c i h =
    let e : b + min c l + i * c ≡ b + suc i * c = omega arith in
    let f : min c (l - min c l - i * c) ≡ min c (l - suc i * c) = omega arith in
    λ t. shard (record { base = e t; len = f t })

module _ (c : ℕ) (k : 1 ≤ c) where
  count_of_rest :
      (l : ℕ) → l < usize_mod → 0 < l → partition_count l c ≡ suc (partition_count (l - min c l) c)
  count_of_rest l h p =
      partition_count-suc c k l h p
      ∙ ap (λ t. suc (partition_count t c)) (let e : l - c ≡ l - min c l = omega arith in e)

  pieces_of_rest :
      (b l : ℕ)
      → l < usize_mod
      → 0 < l
      → piece b l c 0
          ∷ tabulate (partition_count (l - min c l) c) 0 (piece (b + min c l) (l - min c l) c)
        ≡ tabulate (partition_count l c) 0 (piece b l c)
  pieces_of_rest b l h p =
      let r = l - min c l in
      ap (◌∷◌ (piece b l c 0)) (
        tabulate_ext (partition_count r c) 0 (piece (b + min c l) r c) (λ i. piece b l c (suc i))
          (λ i _ hi.
            pieces_match b l c i
              (((partition_count_ceiling c k r (omega arith)).3 i).0 (omega arith)))
        ∙ sym (tabulate-suc (partition_count r c) 0 (piece b l c)))
      ∙ ap (λ n. tabulate n 0 (piece b l c)) (sym (count_of_rest l h p))

  collect-at :
      (fuel b l : ℕ)
      → l < usize_mod
      → partition_count l c < fuel
      → collect fuel (at b l c) ≡ some (tabulate (partition_count l c) 0 (piece b l c))
  unfolding collect
  collect-at zero b l h f = absurd (omega arith)
  collect-at (suc fuel) b zero h f = rw (next-empty b c, collect, partition_count-zero c)
  collect-at (suc fuel) b (suc l) h f =
      rw
        (
          next-cons b (suc l) c (omega arith),
          collect,
          collect-at fuel (b + min c (suc l)) (suc l - min c (suc l)) (omega arith)
              (omega (arith, count_of_rest (suc l) h (omega arith))),
          ← pieces_of_rest b (suc l) h (omega arith),
        )
        (ap
          (λ w. some (
            w
            ∷ tabulate (partition_count (suc l - min c (suc l)) c) 0
                (piece (b + min c (suc l)) (suc l - min c (suc l)) c)))
          (let e : b ≡ b + 0 * c = omega arith in
            let f : min c (suc l) ≡ min c (suc l - 0 * c) = omega arith in
            λ t. shard (record { base = e t; len = f t })))

-- Iterating `chunks` to its end never panics and yields exactly the shards that `par_chunks` names,
-- in index order, for a slice in memory and any chunk size; one call more than the count is enough.
pub chunks-collect :
    (w : WriterShard) (chunk_size fuel : ℕ)
    → InMemory w
    → chunk_size < usize_mod
    → count (par_chunks w chunk_size) < fuel
    → collect fuel (chunks w chunk_size)
      ≡ some (
          tabulate
            (count (par_chunks w chunk_size))
            0
            (get_unchecked_chunk (par_chunks w chunk_size)))
unfolding chunks count par_chunks
chunks-collect w cs fuel m h f =
    let p = par_chunks w cs in
    collect-at (max cs 1) (omega arith) fuel w.cells.base w.cells.len (omega arith) f
    ∙ ap some (
        tabulate_ext (count p) 0 (piece w.cells.base w.cells.len (max cs 1)) (get_unchecked_chunk p)
          (λ i _ hi. sym (get_unchecked_chunk_lem p (par_chunks-IsView w cs m h) i (omega arith))))

-- For a chunk length of at least one: what `size_hint` says before a call of `next` on a slice of
-- `usize` length is what it says after the call, and one more if the call yields a shard; the call
-- does not panic, and yields none exactly when `size_hint` says 0.
pub size_hint-next :
    (b l c : ℕ)
    → 1 ≤ c
    → l < usize_mod
    → (o : Option WriterShard) × (s : ShardChunks) × (next (at b l c) ≡ some (o, s))
      × (size_hint (at b l c) ≡ size_hint s + (elim o [ none ↦ 0 | some w ↦ 1 ]))
      × ((o ≡ none) ↔ (size_hint (at b l c) ≡ 0))
unfolding size_hint
size_hint-next b zero c k h = (
  none,
  record { rest = none; chunk = c },
  next-empty b c,
  omega (arith, partition_count-zero c),
  ((λ _. partition_count-zero c), λ _. refl),
)
size_hint-next b (suc l) c k h = (
  some (shard (record { base = b; len = min c (suc l) })),
  at (b + min c (suc l)) (suc l - min c (suc l)) c,
  next-cons b (suc l) c (omega arith),
  omega (arith, count_of_rest c k (suc l) h (omega arith)),
  ((λ e. cc), λ e. absurd (omega (arith, count_of_rest c k (suc l) h (omega arith)))),
)
