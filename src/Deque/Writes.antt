-- ===== src/Deque/Writes.antt =====
-- src/collections/deque/partition.rs: a write to a shard and what the other shards then show.
use melinoe.Prelude.{ℕ, ◌+◌, ◌≤◌, ◌≡◌, refl, ◌⊎◌, List, length, overwrite, arith}
use melinoe.Machine.{Outcome}
use melinoe.Region.Shard.{as_slice, as_mut_slice, new}
use melinoe.Region.Shard.Split.{
  as_slice-as_mut_slice_self, as_slice-as_mut_slice-Disjoint, length-as_mut_slice,
}
use melinoe.Deque.{DequeSegment, front, back, DequeShard, DequeMutSlices, with_shard_mut}
use melinoe.Deque.Tiles.{at_segment, InSegment, values}

abbrev pub shown : {A : Type 0} → DequeMutSlices A → DequeShard → List A
shown q s = values q.front_cells q.back_cells s

module _ {P A R : Type 0} (f : ℕ → List A → Outcome P R × List A) (q : DequeMutSlices A) where
  -- What a write does to its own shard, by its segment.
  write_self :
      (start offset len : ℕ) (segment : DequeSegment)
      → let s = at_segment start offset len segment in
        ((with_shard_mut s f q).0 ≡ (f start (shown q s)).0)
        × (shown (with_shard_mut s f q).1 s ≡ overwrite (shown q s) (f start (shown q s)).1)
        × (length (with_shard_mut s f q).1.front_cells ≡ length q.front_cells)
        × (length (with_shard_mut s f q).1.back_cells ≡ length q.back_cells)
  unfolding with_shard_mut as_slice as_mut_slice
  write_self start offset len front =
      let w = new (record { base = offset; len = len }) in
      (
        refl,
        as_slice-as_mut_slice_self q.front_cells w (f start),
        length-as_mut_slice q.front_cells w (f start),
        refl,
      )
  write_self start offset len back =
      let w = new (record { base = offset; len = len }) in
      (
        refl,
        as_slice-as_mut_slice_self q.back_cells w (f start),
        refl,
        length-as_mut_slice q.back_cells w (f start),
      )

  write_other :
      (a b : ℕ) (start offset len start' offset' len' : ℕ) (segment segment' : DequeSegment)
      → let s = at_segment start offset len segment in
        let v = at_segment start' offset' len' segment' in
        InSegment a b s
        → InSegment a b v
        → (start + len ≤ start') ⊎ (start' + len' ≤ start)
        → shown (with_shard_mut s f q).1 v ≡ shown q v
  unfolding with_shard_mut as_slice as_mut_slice
  write_other a b start offset len start' offset' len' front front h k d =
      as_slice-as_mut_slice-Disjoint q.front_cells (new (record { base = offset; len = len }))
        (f start) (new (record { base = offset'; len = len' })) (ground (arith, h, k, d))
  write_other a b start offset len start' offset' len' back back h k d =
      as_slice-as_mut_slice-Disjoint q.back_cells (new (record { base = offset; len = len }))
        (f start) (new (record { base = offset'; len = len' })) (ground (arith, h, k, d))
  write_other a b start offset len start' offset' len' front back h k d = refl
  write_other a b start offset len start' offset' len' back front h k d = refl

  pub with_shard_mut_self :
      (s : DequeShard)
      → ((with_shard_mut s f q).0 ≡ (f s.start (shown q s)).0)
        × (shown (with_shard_mut s f q).1 s ≡ overwrite (shown q s) (f s.start (shown q s)).1)
        × (length (with_shard_mut s f q).1.front_cells ≡ length q.front_cells)
        × (length (with_shard_mut s f q).1.back_cells ≡ length q.back_cells)
  with_shard_mut_self s = write_self s.start s.offset s.len s.segment

  -- A shard before it or after it shows what it did.
  pub with_shard_mut_other :
      (a b : ℕ) (s v : DequeShard)
      → InSegment a b s
      → InSegment a b v
      → (s.start + s.len ≤ v.start) ⊎ (v.start + v.len ≤ s.start)
      → shown (with_shard_mut s f q).1 v ≡ shown q v
  with_shard_mut_other a b s v h k d =
      write_other a b s.start s.offset s.len v.start v.offset v.len s.segment v.segment h k d
