-- ===== src/Region/Shard/Split.antt =====
-- `WriterShard::split_at` and `as_mut_slice` (src/region/shard.rs): shards that share no cell.
use mathlib.Core.Logic.{◌↔◌}
use melinoe.Prelude.{
  ℕ, ◌+◌, ◌-◌, ◌≤◌, ◌<◌, ◌≡◌, refl, inl, inr, none, some, List, ◌++◌, slice-slice_append,
  slice-write_before, slice-write_after, slice-write_self, length-write_slice, overwrite, arith,
  length,
}
use melinoe.Region.Shard.{WriterShard, Disjoint, new, split_at, as_slice, as_mut_slice}

-- The split panics exactly for a `mid` past the end of the shard.
pub split_at_panics : (w : WriterShard) (mid : ℕ) → (split_at w mid ≡ none) ↔ (w.cells.len < mid)
unfolding split_at
split_at_panics w mid = ground arith

-- For a `mid` within the shard the split returns two shards: the left one has `mid` cells, together
-- they have the shard's, they share no cell, and their values in order are the shard's values.
pub split_at_parts {ℓ} :
    {A : Type ℓ} (mem : List A) (w : WriterShard) (mid : ℕ)
    → mid ≤ w.cells.len
    → (l : WriterShard) × (r : WriterShard) × (split_at w mid ≡ some (l, r))
      × (l.cells.len ≡ mid)
      × (l.cells.len + r.cells.len ≡ w.cells.len)
      × Disjoint l.cells r.cells
      × (as_slice mem l ++ as_slice mem r ≡ as_slice mem w)
unfolding split_at as_slice
split_at_parts mem w mid h = (
  left,
  right,
  ground arith,
  refl,
  omega arith,
  inl (omega arith),
  ground (
    arith,
    slice-slice_append mem w.cells.base mid right.cells.len,
    let e : mid + right.cells.len ≡ w.cells.len = omega arith in e,
  ),
)
  where
    left : WriterShard
    left = new (record { base = w.cells.base; len = mid })

    right : WriterShard
    right = new (record { base = w.cells.base + mid; len = w.cells.len - mid })

module _ {ℓ κ} {A : Type ℓ} {R : Type κ} (mem : List A) (w : WriterShard)
    (f : List A → R × List A) where
  -- What `f` did to the values of the shard is what the shard shows afterwards.
  pub as_slice-as_mut_slice_self :
      as_slice (as_mut_slice w f mem).1 w ≡ overwrite (as_slice mem w) (f (as_slice mem w)).1
  unfolding as_slice as_mut_slice
  as_slice-as_mut_slice_self = slice-write_self mem w.cells.base w.cells.len _

  -- A disjoint shard shows what it did before.
  pub as_slice-as_mut_slice-Disjoint :
      (v : WriterShard)
      → Disjoint w.cells v.cells
      → as_slice (as_mut_slice w f mem).1 v ≡ as_slice mem v
  unfolding as_slice as_mut_slice
  as_slice-as_mut_slice-Disjoint v (inl h) =
      slice-write_after mem w.cells.base w.cells.len _ v.cells.base v.cells.len h
  as_slice-as_mut_slice-Disjoint v (inr h) =
      slice-write_before mem w.cells.base w.cells.len _ v.cells.base v.cells.len h

  pub length-as_mut_slice : length (as_mut_slice w f mem).1 ≡ length mem
  unfolding as_mut_slice
  length-as_mut_slice = length-write_slice mem w.cells.base w.cells.len _
