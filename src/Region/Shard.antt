-- ===== src/Region/Shard.antt =====
-- src/region/shard.rs: `WriterShard`, the exclusive capability over one stretch of a region's cells.
-- The region's memory is the list of the values in its cells; a brand has no run-time part.
pub mod Split
use melinoe.Prelude.{
  ℕ, ◌+◌, ◌-◌, ◌≤◌, ◌⊎◌, Bool, Option, none, some, List, get_elem?, tabulate, slice, write_slice,
  ltb, ◌==◌, if◌then◌else◌,
}

-- `&'a mut [MelinoeCell<'brand, T>]`: where the slice lies in the region, and its length.
pub record CellSlice : Type 0 where
  pub base : ℕ
  pub len : ℕ

pub record WriterShard : Type 0 where
  pub cells : CellSlice

-- No cell lies in both.
abbrev pub Disjoint : CellSlice → CellSlice → Type 0
Disjoint a b = (a.base + a.len ≤ b.base) ⊎ (b.base + b.len ≤ a.base)

-- `slice::split_at_mut`, which panics past the end.
unfoldable pub split_at_mut : CellSlice → ℕ → Option (CellSlice × CellSlice)
split_at_mut s mid =
    if ltb s.len mid
    then none
    else some
        (record { base = s.base; len = mid }, record { base = s.base + mid; len = s.len - mid })

abbrev pub new : CellSlice → WriterShard
new s = record { cells = s }

unfoldable pub len : WriterShard → ℕ
len w = w.cells.len

unfoldable pub is_empty : WriterShard → Bool
is_empty w = w.cells.len == 0

-- `None` is the panic of `split_at_mut`.
unfoldable pub split_at : WriterShard → ℕ → Option (WriterShard × WriterShard)
unfolding split_at_mut
split_at w mid = elim (split_at_mut w.cells mid) [
  | none ↦ none
  | some (left, right) ↦ some (new left, new right)
]

abbrev pub as_cells : WriterShard → CellSlice
as_cells w = w.cells

abbrev pub into_cells : WriterShard → CellSlice
into_cells w = w.cells

-- The cell of the region that `get_mut(index)` gives access to.
unfoldable pub get_mut : WriterShard → ℕ → Option ℕ
get_mut w index = if ltb index w.cells.len then some (w.cells.base + index) else none

-- The cells that `iter_mut` visits, in order.
unfoldable pub iter_mut : WriterShard → List ℕ
iter_mut w = tabulate w.cells.len w.cells.base (λ i. i)

module _ {ℓ} {A : Type ℓ} where
  unfoldable pub as_slice : List A → WriterShard → List A
  as_slice mem w = slice mem w.cells.base w.cells.len

  unfoldable pub get : List A → WriterShard → ℕ → Option A
  unfolding as_slice
  get mem w index = get_elem? (as_slice mem w) index

  -- A use of `as_mut_slice` (or `into_mut_slice`): `f` gets the values of the shard, and what it
  -- leaves there stands in the region afterwards. A slice keeps its length.
  unfoldable pub as_mut_slice {κ} :
      {R : Type κ} → WriterShard → (List A → R × List A) → List A → R × List A
  unfolding as_slice
  as_mut_slice w f mem =
      let (r, vs) = f (as_slice mem w) in (r, write_slice mem w.cells.base w.cells.len vs)

  -- `into_mut_slice` is such a use by the owner of the shard, who has no shard afterwards.
  unfoldable pub into_mut_slice {κ} :
      {R : Type κ} → WriterShard → (List A → R × List A) → List A → R × List A
  unfolding as_slice
  into_mut_slice w f mem =
      let (r, vs) = f (as_slice mem w) in (r, write_slice mem w.cells.base w.cells.len vs)

  -- The values that `iter` visits, in order; `into_iter` of `&shard` is the same.
  unfoldable pub iter : List A → WriterShard → List A
  unfolding as_slice
  iter mem w = as_slice mem w

  unfoldable pub into_iter : List A → WriterShard → List A
  unfolding as_slice
  into_iter mem w = as_slice mem w

-- `into_iter` of `&mut shard`
unfoldable pub into_iter_mut : WriterShard → List ℕ
unfolding iter_mut
into_iter_mut w = iter_mut w
