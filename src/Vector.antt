-- ===== src/Vector.antt =====
-- src/collections/branded_vec: a vector of cells, as the list of the values in them.
pub mod Operations
pub mod Drains
pub mod Views
pub mod Partition
use mathlib.Core.Option
use melinoe.Prelude.{
  ℕ, zero, suc, ◌+◌, ◌-◌, Bool, true, false, ◌||◌, Option, none, some, List, [], ◌∷◌, ◌++◌, length,
  get_elem?, set, take, drop, tabulate, ltb, leb, if◌then◌else◌,
}
use melinoe.Machine.{Outcome}
use melinoe.Region.Shard.{CellSlice}
use melinoe.Sync.Plan.{PartitionPlan}
use melinoe.Sync.Process.{Process}
use melinoe.Sync.Driver.{Ended}
use melinoe.Sync.Map.{
  partition_map_with as cells_map_with, partition_for_each_with as cells_for_each_with,
}
use melinoe.Sync.ReadMap.{partition_read_map_with, partition_read_for_each_with}
use melinoe.Sync.Map.Confined.{on_slice}

-- `BrandedVec`; a panic of an operation is `none`.
pub record BrandedVec (A : Type 0) : Type 0 where
  pub cells : List A

abbrev pub of : {A : Type 0} → List A → BrandedVec A
of xs = record { cells = xs }

-- `BrandedDrain`: the values that it has not given yet.
pub record BrandedDrain (A : Type 0) : Type 0 where
  pub inner : List A

module _ {A : Type 0} where
  -- What `remove` takes out, and the rest.
  abbrev pub without : List A → ℕ → Option (A × List A)
  without xs index = elim (get_elem? xs index) [
    | none ↦ none
    | some x ↦ some (x, take index xs ++ drop (suc index) xs)
  ]

  unfoldable pub extend : List A → BrandedVec A → BrandedVec A
  extend values v = of (v.cells ++ values)

  -- What a closure with a state of its own gives for `n` indices from `i` on.
  generated : {S : Type 0} → ℕ → ℕ → (ℕ → S → A × S) → S → List A × S
  generated zero i generate s = ([], s)
  generated (suc n) i generate s =
      let (x, t) = generate i s in let (xs, u) = generated n (suc i) generate t in (x ∷ xs, u)

  unfoldable pub from_fn : {S : Type 0} → ℕ → (ℕ → S → A × S) → S → BrandedVec A × S
  unfolding extend generated
  from_fn len generate s = let (xs, t) = generated len 0 generate s in (extend xs (of []), t)

  unfoldable pub push : A → BrandedVec A → BrandedVec A
  push value v = of (v.cells ++ (value ∷ []))

  unfoldable pub pop : BrandedVec A → Option A × BrandedVec A
  pop v = elim (get_elem? v.cells (length v.cells - 1)) [
    | none ↦ (none, v)
    | some x ↦ (some x, of (take (length v.cells - 1) v.cells))
  ]

  unfoldable pub insert : ℕ → A → BrandedVec A → Option (BrandedVec A)
  insert index value v =
      if ltb (length v.cells) index
      then none
      else some (of (take index v.cells ++ (value ∷ drop index v.cells)))

  unfoldable pub remove : ℕ → BrandedVec A → Option (A × BrandedVec A)
  remove index v = elim (without v.cells index) [ none ↦ none | some (x, xs) ↦ some (x, of xs) ]

  -- The last value takes the place of the removed one.
  unfoldable pub swap_remove : ℕ → BrandedVec A → Option (A × BrandedVec A)
  swap_remove index v = elim (get_elem? v.cells index) [
    | none ↦ none
    | some x ↦ elim (get_elem? v.cells (length v.cells - 1)) [
      | none ↦ none
      | some last ↦ some (x, of (take (length v.cells - 1) (set v.cells index last)))
    ]
  ]

  unfoldable pub swap : ℕ → ℕ → BrandedVec A → Option (BrandedVec A)
  swap a b v = elim (get_elem? v.cells a) [
    | none ↦ none
    | some x ↦ elim (get_elem? v.cells b) [
      | none ↦ none
      | some y ↦ some (of (set (set v.cells a y) b x))
    ]
  ]

  unfoldable pub clear : BrandedVec A → BrandedVec A
  clear v = of []

  unfoldable pub truncate : ℕ → BrandedVec A → BrandedVec A
  truncate len v = of (take len v.cells)

  unfoldable pub split_off : ℕ → BrandedVec A → Option (BrandedVec A × BrandedVec A)
  split_off at v =
      if ltb (length v.cells) at then none else some (of (take at v.cells), of (drop at v.cells))

  -- Both vectors afterwards.
  unfoldable pub append : BrandedVec A → BrandedVec A → BrandedVec A × BrandedVec A
  append v other = (of (v.cells ++ other.cells), of [])

  unfoldable pub resize_with : {S : Type 0} → ℕ → (S → A × S) → S → BrandedVec A → BrandedVec A × S
  unfolding extend truncate generated
  resize_with new_len f s v =
      let (xs, t) = generated (new_len - length v.cells) 0 (λ _ u. f u) s in
      if leb new_len (length v.cells) then (truncate new_len v, s) else (extend xs v, t)

  -- `f` may change each value, and tells whether it stays.
  retained : {S : Type 0} → (A → S → Bool × A × S) → List A → S → List A × S
  retained f [] s = ([], s)
  retained f (x ∷ xs) s =
      let (stays, y, t) = f x s in
      let (rest, u) = retained f xs t in ((if stays then y ∷ rest else rest), u)

  unfoldable pub retain_mut :
      {S : Type 0} → (A → S → Bool × A × S) → S → BrandedVec A → BrandedVec A × S
  unfolding retained
  retain_mut f s v = let (xs, t) = retained f v.cells s in (of xs, t)

  unfoldable pub drain_new : List A → BrandedDrain A
  drain_new inner = record { inner = inner }

  -- The drain, and the vector after the drain is dropped.
  unfoldable pub drain : ℕ → ℕ → BrandedVec A → Option (BrandedDrain A × BrandedVec A)
  unfolding drain_new
  drain start end v =
      if ltb end start || ltb (length v.cells) end
      then none
      else some (
        drain_new (take (end - start) (drop start v.cells)),
        of (take start v.cells ++ drop end v.cells),
      )

  unfoldable pub into_vec : BrandedVec A → List A
  into_vec v = v.cells

module _ {P A R : Type 0} (process : Process P) where
  -- The vector's storage is a region of its own.
  unfoldable pub partition_map_mut_with :
      PartitionPlan → (ℕ → List A → Outcome P R × List A) → BrandedVec A → Ended P R × BrandedVec A
  unfolding cells_map_with
  partition_map_mut_with plan f v =
      let cells : CellSlice = record { base = 0; len = length v.cells } in
      let (e, xs) = cells_map_with process cells plan (on_slice f) v.cells in (e, of xs)

module _ {P A : Type 0} (process : Process P) where
  unfoldable pub partition_for_each_mut_with :
      PartitionPlan
      → (ℕ → List A → Outcome P (Unit {0}) × List A)
      → BrandedVec A
      → Ended P (Unit {0}) × BrandedVec A
  unfolding cells_for_each_with
  partition_for_each_mut_with plan f v =
      let cells : CellSlice = record { base = 0; len = length v.cells } in
      let (e, xs) = cells_for_each_with process cells plan (on_slice f) v.cells in (e, of xs)

  -- With a read permit the closure sees the values and works on a state `S` beside them.
  unfoldable pub partition_map_with :
      {R S : Type 0}
      → PartitionPlan
      → (ℕ → List A → S → Outcome P R × S)
      → BrandedVec A
      → S
      → Ended P R × S
  unfolding partition_read_map_with
  partition_map_with plan f v s = partition_read_map_with process v.cells plan f s

  unfoldable pub partition_for_each_with :
      {S : Type 0}
      → PartitionPlan
      → (ℕ → List A → S → Outcome P (Unit {0}) × S)
      → BrandedVec A
      → S
      → Ended P (Unit {0}) × S
  unfolding partition_read_for_each_with
  partition_for_each_with plan f v s = partition_read_for_each_with process v.cells plan f s
