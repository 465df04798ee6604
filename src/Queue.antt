-- ===== src/Queue.antt =====
-- src/collections/deque: a deque of cells, as the list of the values in them. A panic is `none`.
pub mod Ring
pub mod Views
pub mod Program
pub mod Refines
pub mod Drains
use mathlib.Core.Option
use melinoe.Prelude.{ℕ, Bool, Option, none, some, List, [], ◌∷◌}
use melinoe.Queue.Ring.{VecDeque, vacant, laid, contents}
use melinoe.Queue.Ring as Ring

-- `BrandedVecDeque`
pub record BrandedVecDeque (A : Type 0) : Type 0 where
  pub cells : VecDeque A

abbrev pub of : {A : Type 0} → VecDeque A → BrandedVecDeque A
of cells = record { cells = cells }

-- The values that a drain has not given yet.
pub record BrandedVecDequeDrain (A : Type 0) : Type 0 where
  pub inner : List A

abbrev pub drain_of : {A : Type 0} → List A → BrandedVecDequeDrain A
drain_of inner = record { inner = inner }

module _ {A : Type 0} where
  unfoldable pub new : BrandedVecDeque A
  new = of vacant

  unfoldable pub len : BrandedVecDeque A → ℕ
  unfolding Ring.len
  len q = Ring.len q.cells

  unfoldable pub is_empty : BrandedVecDeque A → Bool
  unfolding Ring.is_empty
  is_empty q = Ring.is_empty q.cells

  unfoldable pub from_iter : ℕ → List A → BrandedVecDeque A
  from_iter seam values = of (laid seam values)

  unfoldable pub extend : ℕ → List A → BrandedVecDeque A → BrandedVecDeque A
  unfolding Ring.extend
  extend seam values q = of (Ring.extend seam values q.cells)

  unfoldable pub from : VecDeque A → BrandedVecDeque A
  from values = of values

  unfoldable pub push_back : ℕ → A → BrandedVecDeque A → BrandedVecDeque A
  unfolding Ring.push_back
  push_back seam value q = of (Ring.push_back seam value q.cells)

  unfoldable pub push_front : ℕ → A → BrandedVecDeque A → BrandedVecDeque A
  unfolding Ring.push_front
  push_front seam value q = of (Ring.push_front seam value q.cells)

  unfoldable pub pop_back : BrandedVecDeque A → Option A × BrandedVecDeque A
  unfolding Ring.pop_back
  pop_back q = let (popped, cells) = Ring.pop_back q.cells in (popped, of cells)

  unfoldable pub pop_front : BrandedVecDeque A → Option A × BrandedVecDeque A
  unfolding Ring.pop_front
  pop_front q = let (popped, cells) = Ring.pop_front q.cells in (popped, of cells)

  unfoldable pub clear : BrandedVecDeque A → BrandedVecDeque A
  clear q = of vacant

  unfoldable pub truncate : ℕ → BrandedVecDeque A → BrandedVecDeque A
  unfolding Ring.truncate
  truncate len q = of (Ring.truncate len q.cells)

  unfoldable pub swap : ℕ → ℕ → BrandedVecDeque A → Option (BrandedVecDeque A)
  unfolding Ring.swap
  swap a b q = Option.map of (Ring.swap a b q.cells)

  -- The drain, and the deque after the drain is dropped.
  unfoldable pub drain :
      ℕ → ℕ → ℕ → BrandedVecDeque A → Option (BrandedVecDequeDrain A × BrandedVecDeque A)
  unfolding Ring.drain
  drain seam start end q =
      Option.map (λ r. (drain_of r.0, of r.1)) (Ring.drain seam start end q.cells)

  -- Both parts, the new one second.
  unfoldable pub split_off :
      ℕ → ℕ → BrandedVecDeque A → Option (BrandedVecDeque A × BrandedVecDeque A)
  unfolding Ring.split_off
  split_off seam at q = Option.map (λ r. (of r.0, of r.1)) (Ring.split_off seam at q.cells)

  -- Both deques afterwards.
  unfoldable pub append :
      ℕ → BrandedVecDeque A → BrandedVecDeque A → BrandedVecDeque A × BrandedVecDeque A
  unfolding Ring.extend
  append seam other q = (of (Ring.extend seam (contents other.cells) q.cells), of vacant)

  -- `f` may change each value, and tells whether it stays.
  unfoldable pub retain_mut :
      {S : Type 0} → ℕ → (A → S → Bool × A × S) → S → BrandedVecDeque A → BrandedVecDeque A × S
  unfolding Ring.retain_mut
  retain_mut seam f s q = let (cells, t) = Ring.retain_mut seam f s q.cells in (of cells, t)

  unfoldable pub into_vec_deque : BrandedVecDeque A → VecDeque A
  into_vec_deque q = q.cells

  unfoldable pub into_iter : BrandedVecDeque A → List A
  unfolding into_vec_deque
  into_iter q = contents (into_vec_deque q)
