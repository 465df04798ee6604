-- ===== src/Queue/Views.antt =====
-- src/collections/deque/views.rs: views of a deque under a permit. `clone` is the `Clone` of the
-- elements.
use mathlib.Core.Option
use melinoe.Prelude.{ℕ, ◌++◌, Option, List, map}
use melinoe.Cell.{
  Cow, CowPolicy, borrow_policy, retain_policy, RetainDecision, borrow, retain, cow_from_segments,
}
use melinoe.Queue.{BrandedVecDeque, of, extend, new}
use melinoe.Queue.Ring as Ring

module _ {A : Type 0} where
  unfoldable pub get : ℕ → BrandedVecDeque A → Option A
  unfolding Ring.get
  get index q = Ring.get index q.cells

  -- The guard: the value that it reads, and the deque after a value is written through it.
  unfoldable pub get_mut : ℕ → BrandedVecDeque A → Option (A × (A → BrandedVecDeque A))
  unfolding Ring.get Ring.put
  get_mut index q =
      Option.map (λ x. (x, (λ value. of (Ring.put index value q.cells)))) (Ring.get index q.cells)

  -- `as_mut_slices` gives the same two segments.
  unfoldable pub as_slices : BrandedVecDeque A → List A × List A
  as_slices q = (q.cells.front, q.cells.back)

module _ {A : Type 0} (clone : A → A) where
  unfoldable pub borrow_cow : BrandedVecDeque A → Cow A
  unfolding as_slices cow_from_segments
  borrow_cow q = let (s1, s2) = as_slices q in cow_from_segments clone s1 s2 borrow_policy

  unfoldable pub retain_cow : BrandedVecDeque A → Cow A
  unfolding as_slices cow_from_segments
  retain_cow q = let (s1, s2) = as_slices q in cow_from_segments clone s1 s2 retain_policy

  unfoldable pub cow_if : RetainDecision → BrandedVecDeque A → Cow A
  unfolding borrow_cow retain_cow
  cow_if borrow q = borrow_cow q
  cow_if retain q = retain_cow q

  unfoldable pub cow_with : CowPolicy → BrandedVecDeque A → Cow A
  unfolding as_slices cow_from_segments
  cow_with policy q = let (s1, s2) = as_slices q in cow_from_segments clone s1 s2 policy

  unfoldable pub clone_with : ℕ → BrandedVecDeque A → BrandedVecDeque A
  unfolding as_slices extend new
  clone_with seam q = let (s1, s2) = as_slices q in extend seam (map clone s1 ++ map clone s2) new
