-- ===== src/Vector/Views.antt =====
-- src/collections/branded_vec: how a vector is made and taken apart (vec.rs, generation.rs), and what a
-- permit shows of it (views.rs). `clone` is the `Clone` of the elements.
use melinoe.Prelude.{ℕ, Bool, Option, List, [], map, length, get_elem?, set}
use melinoe.Cell.{
  Cow, CowPolicy, RetainDecision, no_elements, borrow_cow as cells_borrow_cow,
  retain_cow as cells_retain_cow, borrow_cow_with, borrow_cow_if,
}
use melinoe.Token.{Token}
use melinoe.Token.World.{World, brand_scope}
use melinoe.Vector.{BrandedVec, of, extend, from_fn, into_vec}

module _ {A : Type 0} where
  unfoldable pub new : BrandedVec A
  new = of []

  unfoldable pub len : BrandedVec A → ℕ
  len v = length v.cells

  unfoldable pub is_empty : BrandedVec A → Bool
  is_empty v = no_elements v.cells

  unfoldable pub from_iter : List A → BrandedVec A
  unfolding extend new
  from_iter values = extend values new

  unfoldable pub from : List A → BrandedVec A
  from values = of values

  unfoldable pub into_iter : BrandedVec A → List A
  unfolding into_vec
  into_iter v = into_vec v

  -- The closure of a scope gets the vector with its token, and the state that `generate` leaves.
  unfoldable pub with_generated {ℓ} :
      {R : Type ℓ} {S : Type 0}
      → ℕ
      → ℕ
      → (ℕ → S → A × S)
      → S
      → (BrandedVec A × S → Token → World A → R)
      → World A
      → R
  unfolding brand_scope from_fn
  with_generated thread len generate s f =
      brand_scope thread (λ token. f (from_fn len generate s) token)

  unfoldable pub get : ℕ → BrandedVec A → Option A
  get index v = get_elem? v.cells index

  -- A write through the guard that `get_mut` gives.
  unfoldable pub get_mut : ℕ → A → BrandedVec A → BrandedVec A
  get_mut index value v = of (set v.cells index value)

  -- `as_mut_slice` gives the same stretch.
  unfoldable pub as_slice : BrandedVec A → List A
  as_slice v = v.cells

module _ {A : Type 0} (clone : A → A) where
  unfoldable pub borrow_cow : BrandedVec A → Cow A
  unfolding cells_borrow_cow
  borrow_cow v = cells_borrow_cow clone v.cells

  unfoldable pub retain_cow : BrandedVec A → Cow A
  unfolding cells_retain_cow
  retain_cow v = cells_retain_cow clone v.cells

  unfoldable pub cow_with : CowPolicy → BrandedVec A → Cow A
  unfolding borrow_cow_with
  cow_with policy v = borrow_cow_with clone v.cells policy

  unfoldable pub cow_if : RetainDecision → BrandedVec A → Cow A
  unfolding borrow_cow_if
  cow_if decision v = borrow_cow_if clone v.cells decision

  unfoldable pub clone_with : BrandedVec A → BrandedVec A
  unfolding as_slice from_iter
  clone_with v = from_iter (map clone (as_slice v))
