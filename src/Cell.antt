-- ===== src/Cell.antt =====
-- src/cell/cow.rs: views that are borrowed or copied. `clone` is the `Clone` of the elements.
pub mod Contents
use melinoe.Prelude.{Bool, true, false, List, [], ◌∷◌, ◌++◌, map, if◌then◌else◌}

-- `Cow<[T]>`
pub data Cow (A : Type 0) : Type 0 where
  borrowed owned : List A → Cow A

-- The policies `Borrowed` and `Retained`, which are types without values of their own.
pub data CowPolicy : Type 0 where
  borrow_policy retain_policy : CowPolicy

pub data RetainDecision : Type 0 where
  borrow retain : RetainDecision

abbrev pub no_elements : {A : Type 0} → List A → Bool
no_elements [] = true
no_elements (x ∷ xs) = false

module _ {A : Type 0} (clone : A → A) where
  unfoldable pub cow : CowPolicy → List A → Cow A
  cow borrow_policy slice = borrowed slice
  cow retain_policy slice = owned (map clone slice)

  unfoldable pub decide : RetainDecision → List A → Cow A
  unfolding cow
  decide borrow slice = cow borrow_policy slice
  decide retain slice = cow retain_policy slice

  unfoldable pub cow_from_segments : List A → List A → CowPolicy → Cow A
  unfolding cow
  cow_from_segments first second policy =
      if no_elements second
      then cow policy first
      else owned ((map clone first) ++ (map clone second))

  -- `CellCowExt`, on the values that the permit gives access to.
  unfoldable pub borrow_cow : List A → Cow A
  unfolding cow
  borrow_cow slice = cow borrow_policy slice

  unfoldable pub retain_cow : List A → Cow A
  unfolding cow
  retain_cow slice = cow retain_policy slice

  unfoldable pub borrow_cow_with : List A → CowPolicy → Cow A
  unfolding cow
  borrow_cow_with slice policy = cow policy slice

  unfoldable pub borrow_cow_if : List A → RetainDecision → Cow A
  unfolding decide
  borrow_cow_if slice decision = decide decision slice
