-- ===== src/Queue/Drains.antt =====
-- src/collections/deque/iter.rs: the drain of a deque.
use melinoe.Prelude.{ℕ, ◌≡◌, refl, Bool, Option, List, ◌++◌, length}
use melinoe.Drain.{first_of, last_of, take_ends, take_ends-append}
use melinoe.Queue.{BrandedVecDequeDrain, drain_of}

module _ {A : Type 0} where
  unfoldable pub next : BrandedVecDequeDrain A → Option A × BrandedVecDequeDrain A
  next d = let (x, rest) = first_of d.inner in (x, drain_of rest)

  unfoldable pub next_back : BrandedVecDequeDrain A → Option A × BrandedVecDequeDrain A
  next_back d = let (x, rest) = last_of d.inner in (x, drain_of rest)

  -- The lower and the upper bound are the same number.
  unfoldable pub size_hint : BrandedVecDequeDrain A → ℕ
  size_hint d = length d.inner

  -- Whatever calls of `next` and `next_back` are made, what came from the front, what is left and what
  -- came from the back are the values that the drain had, in their order.
  pub next-next_back :
      (calls : List Bool) (d : BrandedVecDequeDrain A)
      → (take_ends next next_back calls d).0
          ++ ((take_ends next next_back calls d).2.inner ++ (take_ends next next_back calls d).1)
        ≡ d.inner
  unfolding next next_back
  next-next_back calls d =
      take_ends-append next next_back (λ e. e.inner) calls d ((λ e. refl), (λ e. refl))
