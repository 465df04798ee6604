-- ===== src/Vector/Drains.antt =====
-- src/collections/branded_vec/iter.rs: a drain of a vector, which need not be read to its end.
use melinoe.Prelude.{
  ℕ, zero, suc, [], ◌∷◌, le→ltb, ◌+◌, ◌-◌, ◌≤◌, ◌≡◌, refl, sym, ap, ◌∙◌, Bool, Option, some, List,
  ◌++◌, length, take, drop, take-drop, length-append, length-take, length-drop, arith,
}
use melinoe.Drain.{first_of, last_of, take_ends, take_ends-append}
use melinoe.Vector.{BrandedVec, of, BrandedDrain, drain_new, drain}

drop_nil : {A : Type 0} (n : ℕ) → drop {A = A} n [] ≡ []
drop_nil zero = refl
drop_nil (suc n) = refl

drop-drop : {A : Type 0} (xs : List A) (s e : ℕ) → s ≤ e → drop (e - s) (drop s xs) ≡ drop e xs
drop-drop xs zero e h = ap (λ n. drop n xs) (let q : e - 0 ≡ e = omega arith in q)
drop-drop xs (suc s) zero h = absurd (omega arith)
drop-drop [] (suc s) (suc e) h = drop_nil (suc e - suc s)
drop-drop (x ∷ xs) (suc s) (suc e) h =
    ap (λ n. drop n (drop s xs)) (let q : suc e - suc s ≡ e - s = omega arith in q)
    ∙ drop-drop xs s e (omega arith)

module _ {A : Type 0} where
  unfoldable pub next : BrandedDrain A → Option A × BrandedDrain A
  unfolding drain_new
  next d = let (x, rest) = first_of d.inner in (x, drain_new rest)

  unfoldable pub next_back : BrandedDrain A → Option A × BrandedDrain A
  unfolding drain_new
  next_back d = let (x, rest) = last_of d.inner in (x, drain_new rest)

  -- The lower and the upper bound are the same number.
  unfoldable pub size_hint : BrandedDrain A → ℕ
  size_hint d = length d.inner

  ends-append :
      (calls : List Bool) (d : BrandedDrain A)
      → (take_ends next next_back calls d).0
          ++ ((take_ends next next_back calls d).2.inner ++ (take_ends next next_back calls d).1)
        ≡ d.inner
  unfolding next next_back drain_new
  ends-append calls d =
      take_ends-append next next_back (λ e. e.inner) calls d ((λ e. refl), (λ e. refl))

  take-drop_middle :
      (xs : List A) (start end : ℕ)
      → start ≤ end
      → take start xs ++ (take (end - start) (drop start xs) ++ drop end xs) ≡ xs
  take-drop_middle xs start end h =
      ap (λ ys. take start xs ++ (take (end - start) (drop start xs) ++ ys))
        (sym (drop-drop xs start end h))
      ∙ ap (◌++◌ (take start xs)) (take-drop (drop start xs) (end - start))
      ∙ take-drop xs start

  -- A range within the vector is drained without a panic. Whatever calls of `next` and `next_back` are
  -- made, also fewer than there are values, what came from the front, what is left and what came from
  -- the back lie in this order between the values that the vector keeps; the hint is the number of the
  -- values that are left.
  pub drain-take_ends :
      (v : BrandedVec A) (start end : ℕ) (calls : List Bool)
      → start ≤ end
      → end ≤ length v.cells
      → (d : BrandedDrain A) × (w : BrandedVec A) × (drain start end v ≡ some (d, w))
        × (w.cells ≡ take start v.cells ++ drop end v.cells)
        × (take start v.cells
              ++ (((take_ends next next_back calls d).0
                    ++ ((take_ends next next_back calls d).2.inner
                        ++ (take_ends next next_back calls d).1))
                  ++ drop end v.cells)
            ≡ v.cells)
        × (length (take_ends next next_back calls d).0
              + size_hint (take_ends next next_back calls d).2
              + length (take_ends next next_back calls d).1
            ≡ end - start)
  unfolding drain drain_new size_hint
  drain-take_ends v start end calls h k =
      let xs = v.cells in
      let d = drain_new (take (end - start) (drop start xs)) in
      let fs = (take_ends next next_back calls d).0 in
      let bs = (take_ends next next_back calls d).1 in
      let rest = (take_ends next next_back calls d).2.inner in
      (
        d,
        of (take start xs ++ drop end xs),
        rw (le→ltb end start h, le→ltb (length xs) end k) refl,
        refl,
        ap (λ ys. take start xs ++ (ys ++ drop end xs)) (ends-append calls d)
            ∙ take-drop_middle xs start end h,
        omega (
          arith,
          ap length (ends-append calls d),
          length-append fs (rest ++ bs),
          length-append rest bs,
          length-take (end - start) (drop start xs),
          length-drop start xs,
        ),
      )
