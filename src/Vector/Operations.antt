-- ===== src/Vector/Operations.antt =====
-- src/collections/branded_vec/ops.rs: operations that undo one another, and where they panic.
use melinoe.Prelude.{
  ℕ, zero, suc, ◌-◌, ◌≤◌, ◌≡◌, refl, ap, ap₂, ◌∙◌, none, some, List, [], ◌∷◌, ◌++◌, length,
  get_elem?, take, drop, length-append, length-take, length-drop, arith, take-drop,
}
use melinoe.Vector.{BrandedVec, of, without, push, pop, insert, remove, split_off, append}

module _ {A : Type 0} where
  get_elem?-between :
      (xs ys : List A) (i : ℕ) (x : A)
      → i ≤ length xs
      → get_elem? (take i xs ++ (x ∷ ys)) i ≡ some x
  get_elem?-between xs ys zero x h = refl
  get_elem?-between [] ys (suc i) x h = absurd (omega arith)
  get_elem?-between (w ∷ xs) ys (suc i) x h = get_elem?-between xs ys i x (omega arith)

  take-between : (xs ys : List A) (i : ℕ) → i ≤ length xs → take i (take i xs ++ ys) ≡ take i xs
  take-between xs ys zero h = refl
  take-between [] ys (suc i) h = absurd (omega arith)
  take-between (w ∷ xs) ys (suc i) h = ap (◌∷◌ w) (take-between xs ys i (omega arith))

  drop-between :
      (xs ys : List A) (i : ℕ) (x : A) → i ≤ length xs → drop (suc i) (take i xs ++ (x ∷ ys)) ≡ ys
  drop-between xs ys zero x h = refl
  drop-between [] ys (suc i) x h = absurd (omega arith)
  drop-between (w ∷ xs) ys (suc i) x h = drop-between xs ys i x (omega arith)

  without-between :
      (xs ys : List A) (i : ℕ) (x : A)
      → i ≤ length xs
      → without (take i xs ++ (x ∷ ys)) i ≡ some (x, take i xs ++ ys)
  without-between xs ys i x h =
      ap
        (λ o. elim o [
          | none ↦ none
          | some y ↦
              some (y, take i (take i xs ++ (x ∷ ys)) ++ drop (suc i) (take i xs ++ (x ∷ ys)))
        ])
        (get_elem?-between xs ys i x h)
      ∙ ap₂ (λ a b. some (x, a ++ b)) (take-between xs (x ∷ ys) i h) (drop-between xs ys i x h)

  -- An insertion at an index up to the length does not panic and makes the vector one longer; a
  -- removal at the same index gives the value back and leaves the vector as it was.
  pub remove-insert :
      (v : BrandedVec A) (index : ℕ) (x : A)
      → index ≤ length v.cells
      → (w : BrandedVec A) × (insert index x v ≡ some w)
        × (length w.cells ≡ suc (length v.cells))
        × (remove index w ≡ some (x, v))
  unfolding insert remove
  remove-insert v index x h =
      let xs = v.cells in
      (
        of (take index xs ++ (x ∷ drop index xs)),
        ground arith,
        omega (
          arith,
          length-append (take index xs) (x ∷ drop index xs),
          length-take index xs,
          length-drop index xs,
        ),
        ap (λ o. elim o [ none ↦ none | some (y, ys) ↦ some (y, of ys) ])
              (without-between xs (drop index xs) index x h)
            ∙ ap (λ ys. some (x, of ys)) (take-drop xs index),
      )

  -- A split at an index up to the length does not panic and gives the left part that length; appended
  -- again, the parts are the vector, and the right part is left empty.
  pub append-split_off :
      (v : BrandedVec A) (at : ℕ)
      → at ≤ length v.cells
      → (l : BrandedVec A) × (r : BrandedVec A) × (split_off at v ≡ some (l, r))
        × (length l.cells ≡ at)
        × (append l r ≡ (v, of []))
  unfolding split_off append
  append-split_off v at h = (
    of (take at v.cells),
    of (drop at v.cells),
    ground arith,
    omega (arith, length-take at v.cells),
    ap (λ xs. (of xs, of [])) (take-drop v.cells at),
  )

  get_elem?-snoc : (xs : List A) (x : A) → get_elem? (xs ++ (x ∷ [])) (length xs) ≡ some x
  get_elem?-snoc [] x = refl
  get_elem?-snoc (w ∷ xs) x = get_elem?-snoc xs x

  take-append : (xs ys : List A) → take (length xs) (xs ++ ys) ≡ xs
  take-append [] ys = refl
  take-append (x ∷ xs) ys = ap (◌∷◌ x) (take-append xs ys)

  -- A pop gives the value of the last push, and then the vector is as it was before that.
  pop-push : (v : BrandedVec A) (x : A) → pop (push x v) ≡ (some x, v)
  unfolding pop push
  pop-push v x =
      let xs = v.cells ++ (x ∷ []) in
      let e : length xs - 1 ≡ length v.cells = omega (arith, length-append v.cells (x ∷ [])) in
      ap (λ n. elim (get_elem? xs n) [ none ↦ (none, of xs) | some y ↦ (some y, of (take n xs)) ]) e
      ∙ ap (λ o. elim o [ none ↦ (none, of xs) | some y ↦ (some y, of (take (length v.cells) xs)) ])
          (get_elem?-snoc v.cells x)
      ∙ ap (λ ys. (some x, of ys)) (take-append v.cells (x ∷ []))
