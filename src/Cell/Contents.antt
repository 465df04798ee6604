-- ===== src/Cell/Contents.antt =====
-- src/cell/cow.rs: what a boundary view of two segments shows, and who owns it.
use melinoe.Prelude.{
  ◌≡◌, refl, ap₂, ◌∙◌, Bool, true, false, ◌&&◌, List, [], ◌∷◌, ◌++◌, map, append-nil, sym,
}
use melinoe.Cell.{
  Cow, borrowed, owned, CowPolicy, borrow_policy, retain_policy, no_elements, cow,
  cow_from_segments,
}

abbrev pub contents : {A : Type 0} → Cow A → List A
contents (borrowed xs) = xs
contents (owned xs) = xs

abbrev pub is_borrowed : {A : Type 0} → Cow A → Bool
is_borrowed (borrowed xs) = true
is_borrowed (owned xs) = false

abbrev pub borrows : CowPolicy → Bool
borrows borrow_policy = true
borrows retain_policy = false

module _ {A : Type 0} (clone : A → A) (faithful : (x : A) → clone x ≡ x) where
  pub map_clone : (xs : List A) → map clone xs ≡ xs
  map_clone [] = refl
  map_clone (x ∷ xs) = ap₂ ◌∷◌ (faithful x) (map_clone xs)

  -- For elements whose clone is equal to them, a view of two segments shows the first and then the
  -- second; it borrows exactly if the policy borrows and there is no second segment.
  pub contents-cow_from_segments :
      (first second : List A) (policy : CowPolicy)
      → (contents (cow_from_segments clone first second policy) ≡ first ++ second)
        × (is_borrowed (cow_from_segments clone first second policy)
            ≡ (borrows policy && no_elements second))
  unfolding cow_from_segments cow
  contents-cow_from_segments first [] borrow_policy = (sym (append-nil first), refl)
  contents-cow_from_segments first [] retain_policy =
      (map_clone first ∙ sym (append-nil first), refl)
  contents-cow_from_segments first (y ∷ ys) borrow_policy =
      (ap₂ ◌++◌ (map_clone first) (map_clone (y ∷ ys)), refl)
  contents-cow_from_segments first (y ∷ ys) retain_policy =
      (ap₂ ◌++◌ (map_clone first) (map_clone (y ∷ ys)), refl)
