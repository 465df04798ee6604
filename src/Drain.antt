-- ===== src/Drain.antt =====
-- src/collections: drains, which give the values of a range from both of its ends. The standard
-- library's `Drain` is the list of the values that it has not given yet.
use melinoe.Prelude.{
  suc, ◌-◌, ◌≡◌, refl, sym, ap, ap₂, ◌∙◌, Bool, true, false, Option, none, some, List, [], ◌∷◌,
  ◌++◌, length, get_elem?, take, drop, append-nil, append_assoc, arith,
}

-- What is taken out at an end, and the rest.
abbrev pub first_of : {A : Type 0} → List A → Option A × List A
first_of xs = (get_elem? xs 0, drop 1 xs)

abbrev pub last_of : {A : Type 0} → List A → Option A × List A
last_of xs = (get_elem? xs (length xs - 1), take (length xs - 1) xs)

abbrev pub given : {A : Type 0} → Option A → List A
given none = []
given (some x) = x ∷ []

first_of-append : {A : Type 0} (xs : List A) → given (first_of xs).0 ++ (first_of xs).1 ≡ xs
first_of-append [] = refl
first_of-append (x ∷ xs) = refl

last_of-append : {A : Type 0} (xs : List A) → (last_of xs).1 ++ given (last_of xs).0 ≡ xs
last_of-append [] = refl
last_of-append (x ∷ []) = refl
last_of-append (x ∷ y ∷ ys) =
    ap₂ (λ a b. a ++ given b)
      (ap (λ n. take n (x ∷ y ∷ ys))
        (let e : length (x ∷ y ∷ ys) - 1 ≡ suc (length (y ∷ ys) - 1) = omega arith in e))
      (ap (get_elem? (x ∷ y ∷ ys))
        (let e : length (x ∷ y ∷ ys) - 1 ≡ suc (length (y ∷ ys) - 1) = omega arith in e))
    ∙ ap (◌∷◌ x) (last_of-append (y ∷ ys))

-- Calls of `next` and, for `false`, of `next_back`: what came from the front and from the back, in the
-- order of the range, and the drain afterwards.
module _ {A D : Type 0} (next next_back : D → Option A × D) where
  abbrev pub take_ends : List Bool → D → List A × List A × D
  take_ends [] d = ([], [], d)
  take_ends (true ∷ calls) d =
      let (x, e) = next d in let (fs, bs, r) = take_ends calls e in (given x ++ fs, bs, r)
  take_ends (false ∷ calls) d =
      let (x, e) = next_back d in let (fs, bs, r) = take_ends calls e in (fs, bs ++ given x, r)

module _ {A D : Type 0} (next next_back : D → Option A × D) (inner : D → List A) where
  -- The drain gives from the ends of what it has.
  abbrev pub GivesEnds : Type 0
  GivesEnds =
      ((d : D) → ((next d).0, inner (next d).1) ≡ first_of (inner d))
      × ((d : D) → ((next_back d).0, inner (next_back d).1) ≡ last_of (inner d))

  -- Nothing is lost or given twice, and the order is that of the range.
  pub take_ends-append :
      (calls : List Bool) (d : D)
      → GivesEnds
      → (take_ends next next_back calls d).0
          ++ (inner (take_ends next next_back calls d).2 ++ (take_ends next next_back calls d).1)
        ≡ inner d
  take_ends-append [] d h = append-nil (inner d)
  take_ends-append (true ∷ calls) d h =
      let (x, e) = next d in
      let (fs, bs, r) = take_ends next next_back calls e in
      append_assoc (given x) fs (inner r ++ bs)
      ∙ ap (◌++◌ (given x)) (take_ends-append calls e h)
      ∙ ap (λ t. given t.0 ++ t.1) (h.0 d)
      ∙ first_of-append (inner d)
  take_ends-append (false ∷ calls) d h =
      let (x, e) = next_back d in
      let (fs, bs, r) = take_ends next next_back calls e in
      sym (
        ap (λ ys. ys ++ given x) (sym (take_ends-append calls e h))
        ∙ append_assoc fs (inner r ++ bs) (given x)
        ∙ ap (◌++◌ fs) (append_assoc (inner r) bs (given x)))
      ∙ ap (λ t. t.1 ++ given t.0) (h.1 d)
      ∙ last_of-append (inner d)
