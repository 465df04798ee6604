-- ===== src/Queue/Ring/Contents.antt =====
-- The `VecDeque` under src/collections/deque: what the operations on the segments do to the contents.
use melinoe.Prelude.{
  ℕ, ◌-◌, ◌≤◌, ◌<◌, ◌≡◌, refl, sym, ap, ap₂, ◌∙◌, false, ◌&&◌, Option, none, some, List, [], ◌∷◌,
  ◌++◌, length, get_elem?, set, take, drop, ltb, leb, ltb→lt, ltb→le, leb→le, Bool-cases, inl, inr,
  arith, append-nil, length-append, take-drop, get_elem?-append, get_elem?-append_past, set-append,
  set-append_past, take-append_within, take-append_past,
}
use melinoe.Cell.{no_elements}
use melinoe.Drain.{last_of}
use melinoe.Queue.Ring.{
  VecDeque, contents, settled, laid, len, is_empty, get, put, pop_back, pop_front, truncate, swap,
}

leb→gt : (a b : ℕ) → leb a b ≡ false → b < a
leb→gt a b h = ground arith

module _ {A : Type 0} where
  contents-settled : (xs ys : List A) → contents (settled xs ys) ≡ xs ++ ys
  contents-settled [] ys = append-nil ys
  contents-settled (x ∷ xs) ys = refl

  pub contents-laid : (seam : ℕ) (xs : List A) → contents (laid seam xs) ≡ xs
  contents-laid seam xs = contents-settled (take seam xs) (drop seam xs) ∙ take-drop xs seam

  pub len-contents : (q : VecDeque A) → len q ≡ length (contents q)
  unfolding len
  len-contents q = sym (length-append q.front q.back)

  no_elements-append :
      (xs ys : List A) → (no_elements xs && no_elements ys) ≡ no_elements (xs ++ ys)
  no_elements-append [] ys = refl
  no_elements-append (x ∷ xs) ys = refl

  pub is_empty-contents : (q : VecDeque A) → is_empty q ≡ no_elements (contents q)
  unfolding is_empty
  is_empty-contents q = no_elements-append q.front q.back

  pub get-contents : (i : ℕ) (q : VecDeque A) → get i q ≡ get_elem? (contents q) i
  unfolding get
  get-contents i q = elim (Bool-cases (ltb i (length q.front))) [
    | inl h ↦ rw h (sym (get_elem?-append q.front q.back i (ltb→lt _ _ h)))
    | inr h ↦ rw h (sym (get_elem?-append_past q.front q.back i (ltb→le _ _ h)))
  ]

  pub put-contents : (i : ℕ) (v : A) (q : VecDeque A) → contents (put i v q) ≡ set (contents q) i v
  unfolding put
  put-contents i v q = elim (Bool-cases (ltb i (length q.front))) [
    | inl h ↦ rw h (sym (set-append q.front q.back i v (ltb→lt _ _ h)))
    | inr h ↦ rw h (sym (set-append_past q.front q.back i v (ltb→le _ _ h)))
  ]

  pub truncate-contents : (n : ℕ) (q : VecDeque A) → contents (truncate n q) ≡ take n (contents q)
  unfolding truncate
  truncate-contents n q = elim (Bool-cases (leb n (length q.front))) [
    | inl h ↦
        rw h
          (append-nil (take n q.front) ∙ sym (take-append_within q.front q.back n (leb→le _ _ h)))
    | inr h ↦ rw h (
        sym (
          take-append_past q.front q.back n
            (let e = leb→gt n (length q.front) h in omega (arith, e))))
  ]

  pub pop_front-contents :
      (q : VecDeque A)
      → ((pop_front q).0 ≡ get_elem? (contents q) 0)
        × (contents (pop_front q).1 ≡ drop 1 (contents q))
  unfolding pop_front
  pop_front-contents q = first q.front q.back
    where
      first :
          (xs ys : List A)
          → ((pop_front (record { front = xs; back = ys })).0 ≡ get_elem? (xs ++ ys) 0)
            × (contents (pop_front (record { front = xs; back = ys })).1 ≡ drop 1 (xs ++ ys))
      first [] ys = (refl, append-nil (drop 1 ys))
      first (x ∷ xs) ys = (refl, contents-settled xs ys)

  last_of-append :
      (xs ys : List A) (y : A)
      → ((last_of (xs ++ (y ∷ ys))).0 ≡ (last_of (y ∷ ys)).0)
        × ((last_of (xs ++ (y ∷ ys))).1 ≡ xs ++ (last_of (y ∷ ys)).1)
  last_of-append xs ys y =
      let zs = y ∷ ys in
      let n = length (xs ++ zs) - 1 in
      let l = length-append xs zs in
      let e : n - length xs ≡ length zs - 1 = omega (arith, l) in
      let h : length xs ≤ n = omega (arith, l) in
      (
        get_elem?-append_past xs zs n h ∙ ap (get_elem? zs) e,
        take-append_past xs zs n h ∙ ap (λ k. xs ++ take k zs) e,
      )

  pub pop_back-contents :
      (q : VecDeque A)
      → ((pop_back q).0 ≡ (last_of (contents q)).0)
        × (contents (pop_back q).1 ≡ (last_of (contents q)).1)
  unfolding pop_back
  pop_back-contents q = back q.front q.back
    where
      back :
          (xs ys : List A)
          → ((pop_back (record { front = xs; back = ys })).0 ≡ (last_of (xs ++ ys)).0)
            × (contents (pop_back (record { front = xs; back = ys })).1 ≡ (last_of (xs ++ ys)).1)
      back xs [] =
          let e = sym (append-nil xs) in
          (ap (λ t. (last_of t).0) e, append-nil _ ∙ ap (λ t. (last_of t).1) e)
      back xs (y ∷ ys) = let (a, b) = last_of-append xs ys y in (sym a, sym b)

  -- What an operation that may panic does to the contents.
  abbrev pub contents_of : Option (VecDeque A) → Option (List A)
  contents_of none = none
  contents_of (some q) = some (contents q)

  abbrev pub both : {B : Type 0} → Option A → Option A → (A → A → B) → Option B
  both o p k = elim o [ none ↦ none | some x ↦ elim p [ none ↦ none | some y ↦ some (k x y) ] ]

  -- A swap of two values of a list.
  abbrev pub swapped : ℕ → ℕ → List A → Option (List A)
  swapped a b xs = both (get_elem? xs a) (get_elem? xs b) (λ x y. set (set xs a y) b x)

  contents_of-both :
      (o p : Option A) (k : A → A → VecDeque A) (l : A → A → List A)
      → ((x y : A) → contents (k x y) ≡ l x y)
      → contents_of (both o p k) ≡ both o p l
  contents_of-both none p k l h = refl
  contents_of-both (some x) none k l h = refl
  contents_of-both (some x) (some y) k l h = ap some (h x y)

  pub swap-contents :
      (a b : ℕ) (q : VecDeque A) → contents_of (swap a b q) ≡ swapped a b (contents q)
  unfolding swap
  swap-contents a b q =
      let xs = contents q in
      contents_of-both (get a q) (get b q) (λ x y. put b x (put a y q))
        (λ x y. set (set xs a y) b x)
        (λ x y. put-contents b x (put a y q) ∙ ap (λ t. set t b x) (put-contents a y q))
      ∙ ap₂ (λ o p. both o p (λ x y. set (set xs a y) b x)) (get-contents a q) (get-contents b q)
