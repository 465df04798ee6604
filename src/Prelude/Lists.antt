-- ===== src/Prelude/Lists.antt =====
-- Lists measured and indexed by native numbers, under the library's names.
use Prim.Native.Nat.{ℕ, zero, suc, ◌+◌, ◌-◌, ◌<◌, ◌≤◌, min}
use mathlib.Core.Path.{◌≡◌, refl, ap, ap₂, ◌∙◌}
use mathlib.Core.Logic.{◌≢◌}
use mathlib.Core.List.{List, [], ◌∷◌, ◌++◌, map}
use mathlib.Core.Option.{Option, none, some}
use native.Mathlib.Omega.{arith}

module _ {ℓ} {A : Type ℓ} where
  abbrev pub length : List A → ℕ
  length [] = 0
  length (x ∷ xs) = suc (length xs)

  abbrev pub get_elem? : List A → ℕ → Option A
  get_elem? [] i = none
  get_elem? (x ∷ xs) zero = some x
  get_elem? (x ∷ xs) (suc i) = get_elem? xs i

  -- A write out of bounds changes nothing.
  abbrev pub set : List A → ℕ → A → List A
  set [] i v = []
  set (x ∷ xs) zero v = v ∷ xs
  set (x ∷ xs) (suc i) v = x ∷ set xs i v

  abbrev pub take : ℕ → List A → List A
  take zero xs = []
  take (suc n) [] = []
  take (suc n) (x ∷ xs) = x ∷ take n xs

  abbrev pub drop : ℕ → List A → List A
  drop zero xs = xs
  drop (suc n) [] = []
  drop (suc n) (x ∷ xs) = drop n xs

  abbrev pub replicate : ℕ → A → List A
  replicate zero a = []
  replicate (suc n) a = a ∷ replicate n a

  abbrev pub flatten : List (List A) → List A
  flatten [] = []
  flatten (xs ∷ xss) = xs ++ flatten xss

  -- `f i, f (i + 1), …`, `n` of them.
  abbrev pub tabulate : ℕ → ℕ → (ℕ → A) → List A
  tabulate zero i f = []
  tabulate (suc n) i f = f i ∷ tabulate n (suc i) f

module _ {ℓ} {A : Type ℓ} where
  pub length-append : (xs ys : List A) → length (xs ++ ys) ≡ length xs + length ys
  length-append [] ys = omega arith
  length-append (x ∷ xs) ys = omega (arith, length-append xs ys)

  pub length-take : (n : ℕ) (xs : List A) → length (take n xs) ≡ min n (length xs)
  length-take zero xs = omega arith
  length-take (suc n) [] = omega arith
  length-take (suc n) (x ∷ xs) = omega (arith, length-take n xs)

  pub length-drop : (n : ℕ) (xs : List A) → length (drop n xs) ≡ length xs - n
  length-drop zero xs = omega arith
  length-drop (suc n) [] = omega arith
  length-drop (suc n) (x ∷ xs) = omega (arith, length-drop n xs)

  pub length-set : (xs : List A) (i : ℕ) (v : A) → length (set xs i v) ≡ length xs
  length-set [] i v = refl
  length-set (x ∷ xs) zero v = refl
  length-set (x ∷ xs) (suc i) v = ap suc (length-set xs i v)

  pub length-replicate : (n : ℕ) (a : A) → length (replicate n a) ≡ n
  length-replicate zero a = refl
  length-replicate (suc n) a = ap suc (length-replicate n a)

  pub length-tabulate : (n i : ℕ) (f : ℕ → A) → length (tabulate n i f) ≡ n
  length-tabulate zero i f = refl
  length-tabulate (suc n) i f = ap suc (length-tabulate n (suc i) f)

  pub get_elem?-set_self :
      (xs : List A) (i : ℕ) (v : A) → i < length xs → get_elem? (set xs i v) i ≡ some v
  get_elem?-set_self [] i v h = elim h [ ]
  get_elem?-set_self (x ∷ xs) zero v h = refl
  get_elem?-set_self (x ∷ xs) (suc i) v h = get_elem?-set_self xs i v (omega arith)

  pub get_elem?-set_ne :
      (xs : List A) (i j : ℕ) (v : A) → i ≢ j → get_elem? (set xs i v) j ≡ get_elem? xs j
  get_elem?-set_ne [] i j v h = refl
  get_elem?-set_ne (x ∷ xs) zero zero v h = absurd (h refl)
  get_elem?-set_ne (x ∷ xs) zero (suc j) v h = refl
  get_elem?-set_ne (x ∷ xs) (suc i) zero v h = refl
  get_elem?-set_ne (x ∷ xs) (suc i) (suc j) v h = get_elem?-set_ne xs i j v (λ e. h (ap suc e))

  pub get_elem?-tabulate :
      (n i : ℕ) (f : ℕ → A) (j : ℕ) → j < n → get_elem? (tabulate n i f) j ≡ some (f (i + j))
  get_elem?-tabulate zero i f j h = elim h [ ]
  get_elem?-tabulate (suc n) i f zero h = ap (λ k. some (f k)) (omega arith)
  get_elem?-tabulate (suc n) i f (suc j) h = ground (
    arith,
    get_elem?-tabulate n (suc i) f j (omega arith),
    ap (λ k. some (f k)) (let e : suc i + j ≡ i + suc j = omega arith in e),
  )

  -- Two lists with the same entry at every index are equal.
  pub list_ext :
      (xs ys : List A)
      → length xs ≡ length ys
      → ((i : ℕ) → i < length xs → get_elem? xs i ≡ get_elem? ys i)
      → xs ≡ ys
  list_ext [] [] e h = refl
  list_ext [] (y ∷ ys) e h = absurd (omega arith)
  list_ext (x ∷ xs) [] e h = absurd (omega arith)
  list_ext (x ∷ xs) (y ∷ ys) e h =
      ground
        (arith, h 0 (omega arith), list_ext xs ys (omega arith) (λ i p. h (suc i) (omega arith)))

  pub map-tabulate {κ} :
      {B : Type κ} (g : A → B) (n i : ℕ) (f : ℕ → A)
      → map g (tabulate n i f) ≡ tabulate n i (λ k. g (f k))
  map-tabulate g zero i f = refl
  map-tabulate g (suc n) i f = ap (λ t. g (f i) ∷ t) (map-tabulate g n (suc i) f)

  pub tabulate_ext :
      (n i : ℕ) (f g : ℕ → A)
      → ((j : ℕ) → i ≤ j → j < i + n → f j ≡ g j)
      → tabulate n i f ≡ tabulate n i g
  tabulate_ext zero i f g h = refl
  tabulate_ext (suc n) i f g h = ground (
    arith,
    h i (omega arith) (omega arith),
    tabulate_ext n (suc i) f g (λ j p q. h j (omega arith) (omega arith)),
  )

  pub tabulate-suc : (n i : ℕ) (f : ℕ → A) → tabulate n (suc i) f ≡ tabulate n i (λ k. f (suc k))
  tabulate-suc zero i f = refl
  tabulate-suc (suc n) i f = ap (◌∷◌ (f (suc i))) (tabulate-suc n (suc i) f)

  set-tabulate :
      (n b : ℕ) (f g : ℕ → A) (i : ℕ)
      → i < n
      → ((k : ℕ) → b + i ≢ k → f k ≡ g k)
      → set (tabulate n b f) i (g (b + i)) ≡ tabulate n b g
  set-tabulate zero b f g i h e = elim h [ ]
  set-tabulate (suc n) b f g zero h e =
      ap₂ ◌∷◌ (ap g (let q : b + 0 ≡ b = omega arith in q))
        (tabulate_ext n (suc b) f g (λ j p q. e j (omega arith)))
  set-tabulate (suc n) b f g (suc i) h e = ap₂ ◌∷◌ (e b (omega arith)) (
      ap (λ k. set (tabulate n (suc b) f) i (g k))
        (let q : b + suc i ≡ suc b + i = omega arith in q)
      ∙ set-tabulate n (suc b) f g i (omega arith) (λ k ne. e k (omega arith)))

  -- A table with one entry given anew is the table of a function that differs there.
  pub tabulate_update :
      (n : ℕ) (f g : ℕ → A) (i : ℕ)
      → i < n
      → ((k : ℕ) → i ≢ k → f k ≡ g k)
      → set (tabulate n 0 f) i (g i) ≡ tabulate n 0 g
  tabulate_update n f g i h e =
      ap (λ k. set (tabulate n 0 f) i (g k)) (let q : i ≡ 0 + i = omega arith in q)
      ∙ set-tabulate n 0 f g i h (λ k ne. e k (omega arith))

  pub replicate-tabulate : (n b : ℕ) (a : A) → replicate n a ≡ tabulate n b (λ _. a)
  replicate-tabulate zero b a = refl
  replicate-tabulate (suc n) b a = ap (◌∷◌ a) (replicate-tabulate n (suc b) a)

  pub take-tabulate : (n k b : ℕ) (f : ℕ → A) → k ≤ n → take k (tabulate n b f) ≡ tabulate k b f
  take-tabulate n zero b f h = refl
  take-tabulate zero (suc k) b f h = absurd (omega arith)
  take-tabulate (suc n) (suc k) b f h = ap (◌∷◌ (f b)) (take-tabulate n k (suc b) f (omega arith))

  pub tabulate-snoc :
      (n b : ℕ) (f : ℕ → A) → tabulate n b f ++ (f (b + n) ∷ []) ≡ tabulate (suc n) b f
  tabulate-snoc zero b f = ap (λ k. f k ∷ []) (let e : b + 0 ≡ b = omega arith in e)
  tabulate-snoc (suc n) b f = ap (◌∷◌ (f b)) (
      ap (λ k. tabulate n (suc b) f ++ (f k ∷ []))
        (let e : b + suc n ≡ suc b + n = omega arith in e)
      ∙ tabulate-snoc n (suc b) f)
