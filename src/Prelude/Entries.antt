-- ===== src/Prelude/Entries.antt =====
-- A predicate at every entry of a list, and entries of lists that were put together or mapped.
use Prim.Native.Nat.{ℕ, zero, suc, ◌-◌, ◌<◌, ◌≤◌}
use mathlib.Core.Path.{◌≡◌, refl, ap, subst, ◌∙◌}
use mathlib.Core.Logic.{◌⊎◌, inl, inr}
use mathlib.Core.List.{List, [], ◌∷◌, ◌++◌, map}
use mathlib.Core.Option.{some}
use native.Mathlib.Omega.{arith}
use melinoe.Prelude.Lists.{length, get_elem?, set, take, drop}
use melinoe.Prelude.Fallible.{some-inj}

abbrev pub All {ℓ} : {A : Type ℓ} → (A → Type 0) → List A → Type 0
All P [] = Unit {0}
All P (x ∷ xs) = P x × All P xs

module _ {ℓ} {A : Type ℓ} where
  pub All-get :
      (P : A → Type 0) (xs : List A) (i : ℕ) {x : A} → All P xs → get_elem? xs i ≡ some x → P x
  All-get P [] i a g = cc
  All-get P (x ∷ xs) zero a g = subst P (some-inj g) a.0
  All-get P (x ∷ xs) (suc i) a g = All-get P xs i a.1 g

  pub All-set : (P : A → Type 0) (xs : List A) (i : ℕ) (x : A) → All P xs → P x → All P (set xs i x)
  All-set P [] i x a p = tt
  All-set P (y ∷ xs) zero x a p = (p, a.1)
  All-set P (y ∷ xs) (suc i) x a p = (a.0, All-set P xs i x a.1 p)

  pub All-imp : (P Q : A → Type 0) (xs : List A) → ((x : A) → P x → Q x) → All P xs → All Q xs
  All-imp P Q [] f a = tt
  All-imp P Q (x ∷ xs) f a = (f x a.0, All-imp P Q xs f a.1)

  pub get_elem?-lt : (xs : List A) (i : ℕ) {x : A} → get_elem? xs i ≡ some x → i < length xs
  get_elem?-lt [] i g = cc
  get_elem?-lt (y ∷ xs) zero g = omega arith
  get_elem?-lt (y ∷ xs) (suc i) g = omega (arith, get_elem?-lt xs i g)

  pub get_elem?-append :
      (xs ys : List A) (i : ℕ) → i < length xs → get_elem? (xs ++ ys) i ≡ get_elem? xs i
  get_elem?-append [] ys i h = elim h [ ]
  get_elem?-append (x ∷ xs) ys zero h = refl
  get_elem?-append (x ∷ xs) ys (suc i) h = get_elem?-append xs ys i (omega arith)

  -- An entry after one more was added is an old one or the new one.
  pub get_elem?-snoc :
      (xs : List A) (y : A) (i : ℕ) {x : A}
      → get_elem? (xs ++ (y ∷ [])) i ≡ some x
      → (get_elem? xs i ≡ some x) ⊎ ((i ≡ length xs) × (y ≡ x))
  get_elem?-snoc [] y zero g = inr (refl, some-inj g)
  get_elem?-snoc [] y (suc i) g = cc
  get_elem?-snoc (z ∷ xs) y zero g = inl g
  get_elem?-snoc (z ∷ xs) y (suc i) g = elim (get_elem?-snoc xs y i g) [
    | inl h ↦ inl h
    | inr h ↦ inr (ap suc h.0, h.1)
  ]

  pub get_elem?-map {κ} :
      {B : Type κ} (f : A → B) (xs : List A) (i : ℕ) {x : A}
      → get_elem? xs i ≡ some x
      → get_elem? (map f xs) i ≡ some (f x)
  get_elem?-map f [] i g = cc
  get_elem?-map f (x ∷ xs) zero g = ap (λ y. some (f y)) (some-inj g)
  get_elem?-map f (x ∷ xs) (suc i) g = get_elem?-map f xs i g

  pub map-set {κ} :
      {B : Type κ} (f : A → B) (xs : List A) (i : ℕ) (x : A)
      → map f (set xs i x) ≡ set (map f xs) i (f x)
  map-set f [] i x = refl
  map-set f (y ∷ xs) zero x = refl
  map-set f (y ∷ xs) (suc i) x = ap (◌∷◌ (f y)) (map-set f xs i x)

  pub take-drop : (xs : List A) (i : ℕ) → take i xs ++ drop i xs ≡ xs
  take-drop xs zero = refl
  take-drop [] (suc i) = refl
  take-drop (x ∷ xs) (suc i) = ap (◌∷◌ x) (take-drop xs i)

  pub get_elem?-append_past :
      (xs ys : List A) (i : ℕ)
      → length xs ≤ i
      → get_elem? (xs ++ ys) i ≡ get_elem? ys (i - length xs)
  get_elem?-append_past [] ys i h = ap (get_elem? ys) (omega arith)
  get_elem?-append_past (x ∷ xs) ys zero h = absurd (omega arith)
  get_elem?-append_past (x ∷ xs) ys (suc i) h =
      get_elem?-append_past xs ys i (omega arith)
      ∙ ap (get_elem? ys) (let e : i - length xs ≡ suc i - suc (length xs) = omega arith in e)

  pub set-append :
      (xs ys : List A) (i : ℕ) (v : A) → i < length xs → set (xs ++ ys) i v ≡ set xs i v ++ ys
  set-append [] ys i v h = elim h [ ]
  set-append (x ∷ xs) ys zero v h = refl
  set-append (x ∷ xs) ys (suc i) v h = ap (◌∷◌ x) (set-append xs ys i v (omega arith))

  pub set-append_past :
      (xs ys : List A) (i : ℕ) (v : A)
      → length xs ≤ i
      → set (xs ++ ys) i v ≡ xs ++ set ys (i - length xs) v
  set-append_past [] ys i v h = ap (λ j. set ys j v) (omega arith)
  set-append_past (x ∷ xs) ys zero v h = absurd (omega arith)
  set-append_past (x ∷ xs) ys (suc i) v h = ap (◌∷◌ x) (
      set-append_past xs ys i v (omega arith)
      ∙ ap (λ j. xs ++ set ys j v)
          (let e : i - length xs ≡ suc i - suc (length xs) = omega arith in e))

  pub take-append_within : (xs ys : List A) (n : ℕ) → n ≤ length xs → take n (xs ++ ys) ≡ take n xs
  take-append_within xs ys zero h = refl
  take-append_within [] ys (suc n) h = absurd (omega arith)
  take-append_within (x ∷ xs) ys (suc n) h = ap (◌∷◌ x) (take-append_within xs ys n (omega arith))

  pub take-append_past :
      (xs ys : List A) (n : ℕ) → length xs ≤ n → take n (xs ++ ys) ≡ xs ++ take (n - length xs) ys
  take-append_past [] ys n h = ap (λ j. take j ys) (omega arith)
  take-append_past (x ∷ xs) ys zero h = absurd (omega arith)
  take-append_past (x ∷ xs) ys (suc n) h = ap (◌∷◌ x) (
      take-append_past xs ys n (omega arith)
      ∙ ap (λ j. xs ++ take j ys)
          (let e : n - length xs ≡ suc n - suc (length xs) = omega arith in e))
