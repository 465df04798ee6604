-- ===== src/Prelude/Orders.antt =====
-- Sequences of task indices: the order in which independent tasks take effect.
use Prim.Native.Nat.{ℕ, ◌<◌}
use mathlib.Core.Path.{◌≡◌, refl, ap, ◌∙◌}
use mathlib.Core.Logic.{inl, inr, ◌≢◌}
use native.Mathlib.Omega.{arith}
use mathlib.Core.Bool.{Bool, true, false, ◌||◌}
use mathlib.Core.List.{List, [], ◌∷◌, ◌++◌, append-nil}
use melinoe.Prelude.Tests.{◌==◌, Bool-cases, ==→eq, ==_refl, ne→==}

abbrev pub contains : List ℕ → ℕ → Bool
contains [] i = false
contains (j ∷ js) i = j == i || contains js i

-- No index twice, and each below `n`.
abbrev pub IsOrder : ℕ → List ℕ → Type 0
IsOrder n [] = Unit {0}
IsOrder n (i ∷ is) = (i < n) × (contains is i ≡ false) × IsOrder n is

-- Every index below `n`.
abbrev pub IsComplete : ℕ → List ℕ → Type 0
IsComplete n is = (i : ℕ) → i < n → contains is i ≡ true

-- The indices of `done`, latest first, and then those of an order.
abbrev pub after : List ℕ → List ℕ → List ℕ
after done [] = done
after done (i ∷ is) = after (i ∷ done) is

abbrev pub Apart : List ℕ → List ℕ → Type 0
Apart done is = (k : ℕ) → contains is k ≡ true → contains done k ≡ false

pub contains-after :
    (done is : List ℕ) (k : ℕ) → contains (after done is) k ≡ (contains is k || contains done k)
contains-after done [] k = refl
contains-after done (i ∷ is) k = ground (arith, contains-after (i ∷ done) is k)

pub after-IsComplete : (n : ℕ) (is : List ℕ) → IsComplete n is → IsComplete n (after [] is)
after-IsComplete n is c i h = ground (arith, contains-after [] is i, c i h)

pub Apart-tail :
    (done : List ℕ) (i : ℕ) (is : List ℕ)
    → contains is i ≡ false
    → Apart done (i ∷ is)
    → Apart (i ∷ done) is
Apart-tail done i is f a k h = elim (Bool-cases (i == k)) [
  | inl e ↦ cc (ap (contains is) (==→eq i k e))
  | inr ne ↦ rw (ne, a k (rw (ne, h)))
]

after-after : (is acc d : List ℕ) → after d (after acc is) ≡ after (is ++ d) acc
after-after [] acc d = refl
after-after (i ∷ is) acc d = after-after is (i ∷ acc) d

-- Latest first of latest first is the order itself.
pub after_twice : (is : List ℕ) → after [] (after [] is) ≡ is
after_twice is = after-after is [] [] ∙ append-nil is

after-IsOrder :
    (n : ℕ) (is done : List ℕ)
    → IsOrder n is
    → IsOrder n done
    → Apart done is
    → IsOrder n (after done is)
after-IsOrder n [] done o p a = p
after-IsOrder n (i ∷ is) done o p a =
    after-IsOrder n is (i ∷ done) o.2 (o.0, a i (rw (==_refl i) refl), p)
      (Apart-tail done i is o.1 a)

-- The same indices the other way round.
pub reversed :
    (n : ℕ) (done : List ℕ)
    → IsOrder n done
    → IsComplete n done
    → (order : List ℕ) × IsOrder n order × IsComplete n order × (after [] order ≡ done)
reversed n done o c = (
  after [] done,
  after-IsOrder n done [] o tt (λ k h. refl),
  after-IsComplete n done c,
  after_twice done,
)

pub contains-cons : (done : List ℕ) (i j : ℕ) → i ≢ j → contains (i ∷ done) j ≡ contains done j
contains-cons done i j ne = rw (ne→== i j ne) refl

pub contains_self : (done : List ℕ) (i : ℕ) → contains (i ∷ done) i ≡ true
contains_self done i = rw (==_refl i) refl
