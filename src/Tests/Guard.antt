-- ===== src/Tests/Guard.antt =====
-- src/cell/reference.rs at a pair in a store of two values.
use melinoe.Prelude.{ℕ, ◌≡◌, refl}
use melinoe.Guard.{Reference, through}
use melinoe.Guard.Shared.{into_ref}
use melinoe.Guard.Shared as Shared
use melinoe.Guard.Exclusive.{MelinoeMut, deref_mut, map_split}

abbrev left : {A B : Type 0} → Reference (A × B) A
left = record { read = λ p. p.0; write = λ a p. (a, p.1) }

abbrev right : {A B : Type 0} → Reference (A × B) B
right = record { read = λ p. p.1; write = λ b p. (p.0, b) }

-- A store of a number and the pair that is borrowed.
abbrev pair : MelinoeMut (ℕ × (ℕ × ℕ)) (ℕ × ℕ)
pair = record { value = right }

abbrev stored : ℕ × (ℕ × ℕ)
stored = (1, (2, 3))

-- Writes through the guards of the two parts.
split_run :
    deref_mut
      (map_split pair (λ r. (through r left, through r right))).1
      9
      (deref_mut (map_split pair (λ r. (through r left, through r right))).0 8 stored)
    ≡ (1, (8, 9))
unfolding map_split deref_mut
split_run = refl

-- The shared guards of the two parts read them.
shared_split :
    (into_ref (Shared.map_split (Shared.new (λ s. s.1)) (λ r. ((λ s. (r s).0), (λ s. (r s).1)))).1)
      stored
    ≡ 3
unfolding Shared.map_split Shared.new into_ref
shared_split = refl
