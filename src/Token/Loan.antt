-- ===== src/Token/Loan.antt =====
-- src/token and src/cell: the permits and views in use.
use melinoe.Prelude.{
  ℕ, zero, suc, ◌+◌, ltb, leb, Bool, true, false, not, ◌&&◌, List, [], ◌∷◌, Option, none, some,
}
use melinoe.Token.{Token, Mode, by_ref, by_mut, by_shared, Permit, moved}

-- A permit in hand, or consumed by a view `&T` or `&mut T` of cells that lie side by side.
pub data Loan : Type 0 where
  held : Permit → Loan
  view : Permit → Bool → ℕ → ℕ → Loan

abbrev pub permit_of : Loan → Permit
permit_of (held p) = p
permit_of (view p exclusive start len) = p

-- Does the view reach the cell?
abbrev pub covers : Loan → ℕ → Bool
covers (held p) k = false
covers (view p exclusive start len) k = leb start k && ltb k (start + len)

abbrev pub unviewed : List Loan → ℕ → Bool
unviewed [] k = true
unviewed (l ∷ ls) k = not (covers l k) && unviewed ls k

abbrev pub remove_at {ℓ} : {A : Type ℓ} → ℕ → List A → List A
remove_at i [] = []
remove_at zero (x ∷ xs) = xs
remove_at (suc i) (x ∷ xs) = x ∷ remove_at i xs

abbrev pub as_held : Loan → Option Permit
as_held (held p) = some p
as_held (view p exclusive start len) = none

abbrev pub view_moved : ℕ → Loan → Option Loan
view_moved thread (held p) = none
view_moved thread (view p exclusive start len) = some (view (moved thread p) exclusive start len)

abbrev pub borrow_mode : Bool → Mode
borrow_mode false = by_ref
borrow_mode true = by_mut

abbrev pub is_ref : Mode → Bool
is_ref by_ref = true
is_ref by_mut = false
is_ref by_shared = false

abbrev pub at_thread : ℕ → Token → Token
at_thread thread t = record { brand = t.brand; family = t.family; thread = thread }

abbrev pub is_exclusive : Loan → Bool
is_exclusive (held p) = false
is_exclusive (view p exclusive start len) = exclusive
