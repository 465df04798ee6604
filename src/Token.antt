-- ===== src/Token.antt =====
-- src/token and src/sync/tokens: brands, the families of owner tokens and the permits borrowed from
-- them. A brand `'brand` is a number; a thread is a number.
pub mod Loan
pub mod World
pub mod Run
pub mod Clear
pub mod Valid
pub mod Exclusion
pub mod Threads
pub mod Access
use melinoe.Prelude.{ℕ, suc, Bool, true, false, not, ◌||◌, ◌&&◌, ◌==◌, List, [], ◌∷◌}

-- The families that `brand_owner_token!` declares.
pub data Family : Type 0 where
  exclusive_family sync_region_family thread_local_family : Family

-- `share:` of the macro: has the token a method `share`?
abbrev pub share : Family → Bool
share exclusive_family = true
share sync_region_family = true
share thread_local_family = false

-- `marker_extra:` of the macro: `()` leaves the token and its borrows `Send`, a raw pointer does not.
abbrev pub sends : Family → Bool
sends exclusive_family = true
sends sync_region_family = true
sends thread_local_family = false

-- The unique owner of a brand, with the thread that has it.
pub record Token : Type 0 where
  pub brand : ℕ
  pub family : Family
  pub thread : ℕ

-- `Token::new_unchecked`, for any brand.
abbrev pub new_unchecked : ℕ → Family → ℕ → Token
new_unchecked brand family thread = record { brand = brand; family = family; thread = thread }

-- `mint` of a family
unfoldable pub mint : Family → ℕ → ℕ → Token
mint family thread brand = new_unchecked brand family thread

-- What carries a permit: `&token`, `&mut token`, or a `SharedReadToken`.
pub data Mode : Type 0 where
  by_ref by_mut by_shared : Mode

-- All three are a `ReadPermit`; only `&mut token` is a `WritePermit`.
abbrev pub writes : Mode → Bool
writes by_ref = false
writes by_mut = true
writes by_shared = false

-- A permit of a brand, with the place of the token that it borrows from and the thread that has it.
pub record Permit : Type 0 where
  pub owner : ℕ
  pub brand : ℕ
  pub mode : Mode
  pub thread : ℕ

-- A permit borrowed from the token at place `owner`.
abbrev pub lent : ℕ → Token → Mode → Permit
lent owner t mode = record { owner = owner; brand = t.brand; mode = mode; thread = t.thread }

-- `share`: a `SharedReadToken` has the brand and the borrow of the `&token` that it is made from.
unfoldable pub shared_token : Permit → Permit
shared_token p = record { owner = p.owner; brand = p.brand; mode = by_shared; thread = p.thread }

-- A permit given to another thread.
abbrev pub moved : ℕ → Permit → Permit
moved thread p = record { owner = p.owner; brand = p.brand; mode = p.mode; thread = thread }

-- May the carrier go to another thread? A borrow may when the token may; a `SharedReadToken`, which
-- holds no marker of its family, always may.
abbrev pub permit_sends : Family → Mode → Bool
permit_sends family by_ref = sends family
permit_sends family by_mut = sends family
permit_sends family by_shared = true

-- Borrows of one token exclude each other when one of them is `&mut`.
abbrev pub conflict : Permit → Permit → Bool
conflict p q = (p.owner == q.owner) && (writes p.mode || writes q.mode)

-- May `p` be borrowed while the permits `ps` are in use?
abbrev pub clear : Permit → List Permit → Bool
clear p [] = true
clear p (q ∷ qs) = not (conflict p q) && clear p qs
