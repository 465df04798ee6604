-- ===== src/Examples/Codegen.antt =====
-- examples/codegen.rs: accesses to branded data beside the raw ones that they are compiled to.
use melinoe.Prelude.{
  ℕ, ◌+◌, ◌%◌, ◌^◌, false, List, [], ◌∷◌, map, slice, Option, some, get_elem?, ◌>>=◌,
}
use melinoe.Machine.{Outcome}
use melinoe.Token.World.{
  MelinoeCell, World, borrow, borrow_mut, borrow_slice, write, release, store,
}
use melinoe.Cell.{Cow, borrowed, owned, borrow_cow}
use melinoe.Reentrant.{GuardedCell, get_mut}
use melinoe.Atomic.Order.{relaxed, relaxed_policy}
use melinoe.Atomic.Primitive.{AtomicInt, fetch_add, atomic_fetch}
use melinoe.Atomic.Branded.{within, fetch, fetch_with}
use melinoe.Atomic.Phases.{Content, exclusive, operate, operate_view}

-- `u64`
abbrev pub u64 : AtomicInt
u64 = record { bits = 64; signed = false }

abbrev pub add_u64 : ℕ → ℕ → ℕ
add_u64 a b = (a + b) % (2 ^ 64)

-- `Iterator::sum` of `u64` values, from a first summand on.
abbrev pub sum_on : ℕ → List ℕ → ℕ
sum_on acc [] = acc
sum_on acc (x ∷ xs) = sum_on (add_u64 acc x) xs

-- The values that a slice of cells shows.
abbrev pub values_at : {T : Type 0} → ℕ → ℕ → World T → List T
values_at start len w = slice (map (λ c. c.value) w.cells) start len

abbrev pub shown : {A : Type 0} → Cow A → List A
shown (borrowed xs) = xs
shown (owned xs) = xs

module _ {T : Type 0} where
  -- `tok` is the permit at place `l`, which ends with the call; `cell` is the cell at `k`.
  unfoldable pub melinoe_write : ℕ → ℕ → T → World T → Option (World T)
  unfolding borrow_mut write release
  melinoe_write k tok v w = do
    lent ← borrow_mut tok k w
    written ← write tok k v lent
    release tok written

  unfoldable pub raw_write : ℕ → T → List (MelinoeCell T) → List (MelinoeCell T)
  raw_write k v cells = store k v cells

  unfoldable pub melinoe_read : ℕ → ℕ → World T → Option (T × World T)
  unfolding borrow release
  melinoe_read k tok w = do
    lent ← borrow tok k w
    c ← get_elem? lent.cells k
    released ← release tok lent
    some (c.value, released)

unfoldable pub melinoe_slice_sum : ℕ → ℕ → ℕ → World ℕ → Option (ℕ × World ℕ)
unfolding borrow_slice release
melinoe_slice_sum start len tok w = do
  lent ← borrow_slice tok start len w
  released ← release tok lent
  some (sum_on 0 (values_at start len lent), released)

unfoldable pub raw_slice_sum : List ℕ → ℕ
raw_slice_sum s = sum_on 0 s

unfoldable pub melinoe_cow_borrow_sum : (ℕ → ℕ) → ℕ → ℕ → ℕ → World ℕ → Option (ℕ × World ℕ)
unfolding borrow_slice release borrow_cow
melinoe_cow_borrow_sum clone start len tok w = do
  lent ← borrow_slice tok start len w
  released ← release tok lent
  some (sum_on 0 (shown (borrow_cow clone (values_at start len lent))), released)

unfoldable pub branded_atomic_plain_store :
    {V : Type 0} → ℕ → ℕ → ℕ → World (Content V) → Option (Unit {0} × World (Content V))
unfolding exclusive
branded_atomic_plain_store a tok v w = exclusive tok a (λ old. (tt, v)) w

unfoldable pub raw_atomic_fetch_add : {P : Type 0} → ℕ → ℕ → Outcome P ℕ × ℕ
unfolding atomic_fetch
raw_atomic_fetch_add v a = atomic_fetch u64 fetch_add v relaxed a

module _ {P V : Type 0} where
  -- `tok`, a `SharedReadToken`, ends with the call.
  unfoldable pub branded_atomic_fetch_add :
      ℕ → ℕ → ℕ → World (Content V) → Option (Outcome P ℕ × World (Content V))
  unfolding operate fetch release
  branded_atomic_fetch_add a tok v w = do
    r ← operate tok a (fetch u64 fetch_add v relaxed) w
    released ← release tok r.1
    some (r.0, released)

  unfoldable pub branded_atomic_fetch_add_relaxed :
      ℕ → ℕ → ℕ → World (Content V) → Option (Outcome P ℕ × World (Content V))
  unfolding operate fetch_with release
  branded_atomic_fetch_add_relaxed a tok v w = do
    r ← operate tok a (fetch_with u64 fetch_add v relaxed_policy) w
    released ← release tok r.1
    some (r.0, released)

  unfoldable pub branded_atomic_interop_fetch_add :
      ℕ → ℕ → ℕ → World (Content V) → Option (Outcome P ℕ × World (Content V))
  unfolding borrow operate_view raw_atomic_fetch_add release
  branded_atomic_interop_fetch_add a tok v w = do
    viewed ← borrow tok a w
    r ← operate_view tok a (within (raw_atomic_fetch_add v)) viewed
    released ← release tok r.1
    some (r.0, released)

unfoldable pub guarded_get_mut : GuardedCell ℕ → ℕ × GuardedCell ℕ
unfolding get_mut
guarded_get_mut cell = let cell' = get_mut (λ v. add_u64 v 1) cell in (cell'.value, cell')
