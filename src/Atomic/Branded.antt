-- ===== src/Atomic/Branded.antt =====
-- src/atomic/branded.rs and src/atomic/branded/integer.rs: plain access in the exclusive phase, atomic
-- access in the shared one, each with a run-time ordering or with a policy. A permit is a proof for
-- the compiler and leaves nothing at run time.
use melinoe.Prelude.{ℕ, Option}
use melinoe.Machine.{Outcome}
use melinoe.Atomic.Order.{
  Ordering, AtomicOrder, OrderingSource, runtime, policy, load_order, store_order, rmw_order,
  failure_order,
}
use melinoe.Atomic.Primitive.{
  AtomicInt, Exchange, FetchOp, atomic_load, atomic_store, atomic_swap, atomic_compare_exchange,
  atomic_fetch_update, atomic_fetch,
}

-- `BrandedAtomic`, which is its atomic.
pub record BrandedAtomic : Type 0 where
  pub inner : ℕ

-- An operation of the atomic within.
abbrev pub within : {R : Type 0} → (ℕ → R × ℕ) → BrandedAtomic → R × BrandedAtomic
within f a = let (r, v) = f a.inner in (r, record { inner = v })

unfoldable pub new : ℕ → BrandedAtomic
new value = record { inner = value }

unfoldable pub into_inner : BrandedAtomic → ℕ
into_inner a = a.inner

-- The casts: `&mut A` as `&mut Self`, and back under a permit, by unique access and by ownership.
unfoldable pub from_mut : ℕ → BrandedAtomic
from_mut atomic = record { inner = atomic }

unfoldable pub as_atomic : BrandedAtomic → ℕ
as_atomic a = a.inner

-- What a use of the atomic through unique access does.
unfoldable pub as_atomic_mut : {R : Type 0} → (ℕ → R × ℕ) → BrandedAtomic → R × BrandedAtomic
as_atomic_mut f a = within f a

unfoldable pub into_atomic : BrandedAtomic → ℕ
into_atomic a = a.inner

-- The same for the value in it.
unfoldable pub get_mut : {R : Type 0} → (ℕ → R × ℕ) → BrandedAtomic → R × BrandedAtomic
get_mut f a = within f a

-- `with_exclusive`: the closure has `&mut` access to the value.
unfoldable pub with_exclusive : {R : Type 0} → (ℕ → R × ℕ) → BrandedAtomic → R × BrandedAtomic
with_exclusive f a = within f a

unfoldable pub load_exclusive : BrandedAtomic → ℕ × BrandedAtomic
unfolding with_exclusive
load_exclusive a = with_exclusive (λ v. (v, v)) a

unfoldable pub store_exclusive : ℕ → BrandedAtomic → Unit {0} × BrandedAtomic
unfolding with_exclusive
store_exclusive value a = with_exclusive (λ v. (tt, value)) a

module _ {P : Type 0} (bad_order : P) where
  unfoldable pub load_ordered : OrderingSource → BrandedAtomic → Outcome P ℕ × BrandedAtomic
  unfolding atomic_load load_order
  load_ordered order a = within (atomic_load bad_order (load_order order)) a

  unfoldable pub store_ordered :
      ℕ → OrderingSource → BrandedAtomic → Outcome P (Unit {0}) × BrandedAtomic
  unfolding atomic_store store_order
  store_ordered value order a = within (atomic_store bad_order value (store_order order)) a

  unfoldable pub swap_ordered : ℕ → OrderingSource → BrandedAtomic → Outcome P ℕ × BrandedAtomic
  unfolding atomic_swap rmw_order
  swap_ordered value order a = within (atomic_swap bad_order value (rmw_order order)) a

  unfoldable pub compare_exchange_ordered :
      ℕ → ℕ → OrderingSource → OrderingSource → BrandedAtomic → Outcome P Exchange × BrandedAtomic
  unfolding atomic_compare_exchange rmw_order failure_order
  compare_exchange_ordered current new success failure a =
      within
        (atomic_compare_exchange bad_order current new (rmw_order success) (failure_order failure))
        a

  unfoldable pub fetch_update_ordered :
      OrderingSource
      → OrderingSource
      → (ℕ → Option ℕ)
      → BrandedAtomic
      → Outcome P Exchange × BrandedAtomic
  unfolding atomic_fetch_update rmw_order failure_order
  fetch_update_ordered set_order fetch_order f a =
      within (atomic_fetch_update bad_order (rmw_order set_order) (failure_order fetch_order) f) a

  -- Each operation with a run-time ordering, and its twin with a policy.
  unfoldable pub load : Ordering → BrandedAtomic → Outcome P ℕ × BrandedAtomic
  unfolding load_ordered
  load order a = load_ordered (runtime order) a

  unfoldable pub load_with : AtomicOrder → BrandedAtomic → Outcome P ℕ × BrandedAtomic
  unfolding load_ordered
  load_with order a = load_ordered (policy order) a

  unfoldable pub store : ℕ → Ordering → BrandedAtomic → Outcome P (Unit {0}) × BrandedAtomic
  unfolding store_ordered
  store value order a = store_ordered value (runtime order) a

  unfoldable pub store_with : ℕ → AtomicOrder → BrandedAtomic → Outcome P (Unit {0}) × BrandedAtomic
  unfolding store_ordered
  store_with value order a = store_ordered value (policy order) a

  unfoldable pub swap : ℕ → Ordering → BrandedAtomic → Outcome P ℕ × BrandedAtomic
  unfolding swap_ordered
  swap value order a = swap_ordered value (runtime order) a

  unfoldable pub swap_with : ℕ → AtomicOrder → BrandedAtomic → Outcome P ℕ × BrandedAtomic
  unfolding swap_ordered
  swap_with value order a = swap_ordered value (policy order) a

  unfoldable pub compare_exchange :
      ℕ → ℕ → Ordering → Ordering → BrandedAtomic → Outcome P Exchange × BrandedAtomic
  unfolding compare_exchange_ordered
  compare_exchange current new success failure a =
      compare_exchange_ordered current new (runtime success) (runtime failure) a

  unfoldable pub compare_exchange_with :
      ℕ → ℕ → AtomicOrder → BrandedAtomic → Outcome P Exchange × BrandedAtomic
  unfolding compare_exchange_ordered
  compare_exchange_with current new order a =
      compare_exchange_ordered current new (policy order) (policy order) a

  unfoldable pub fetch_update :
      Ordering → Ordering → (ℕ → Option ℕ) → BrandedAtomic → Outcome P Exchange × BrandedAtomic
  unfolding fetch_update_ordered
  fetch_update set_order fetch_order f a =
      fetch_update_ordered (runtime set_order) (runtime fetch_order) f a

  unfoldable pub fetch_update_with :
      AtomicOrder → (ℕ → Option ℕ) → BrandedAtomic → Outcome P Exchange × BrandedAtomic
  unfolding fetch_update_ordered
  fetch_update_with order f a = fetch_update_ordered (policy order) (policy order) f a

-- `fetch_add` to `fetch_min`, and their twins.
unfoldable pub fetch :
    {P : Type 0} → AtomicInt → FetchOp → ℕ → Ordering → BrandedAtomic → Outcome P ℕ × BrandedAtomic
unfolding atomic_fetch rmw_order
fetch t op value order a = within (atomic_fetch t op value (rmw_order (runtime order))) a

unfoldable pub fetch_with :
    {P : Type 0}
    → AtomicInt
    → FetchOp
    → ℕ
    → AtomicOrder
    → BrandedAtomic
    → Outcome P ℕ × BrandedAtomic
unfolding atomic_fetch rmw_order
fetch_with t op value order a = within (atomic_fetch t op value (rmw_order (policy order))) a
