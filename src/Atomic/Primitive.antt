-- ===== src/Atomic/Primitive.antt =====
-- src/atomic/traits.rs: the standard library's atomics, one operation at a time. A value is its bit
-- pattern; an operation panics for an ordering that it cannot have.
use melinoe.Prelude.{
  ℕ, zero, suc, ◌+◌, ◌-◌, ◌*◌, ◌/◌, ◌%◌, ◌^◌, Bool, true, false, not, ◌&&◌, ◌||◌, Option, none,
  some, ltb, ◌==◌, if◌then◌else◌,
}
use melinoe.Machine.{Outcome, returned, panicked}
use melinoe.Atomic.Order.{Ordering, relaxed, release, acquire, acq_rel, seq_cst}

-- The type of an atomic: its width, and whether its values are signed.
pub record AtomicInt : Type 0 where
  pub bits : ℕ
  pub signed : Bool

-- `Result<Value, Value>`
pub data Exchange : Type 0 where
  ok err : ℕ → Exchange

abbrev pub can_load : Ordering → Bool
can_load relaxed = true
can_load release = false
can_load acquire = true
can_load acq_rel = false
can_load seq_cst = true

abbrev pub can_store : Ordering → Bool
can_store relaxed = true
can_store release = true
can_store acquire = false
can_store acq_rel = false
can_store seq_cst = true

module _ {P : Type 0} (bad_order : P) where
  unfoldable pub atomic_load : Ordering → ℕ → Outcome P ℕ × ℕ
  atomic_load order v = if can_load order then (returned v, v) else (panicked bad_order, v)

  unfoldable pub atomic_store : ℕ → Ordering → ℕ → Outcome P (Unit {0}) × ℕ
  atomic_store value order v =
      if can_store order then (returned tt, value) else (panicked bad_order, v)

  -- A read-modify-write operation takes every ordering.
  unfoldable pub atomic_swap : ℕ → Ordering → ℕ → Outcome P ℕ × ℕ
  atomic_swap value order v = (returned v, value)

  unfoldable pub atomic_compare_exchange : ℕ → ℕ → Ordering → Ordering → ℕ → Outcome P Exchange × ℕ
  atomic_compare_exchange current new success failure v =
      if not (can_load failure)
      then (panicked bad_order, v)
      else (if v == current then (returned (ok v), new) else (returned (err v), v))

  unfoldable pub atomic_fetch_update :
      Ordering → Ordering → (ℕ → Option ℕ) → ℕ → Outcome P Exchange × ℕ
  atomic_fetch_update set_order fetch_order f v =
      if not (can_load fetch_order)
      then (panicked bad_order, v)
      else (elim (f v) [ none ↦ (returned (err v), v) | some next ↦ (returned (ok v), next) ])

-- The standard library's arithmetic on two bit patterns.

abbrev pub bitwise : (Bool → Bool → Bool) → ℕ → ℕ → ℕ → ℕ
bitwise f zero a b = 0
bitwise f (suc w) a b =
    (if f (a % 2 == 1) (b % 2 == 1) then 1 else 0) + 2 * bitwise f w (a / 2) (b / 2)

abbrev xor : Bool → Bool → Bool
xor a b = if a then not b else b

abbrev nand : Bool → Bool → Bool
nand a b = not (a && b)

-- Of signed patterns the order is that of the values moved up by half of their number.
abbrev pub key : AtomicInt → ℕ → ℕ
key t v = if t.signed then (v + 2 ^ (t.bits - 1)) % (2 ^ t.bits) else v

pub data FetchOp : Type 0 where
  fetch_add fetch_sub fetch_and fetch_or fetch_xor fetch_nand fetch_max fetch_min : FetchOp

unfoldable pub fetched : AtomicInt → FetchOp → ℕ → ℕ → ℕ
fetched t fetch_add value v = (v + value) % (2 ^ t.bits)
fetched t fetch_sub value v = (v + 2 ^ t.bits - value) % (2 ^ t.bits)
fetched t fetch_and value v = bitwise (λ a b. a && b) t.bits v value
fetched t fetch_or value v = bitwise (λ a b. a || b) t.bits v value
fetched t fetch_xor value v = bitwise xor t.bits v value
fetched t fetch_nand value v = bitwise nand t.bits v value
fetched t fetch_max value v = if ltb (key t v) (key t value) then value else v
fetched t fetch_min value v = if ltb (key t value) (key t v) then value else v

-- The standard library's operation of that name, which takes every ordering.
unfoldable pub fetch_and_modify :
    {P : Type 0} → AtomicInt → FetchOp → ℕ → Ordering → ℕ → Outcome P ℕ × ℕ
unfolding fetched
fetch_and_modify t op value order v = (returned v, fetched t op value v)

module _ {P : Type 0} (t : AtomicInt) where
  unfoldable pub atomic_fetch_add : ℕ → Ordering → ℕ → Outcome P ℕ × ℕ
  unfolding fetch_and_modify
  atomic_fetch_add value order v = fetch_and_modify t fetch_add value order v

  unfoldable pub atomic_fetch_sub : ℕ → Ordering → ℕ → Outcome P ℕ × ℕ
  unfolding fetch_and_modify
  atomic_fetch_sub value order v = fetch_and_modify t fetch_sub value order v

  unfoldable pub atomic_fetch_and : ℕ → Ordering → ℕ → Outcome P ℕ × ℕ
  unfolding fetch_and_modify
  atomic_fetch_and value order v = fetch_and_modify t fetch_and value order v

  unfoldable pub atomic_fetch_or : ℕ → Ordering → ℕ → Outcome P ℕ × ℕ
  unfolding fetch_and_modify
  atomic_fetch_or value order v = fetch_and_modify t fetch_or value order v

  unfoldable pub atomic_fetch_xor : ℕ → Ordering → ℕ → Outcome P ℕ × ℕ
  unfolding fetch_and_modify
  atomic_fetch_xor value order v = fetch_and_modify t fetch_xor value order v

  unfoldable pub atomic_fetch_nand : ℕ → Ordering → ℕ → Outcome P ℕ × ℕ
  unfolding fetch_and_modify
  atomic_fetch_nand value order v = fetch_and_modify t fetch_nand value order v

  unfoldable pub atomic_fetch_max : ℕ → Ordering → ℕ → Outcome P ℕ × ℕ
  unfolding fetch_and_modify
  atomic_fetch_max value order v = fetch_and_modify t fetch_max value order v

  unfoldable pub atomic_fetch_min : ℕ → Ordering → ℕ → Outcome P ℕ × ℕ
  unfolding fetch_and_modify
  atomic_fetch_min value order v = fetch_and_modify t fetch_min value order v

-- The method of `AtomicInt` for an operation.
unfoldable pub atomic_fetch :
    {P : Type 0} → AtomicInt → FetchOp → ℕ → Ordering → ℕ → Outcome P ℕ × ℕ
unfolding atomic_fetch_add atomic_fetch_sub atomic_fetch_and atomic_fetch_or atomic_fetch_xor
    atomic_fetch_nand atomic_fetch_max atomic_fetch_min
atomic_fetch t fetch_add = atomic_fetch_add t
atomic_fetch t fetch_sub = atomic_fetch_sub t
atomic_fetch t fetch_and = atomic_fetch_and t
atomic_fetch t fetch_or = atomic_fetch_or t
atomic_fetch t fetch_xor = atomic_fetch_xor t
atomic_fetch t fetch_nand = atomic_fetch_nand t
atomic_fetch t fetch_max = atomic_fetch_max t
atomic_fetch t fetch_min = atomic_fetch_min t
