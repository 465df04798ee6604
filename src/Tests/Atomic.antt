-- ===== src/Tests/Atomic.antt =====
-- src/atomic at a byte.
use melinoe.Prelude.{ℕ, ◌≡◌, refl, true}
use melinoe.Machine.{panicked}
use melinoe.Atomic.Order.{release}
use melinoe.Atomic.Primitive.{AtomicInt, fetch_sub, fetch_nand, fetch_max, fetched, atomic_load}
use melinoe.Atomic.Branded.{BrandedAtomic, load, load_ordered}

abbrev byte : AtomicInt
byte = record { bits = 8; signed = true }

abbrev forty : BrandedAtomic
forty = record { inner = 40 }

-- The payload of a refused ordering.
abbrev bad : ℕ
bad = 0

-- A load cannot release.
load_refused : load bad release forty ≡ (panicked bad, forty)
unfolding load load_ordered atomic_load
load_refused = refl

-- 40 - 41 is the pattern of -1, which is less than 40; the complement of 40 and 12 is that of 8.
fetched_run :
    (fetched byte fetch_sub 41 40 ≡ 255)
    × (fetched byte fetch_max 40 255 ≡ 40)
    × (fetched byte fetch_nand 12 40 ≡ 247)
unfolding fetched
fetched_run = (refl, refl, refl)
