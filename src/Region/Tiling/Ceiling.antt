-- ===== src/Region/Tiling/Ceiling.antt =====
-- `partition_count` (src/region/tiling.rs) is the quotient rounded up.
use native.Mathlib.Decide.{dec_lt}
use native.Mathlib.Nat.{le-div_iff_mul-le, div-eq-sub-div, div-eq_of_lt}
use melinoe.Prelude.{ℕ, zero, suc, ◌+◌, ◌-◌, ◌*◌, ◌/◌, ◌≤◌, ◌<◌, ◌≡◌, ◌↔◌, ap, arith}
use melinoe.Machine.{usize_mod}
use melinoe.Region.Tiling.{partition_count}

-- The quotient by a positive divisor, with what is left over.
div_bounds : (n d : ℕ) → 1 ≤ d → (n / d * d ≤ n) × (n < n / d * d + d) × (n / d ≤ n)
div_bounds n d h = grind arith

pub partition_count-zero : (chunk : ℕ) → partition_count 0 chunk ≡ 0
unfolding partition_count
partition_count-zero chunk = ground arith

module _ (chunk : ℕ) (k : 1 ≤ chunk) where
  pub partition_count-pos :
      (len : ℕ) → 0 < len → len < usize_mod → partition_count len chunk ≡ (len - 1) / chunk + 1
  unfolding partition_count
  partition_count-pos len p h = ground (arith, div_bounds (len - 1) chunk k)

  -- An index names a partition exactly when its first item lies in the region.
  pub lt-partition_count :
      (len i : ℕ) → len < usize_mod → (i < partition_count len chunk) ↔ (i * chunk < len)
  lt-partition_count zero i h = rw (partition_count-zero chunk) (omega arith)
  lt-partition_count (suc n) i h = rw (partition_count-pos (suc n) (omega arith) h) (
    (λ p. omega (arith, (le-div_iff_mul-le {k = chunk} {x = i} {y = suc n - 1} k).0 (omega arith))),
    (λ p. omega (arith, (le-div_iff_mul-le {k = chunk} {x = i} {y = suc n - 1} k).1 (omega arith))),
  )

  -- For a length that fits `usize` and a chunk size of at least 1: all `len` items fit the counted
  -- chunks, with less than a chunk to spare; there is at most one chunk for each item; and an index
  -- is below the count exactly when its chunk starts inside the region.
  pub partition_count_ceiling :
      (len : ℕ)
      → len < usize_mod
      → (len ≤ partition_count len chunk * chunk)
        × (partition_count len chunk * chunk < len + chunk)
        × (partition_count len chunk ≤ len)
        × ((i : ℕ) → (i < partition_count len chunk) ↔ (i * chunk < len))
  partition_count_ceiling zero h =
      rw (partition_count-zero chunk) (omega arith, omega arith, omega arith, λ i. omega arith)
  partition_count_ceiling (suc n) h =
      let e = partition_count-pos (suc n) (omega arith) h in
      let b = div_bounds (suc n - 1) chunk k in
      (
        omega (arith, e, b, ap (λ (t : ℕ). t * chunk) e),
        omega (arith, e, b, ap (λ (t : ℕ). t * chunk) e),
        omega (arith, e, b),
        λ i. lt-partition_count (suc n) i h,
      )

  -- Taking a chunk off the front of a longer region leaves one partition fewer.
  pub partition_count-suc :
      (len : ℕ)
      → len < usize_mod
      → 0 < len
      → partition_count len chunk ≡ suc (partition_count (len - chunk) chunk)
  partition_count-suc len h p = elim (dec_lt chunk len) [
    | yes more ↦ omega (
      arith,
      partition_count-pos len p h,
      partition_count-pos (len - chunk) (omega arith) (omega arith),
      div-eq-sub-div {m = chunk} {n = len - 1} k (omega arith),
      ap (λ t. t / chunk) (let e : len - 1 - chunk ≡ len - chunk - 1 = omega arith in e),
    )
    | no last ↦ omega (
      arith,
      partition_count-pos len p h,
      div-eq_of_lt {n = len - 1} {m = chunk} (omega arith),
      ap (λ t. partition_count t chunk) (let e : len - chunk ≡ 0 = omega arith in e),
      partition_count-zero chunk,
    )
  ]
