-- ===== src/Sync/Plan/Bounds.antt =====
-- What the chunk length of a plan (src/sync/scoped/partition/plan.rs) comes to in shards.
use melinoe.Prelude.{ℕ, ◌+◌, ◌-◌, ◌/◌, ap, ◌*◌, ◌≤◌, ◌<◌, ◌≡◌, Option, none, some, min, max, arith}
use native.Mathlib.Decide.{dec_lt}
use native.Mathlib.Nat.{div_self}
use melinoe.Machine.{usize_mod}
use melinoe.Region.Tiling.{partition_count}
use melinoe.Region.Tiling.Ceiling.{partition_count_ceiling, partition_count-pos}
use melinoe.Sync.Plan.{
  PartitionPlan, at_most_parts, hardware_parts, chunks_of, nonzero_or_one, parts, chunk_size,
  chunk_for_parts, resolve,
}

-- A number that is a `NonZeroUsize`.
abbrev pub IsNonZero : ℕ → Type 0
IsNonZero n = (1 ≤ n) × (n < usize_mod)

-- The numbers of a plan and of the machine are `NonZeroUsize`.
abbrev pub IsPlan : Option ℕ → PartitionPlan → Type 0
IsPlan cores (at_most_parts n) = IsNonZero n
IsPlan none hardware_parts = Unit {0}
IsPlan (some n) hardware_parts = IsNonZero n
IsPlan cores (chunks_of n) = IsNonZero n

-- The number of shards that a plan asks for at most; a plan by chunk size does not say.
abbrev pub wanted : Option ℕ → PartitionPlan → ℕ → ℕ
wanted cores (at_most_parts n) len = n
wanted none hardware_parts len = 1
wanted (some n) hardware_parts len = n
wanted cores (chunks_of n) len = len

mul_mono : (a b n : ℕ) → a ≤ b → a * n ≤ b * n
mul_mono a b n h = grind arith

-- Rounding the length up to a chunk for each part leaves no more shards than parts.
pub chunk_for_parts_bounds :
    (len n : ℕ)
    → len < usize_mod
    → IsNonZero n
    → IsNonZero (chunk_for_parts len n) × (partition_count len (chunk_for_parts len n) ≤ n)
unfolding chunk_for_parts
chunk_for_parts_bounds len n h v =
    let q = partition_count len n in
    let c = max q 1 in
    let a = partition_count_ceiling n v.0 len h in
    let b = partition_count_ceiling c (omega arith) len h in
    (
      omega (arith, a.2),
      elim (dec_lt n (partition_count len c)) [
        | yes more ↦ absurd (omega (arith, (b.3 n).0 more, a.0, mul_mono q c n (omega arith)))
        | no few ↦ omega arith
      ],
    )

-- Every plan resolves to a `usize` chunk length of at least 1 that cuts a region of `usize` length
-- into at most as many shards as the plan asks for, and at most one for each cell.
pub resolve_bounds :
    (cores : Option ℕ) (plan : PartitionPlan) (len : ℕ)
    → len < usize_mod
    → IsPlan cores plan
    → IsNonZero (resolve cores plan len)
      × (partition_count len (resolve cores plan len) ≤ wanted cores plan len)
      × (partition_count len (resolve cores plan len) ≤ len)
unfolding resolve
resolve_bounds cores (at_most_parts n) len h v =
    let b = chunk_for_parts_bounds len n h v in
    (b.0, b.1, (partition_count_ceiling (chunk_for_parts len n) b.0.0 len h).2)
resolve_bounds none hardware_parts len h v =
    let b = chunk_for_parts_bounds len 1 h (omega arith) in
    (b.0, b.1, (partition_count_ceiling (chunk_for_parts len 1) b.0.0 len h).2)
resolve_bounds (some n) hardware_parts len h v =
    let b = chunk_for_parts_bounds len n h v in
    (b.0, b.1, (partition_count_ceiling (chunk_for_parts len n) b.0.0 len h).2)
resolve_bounds none (chunks_of n) len h v =
    let b = partition_count_ceiling n v.0 len h in (v, b.2, b.2)
resolve_bounds (some m) (chunks_of n) len h v =
    let b = partition_count_ceiling n v.0 len h in (v, b.2, b.2)

-- The constructors clamp: any number of parts, and any chunk size, makes a plan.
pub parts-IsPlan :
    (cores : Option ℕ) (n : ℕ)
    → n < usize_mod
    → IsPlan cores (parts n) × IsPlan cores (chunk_size n)
unfolding parts chunk_size
parts-IsPlan none n h = ground arith
parts-IsPlan (some m) n h = ground arith

two_per_shard : (n : ℕ) → 3 ≤ n → n + 1 < usize_mod → chunk_for_parts (n + 1) (nonzero_or_one n) ≡ 2
unfolding chunk_for_parts nonzero_or_one
two_per_shard n k h = ground (
  arith,
  partition_count-pos n (omega arith) (n + 1) (omega arith) h,
  ap (λ t. t / n) (let e : n + 1 - 1 ≡ n = omega arith in e),
  div_self {n = n} (omega arith),
)

-- A region of one cell more than `n` parts, for `n` of at least 3, is cut into fewer than
-- `min(n, len)` shards.
pub parts_fall_short :
    (cores : Option ℕ) (n : ℕ)
    → 3 ≤ n
    → n + 1 < usize_mod
    → partition_count (n + 1) (resolve cores (parts n) (n + 1)) < min n (n + 1)
unfolding resolve parts
parts_fall_short cores n k h =
    rw (two_per_shard n k h)
      (omega (arith, partition_count-pos 2 (omega arith) (n + 1) (omega arith) h))
