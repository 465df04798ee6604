-- ===== src/Deque.antt =====
-- src/collections/deque/partition.rs: the shards of a ring buffer, which lies in two segments.
pub mod Maps
pub mod Tiles
pub mod Plan
pub mod Endless
mod Descriptors
pub mod Read
pub mod Writes
pub mod Mutate
use mathlib.Core.Option
use melinoe.Prelude.{
  ℕ, zero, suc, ◌-◌, Bool, true, false, Option, none, some, List, [], ◌∷◌, ◌++◌, length, min, max,
  ltb, if◌then◌else◌,
}
use melinoe.Machine.{Outcome, returned, panicked, add_usize, sub_usize}
use melinoe.Region.Shard.{new, as_mut_slice}
use melinoe.Sync.Plan.{PartitionPlan, chunk_len_for, chunk_size}
use melinoe.Sync.Process.{Process}
use melinoe.Sync.Driver.{Ended, results}
use melinoe.Sync.Map.{discard}
use melinoe.Sync.ReadMap.{index_range, partition_read_map_with}

pub data DequeSegment : Type 0 where
  front back : DequeSegment

pub record DequeShard : Type 0 where
  pub start : ℕ
  pub segment : DequeSegment
  pub offset : ℕ
  pub len : ℕ

pub record DequeShardPlan : Type 0 where
  pub shards : List DequeShard

-- What an iteration of the loop pushes for the logical range from `start` to `end`.
unfoldable pub pushed : ℕ → ℕ → ℕ → List DequeShard
pushed front_len start end =
    let back_start = max start front_len - front_len in
    (if ltb start front_len
      then record {
        start = start;
        segment = front;
        offset = start;
        len = sub_usize (min end front_len) start;
      }
        ∷ []
      else [])
    ++ (if ltb front_len end
        then record {
          start = add_usize front_len back_start;
          segment = back;
          offset = back_start;
          len = sub_usize end (max start front_len);
        }
          ∷ []
        else [])

-- The loop, on fuel: `none` when it is used up.
unfoldable pub fill : ℕ → ℕ → ℕ → ℕ → ℕ → List DequeShard → Option (List DequeShard)
unfolding pushed
fill zero front_len chunk_len total_len start shards =
    if ltb start total_len then none else some shards
fill (suc fuel) front_len chunk_len total_len start shards =
    let end = min (add_usize start chunk_len) total_len in
    let rest = fill fuel front_len chunk_len total_len end (shards ++ pushed front_len start end) in
    if ltb start total_len then rest else some shards

unfoldable pub from_lengths : Option ℕ → ℕ → ℕ → ℕ → PartitionPlan → Option DequeShardPlan
unfolding fill
from_lengths cores fuel front_len back_len plan =
    let total_len = add_usize front_len back_len in
    let chunk_len = max (chunk_len_for cores plan total_len) 1 in
    elim (fill fuel front_len chunk_len total_len 0 []) [
      | none ↦ none
      | some shards ↦ some (record { shards = shards })
    ]

unfoldable pub is_empty : DequeShardPlan → Bool
is_empty p = elim p.shards [ [] ↦ true | s ∷ ss ↦ false ]

-- `none` is the panic of a range out of bounds.
unfoldable pub read_slice {ℓ} : {A : Type ℓ} → DequeShard → List A → List A → Option (List A)
unfolding index_range
read_slice s fr ba = elim s.segment [
  | front ↦ index_range fr s.offset (add_usize s.offset s.len)
  | back ↦ index_range ba s.offset (add_usize s.offset s.len)
]

-- The cells of a queue in its two segments, which `DequeMutSlices` points to.
pub record DequeMutSlices (A : Type 0) : Type 0 where
  pub front_cells : List A
  pub back_cells : List A

module _ {P A R : Type 0} where
  -- A shard that reached beyond its segment, undefined behaviour in the source, would be cut off here.
  unfoldable pub with_shard_mut :
      DequeShard
      → (ℕ → List A → Outcome P R × List A)
      → DequeMutSlices A
      → Outcome P R × DequeMutSlices A
  unfolding as_mut_slice
  with_shard_mut s f q = elim s.segment [
    | front ↦
        let (o, cells) =
          as_mut_slice (new (record { base = s.offset; len = s.len })) (f s.start) q.front_cells in
        (o, record { front_cells = cells; back_cells = q.back_cells })
    | back ↦
        let (o, cells) =
          as_mut_slice (new (record { base = s.offset; len = s.len })) (f s.start) q.back_cells in
        (o, record { front_cells = q.front_cells; back_cells = cells })
  ]
