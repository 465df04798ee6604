-- ===== src/Deque/Endless.antt =====
-- `DequeShardPlan::from_lengths` (src/collections/deque/partition.rs) for a queue of elements that take
-- no space.
use melinoe.Prelude.{
  ℕ, zero, suc, ◌+◌, ◌-◌, ◌^◌, ◌≡◌, refl, ap, ◌∙◌, Option, none, List, [], ◌++◌, arith,
}
use melinoe.Machine.{add_usize}
use melinoe.Sync.Plan.{chunk_size, chunk_len_for}
use melinoe.Deque.Plan.{planned}
use melinoe.Deque.{DequeShard, pushed, fill, from_lengths}

-- From 0 and from the middle, which the loop reaches in turn.
fill_turns :
    (fuel f : ℕ) (shards : List DequeShard)
    → (fill fuel f (2 ^ 63) (2 ^ 64 - 1) 0 shards ≡ none)
      × (fill fuel f (2 ^ 63) (2 ^ 64 - 1) (2 ^ 63) shards ≡ none)
unfolding fill
fill_turns zero f shards = (refl, refl)
fill_turns (suc fuel) f shards = (
  (fill_turns fuel f (shards ++ pushed f 0 (2 ^ 63))).1,
  (fill_turns fuel f (shards ++ pushed f (2 ^ 63) 0)).0,
)

-- A queue of `usize::MAX` elements, however it lies in its segments, and a plan of chunks of half of
-- the `usize` values: the next start wraps around to 0 and no fuel is enough, the loop never ends.
pub from_lengths_endless :
    (cores : Option ℕ) (fuel front_len back_len : ℕ)
    → front_len + back_len ≡ 2 ^ 64 - 1
    → from_lengths cores fuel front_len back_len (chunk_size (2 ^ 63)) ≡ none
unfolding from_lengths chunk_size chunk_len_for
from_lengths_endless cores fuel f b h =
    let e : add_usize f b ≡ 2 ^ 64 - 1 = omega arith in
    ap (λ t. planned (fill fuel f (2 ^ 63) t 0 [])) e ∙ ap planned (fill_turns fuel f []).0
