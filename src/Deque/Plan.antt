-- ===== src/Deque/Plan.antt =====
-- `DequeShardPlan::from_lengths` (src/collections/deque/partition.rs) for a queue in memory.
use melinoe.Prelude.{
  ℕ, zero, suc, ◌+◌, ◌≤◌, ◌<◌, ◌≡◌, refl, sym, ap, ◌∙◌, inl, inr, true, Option, none, some, List,
  [], ◌++◌, append-nil, append_assoc, min, max, ltb, Bool-cases, arith,
}
use melinoe.Machine.{usize_mod, slice_mod, add_usize}
use melinoe.Sync.Plan.{PartitionPlan, resolve, chunk_len_for}
use melinoe.Sync.Plan.Bounds.{IsPlan, resolve_bounds}
use melinoe.Deque.{DequeShard, DequeShardPlan, pushed, fill, from_lengths}
use melinoe.Deque.Tiles.{Tiles, pushed-Tiles}

module _ (f b c : ℕ) where
  fill_step :
      (fuel start : ℕ) (shards : List DequeShard)
      → ltb start (f + b) ≡ true
      → let end = min (add_usize start c) (f + b) in
        fill (suc fuel) f c (f + b) start shards
        ≡ fill fuel f c (f + b) end (shards ++ pushed f start end)
  unfolding fill
  fill_step fuel start shards more = rw more refl

module _ (f b c : ℕ) (h : f + b < slice_mod) (k : 1 ≤ c) (m : c < usize_mod) where
  fill-Tiles :
      (fuel start : ℕ) (shards : List DequeShard)
      → start ≤ f + b
      → f + b ≤ start + fuel
      → (start < f + b → start + c < usize_mod)
      → (ss : List DequeShard) × (fill fuel f c (f + b) start shards ≡ some (shards ++ ss))
        × Tiles f b c start ss
  unfolding fill
  fill-Tiles zero start shards le enough fits =
      ([], (let e = append-nil shards in ground (arith, e)), omega arith)
  fill-Tiles (suc fuel) start shards le enough fits = elim (Bool-cases (ltb start (f + b))) [
    | inr done ↦ ([], rw done (ap some (sym (append-nil shards))), ground (arith, done))
    | inl more ↦
        let lt : start < f + b = ground (arith, more) in
        let end = min (start + c) (f + b) in
        let exact : add_usize start c ≡ start + c = (let q = fits lt in omega (arith, q)) in
        let (ss, run, tiles) =
          fill-Tiles fuel end (shards ++ pushed f start end) (omega arith) (omega (arith, lt))
            (λ q. omega (arith, q, lt)) in
        (
          pushed f start end ++ ss,
          fill_step f b c fuel start shards more
              ∙ ap
                  (λ t.
                    fill fuel f c (f + b) (min t (f + b))
                      (shards ++ pushed f start (min t (f + b))))
                  exact
              ∙ run
              ∙ ap some (append_assoc shards (pushed f start end) ss),
          pushed-Tiles f b c start ss h k lt tiles,
        )
  ]

abbrev pub planned : Option (List DequeShard) → Option DequeShardPlan
planned made = elim made [ none ↦ none | some shards ↦ some (record { shards = shards }) ]

-- For a queue in memory, a valid plan and as much fuel as the queue is long, the plan is made, and
-- its shards tile the queue in logical order: each starts where the one before it ends, the first at
-- 0 and the last ends at the end; none is empty, none is longer than the chunk length of the plan,
-- and each lies within one of the two segments, at the place of its logical start.
pub from_lengths-Tiles :
    (cores : Option ℕ) (fuel front_len back_len : ℕ) (plan : PartitionPlan)
    → front_len + back_len < slice_mod
    → IsPlan cores plan
    → front_len + back_len ≤ fuel
    → (ss : List DequeShard) × (from_lengths cores fuel front_len back_len plan
        ≡ some (record { shards = ss }))
      × Tiles front_len back_len (resolve cores plan (front_len + back_len)) 0 ss
unfolding from_lengths resolve
from_lengths-Tiles cores fuel f b plan h p enough =
    let n = (resolve_bounds cores plan (f + b) (omega arith) p).0 in
    let c = chunk_len_for cores plan (f + b) in
    let (ss, run, tiles) =
      fill-Tiles f b c h n.0 n.1 fuel 0 [] (omega arith) (omega arith) (λ _. omega (arith, n)) in
    let e : add_usize f b ≡ f + b = omega arith in
    let g : max c 1 ≡ c = omega (arith, n) in
    (
      ss,
      ap (λ t. planned (fill fuel f (max (chunk_len_for cores plan t) 1) t 0 [])) e
          ∙ ap (λ t. planned (fill fuel f t (f + b) 0 [])) g
          ∙ ap planned run,
      tiles,
    )
