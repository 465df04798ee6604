-- ===== src/Deque/Tiles.antt =====
-- The shards that tile a ring buffer (src/collections/deque/partition.rs), and how they read it.
use melinoe.Prelude.{
  ℕ, zero, suc, ◌+◌, ◌-◌, ◌≤◌, ◌<◌, ◌≡◌, refl, sym, ap, ap₂, ◌∙◌, List, [], ◌∷◌, ◌++◌, length,
  length-append, slice, slice_none, slice-slice_append, map, flatten, min, arith,
}
use melinoe.Machine.{slice_mod}
use melinoe.Deque.{DequeSegment, front, back, DequeShard, pushed}

module _ {ℓ} {A : Type ℓ} where
  pub slice-append_left :
      (xs ys : List A) (b l : ℕ) → b + l ≤ length xs → slice (xs ++ ys) b l ≡ slice xs b l
  slice-append_left [] ys b l h =
      ap₂ (slice ys) (let e : b ≡ 0 = omega arith in e) (let e : l ≡ 0 = omega arith in e)
      ∙ slice_none ys 0
      ∙ sym (ap₂ (slice []) (let e : b ≡ 0 = omega arith in e) (let e : l ≡ 0 = omega arith in e))
  slice-append_left (x ∷ xs) ys zero zero h = refl
  slice-append_left (x ∷ xs) ys zero (suc l) h =
      ap (◌∷◌ x) (slice-append_left xs ys 0 l (omega arith))
  slice-append_left (x ∷ xs) ys (suc b) l h = slice-append_left xs ys b l (omega arith)

  pub slice-append_right :
      (xs ys : List A) (b l : ℕ) → slice (xs ++ ys) (length xs + b) l ≡ slice ys b l
  slice-append_right [] ys b l = ap (λ t. slice ys t l) (let e : 0 + b ≡ b = omega arith in e)
  slice-append_right (x ∷ xs) ys b l =
      ap (λ t. slice (x ∷ (xs ++ ys)) t l)
        (let e : suc (length xs) + b ≡ suc (length xs + b) = omega arith in e)
      ∙ slice-append_right xs ys b l

abbrev pub at_segment : ℕ → ℕ → ℕ → DequeSegment → DequeShard
at_segment start offset len segment = record {
  start = start;
  segment = segment;
  offset = offset;
  len = len;
}

-- A shard lies in its segment, at the logical start that it says.
abbrev pub InSegment : ℕ → ℕ → DequeShard → Type 0
InSegment f b s = elim s.segment [
  | front ↦ (s.start ≡ s.offset) × (s.offset + s.len ≤ f)
  | back ↦ (s.start ≡ f + s.offset) × (s.offset + s.len ≤ b)
]

-- The shards follow one another from the logical position `at` to the end of the queue; each has at
-- least one and at most `c` elements and lies in its segment.
abbrev pub Tiles : ℕ → ℕ → ℕ → ℕ → List DequeShard → Type 0
Tiles f b c at [] = at ≡ f + b
Tiles f b c at (s ∷ ss) =
    (s.start ≡ at) × (1 ≤ s.len) × (s.len ≤ c) × InSegment f b s × Tiles f b c (at + s.len) ss

-- A tiling starts within the queue.
pub Tiles-within : (f b c at : ℕ) (ss : List DequeShard) → Tiles f b c at ss → at ≤ f + b
Tiles-within f b c at [] t = omega (arith, t)
Tiles-within f b c at (s ∷ ss) (at_s, pos, small, seg, rest) =
    let h = Tiles-within f b c (at + s.len) ss rest in omega (arith, h)

-- What an iteration pushes continues the tiling.
pub pushed-Tiles :
    (f b c start : ℕ) (ss : List DequeShard)
    → f + b < slice_mod
    → 1 ≤ c
    → start < f + b
    → Tiles f b c (min (start + c) (f + b)) ss
    → Tiles f b c start (pushed f start (min (start + c) (f + b)) ++ ss)
unfolding pushed
pushed-Tiles f b c start ss h k lt t = ground (arith, t)

module _ {ℓ} {A : Type ℓ} (fr ba : List A) where
  -- What a shard reads.
  abbrev pub values : DequeShard → List A
  values s = elim s.segment [ front ↦ slice fr s.offset s.len | back ↦ slice ba s.offset s.len ]

  segment_slice :
      (start offset len : ℕ) (segment : DequeSegment)
      → InSegment
          (length fr)
          (length ba)
          (record { start = start; segment = segment; offset = offset; len = len })
      → values (record { start = start; segment = segment; offset = offset; len = len })
        ≡ slice (fr ++ ba) start len
  segment_slice start offset len front h = sym (rw h.0 (slice-append_left fr ba offset len h.1))
  segment_slice start offset len back h = sym (rw h.0 (slice-append_right fr ba offset len))

  -- A shard in its segment reads the queue from its logical start.
  pub values-slice :
      (s : DequeShard)
      → InSegment (length fr) (length ba) s
      → values s ≡ slice (fr ++ ba) s.start s.len
  values-slice s h = segment_slice s.start s.offset s.len s.segment h

  -- The shards of a tiling, read in order, are the queue from `at` on.
  pub flatten-values :
      (c at : ℕ) (ss : List DequeShard)
      → Tiles (length fr) (length ba) c at ss
      → flatten (map values ss) ≡ slice (fr ++ ba) at (length (fr ++ ba) - at)
  flatten-values c at [] t = sym (
      ap (slice (fr ++ ba) at)
        (let e : length (fr ++ ba) - at ≡ 0 = omega (arith, length-append fr ba, t) in e)
      ∙ slice_none (fr ++ ba) at)
  flatten-values c at (s ∷ ss) (at_s, pos, small, seg, rest) =
      ap₂ ◌++◌ (values-slice s seg ∙ ap (λ t. slice (fr ++ ba) t s.len) at_s)
        (flatten-values c (at + s.len) ss rest)
      ∙ sym (slice-slice_append (fr ++ ba) at s.len (length (fr ++ ba) - (at + s.len)))
      ∙ ap (slice (fr ++ ba) at) (
          let e : s.len + (length (fr ++ ba) - (at + s.len)) ≡ length (fr ++ ba) - at = omega (
            arith,
            length-append fr ba,
            Tiles-within (length fr) (length ba) c (at + s.len) ss rest,
          ) in
          e)
