-- ===== src/Types/Sizes.antt =====
-- The sizes and alignments that src/static_assertions.rs asserts, for any payload.
use melinoe.Prelude.{ℕ, ◌+◌, ◌%◌, ◌≤◌, Bool, max, ◌≡◌, refl, arith}
use melinoe.Token.{Family, exclusive_family, sync_region_family, thread_local_family}
use melinoe.Types.{
  Ty, align_of, size_of, has_niche, option_size, token, shared_read_token, melinoe_cell, guard,
  writer_shard, branded_atomic, round_up,
}

-- What the compiler grants of every type.
pub record IsLaidOut (t : Ty) : Type 0 where
  pub align_pos : 1 ≤ align_of t
  pub whole : size_of t % align_of t ≡ 0

abbrev SameLayout : Ty → Ty → Type 0
SameLayout a b = (size_of a ≡ size_of b) × (align_of a ≡ align_of b)

round_up-whole : (n a : ℕ) → n % a ≡ 0 → round_up n a ≡ n
round_up-whole n a h = rw h refl

zero_whole : (a : ℕ) → 1 ≤ a → 0 % a ≡ 0
zero_whole a h = grind arith

-- A field that takes no room, and has alignment 1, before or after another changes no layout.
marked_before : (s a : ℕ) → 1 ≤ a → s % a ≡ 0 → round_up (round_up 0 a + s) (max 1 a) ≡ s
marked_before s a h w =
    let m : max 1 a ≡ a = omega arith in
    let e : 0 + s ≡ s = omega arith in
    rw (round_up-whole 0 a (zero_whole a h), m, e) (round_up-whole s a w)

marked_after : (s a : ℕ) → 1 ≤ a → s % a ≡ 0 → round_up (round_up s 1 + 0) (max a 1) ≡ s
marked_after s a h w =
    let m : max a 1 ≡ a = omega arith in
    let e : s + 0 ≡ s = omega arith in
    rw (round_up-whole s 1 (omega arith), m, e) (round_up-whole s a w)

token_size : (f : Family) → size_of (token f) ≡ 0
unfolding size_of align_of token
token_size exclusive_family = refl
token_size sync_region_family = refl
token_size thread_local_family = refl

-- For any payload: a branded cell and a branded atomic have its size and alignment, a guard has those
-- of a reference with its niche, a shard those of a slice reference, and a token has size 0.
pub layout_kept :
    (t : Ty) (exclusive : Bool) (f : Family)
    → IsLaidOut t
    → SameLayout (melinoe_cell t) t
      × SameLayout (branded_atomic t) t
      × (size_of (guard exclusive t) ≡ 8)
      × (option_size (guard exclusive t) ≡ 8)
      × (size_of (writer_shard t) ≡ 16)
      × (size_of (token f) ≡ 0)
      × (size_of shared_read_token ≡ 0)
unfolding size_of align_of option_size has_niche melinoe_cell branded_atomic guard writer_shard
    token shared_read_token
layout_kept t exclusive f h = (
  (marked_before (size_of t) (align_of t) h.align_pos h.whole, (omega (arith, h.align_pos))),
  (marked_after (size_of t) (align_of t) h.align_pos h.whole, (omega (arith, h.align_pos))),
  refl,
  refl,
  refl,
  token_size f,
  refl,
)
