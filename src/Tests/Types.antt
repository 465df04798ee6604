-- ===== src/Tests/Types.antt =====
-- The types of the crate with payloads in place.
use melinoe.Prelude.{◌≡◌, refl, true, false, arith}
use melinoe.Token.{thread_local_family}
use melinoe.Types.{
  Ty, scalar, is_sync, size_of, align_of, option_size, token, shared_read_token, melinoe_cell,
  branded_atomic, guard, writer_shard, par_chunks, param,
}
use melinoe.Types.Checks.{static_assertions}
use melinoe.Types.Sizes.{IsLaidOut, layout_kept}

static_assertions_run : static_assertions ≡ true
unfolding static_assertions
static_assertions_run = refl

abbrev word : Ty
word = scalar 8

word-IsLaidOut : IsLaidOut word
unfolding align_of size_of
word-IsLaidOut = record { align_pos = omega arith; whole = refl }

layout_kept_example :
    ((size_of (melinoe_cell word) ≡ size_of word) × (align_of (melinoe_cell word) ≡ align_of word))
    × ((size_of (branded_atomic word) ≡ size_of word)
        × (align_of (branded_atomic word) ≡ align_of word))
    × (size_of (guard true word) ≡ 8)
    × (option_size (guard true word) ≡ 8)
    × (size_of (writer_shard word) ≡ 16)
    × (size_of (token thread_local_family) ≡ 0)
    × (size_of shared_read_token ≡ 0)
layout_kept_example = layout_kept word true thread_local_family word-IsLaidOut

-- A type such as `Cell<u32>`, which may be sent and not shared: its `ParChunks` may be shared between
-- threads and its `WriterShard` may not.
abbrev unshared : Ty
unshared = param 4 4 true false

unshared_shards : (is_sync (par_chunks unshared) ≡ true) × (is_sync (writer_shard unshared) ≡ false)
unfolding is_sync par_chunks writer_shard
unshared_shards = (refl, refl)
