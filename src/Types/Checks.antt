-- ===== src/Types/Checks.antt =====
-- src/static_assertions.rs: the assertions, with the types in place.
use melinoe.Prelude.{ℕ, Bool, true, false, ◌==◌, ◌&&◌, List, [], ◌∷◌}
use melinoe.Token.{exclusive_family, sync_region_family, thread_local_family}
use melinoe.Types.{
  Ty, unit, usize, scalar, array, slice_ref, reference, size_of, align_of, option_size, token,
  shared_read_token, melinoe_cell, guard, writer_shard, branded_atomic,
}

abbrev all_true : List Bool → Bool
all_true [] = true
all_true (b ∷ bs) = b && all_true bs

abbrev u64 : Ty
u64 = scalar 8

abbrev size_is : Ty → ℕ → Bool
size_is t n = size_of t == n

-- A type that has the size and the alignment of another.
abbrev as_laid_out : Ty → Ty → Bool
as_laid_out a b = (size_of a == size_of b) && (align_of a == align_of b)

-- A policy is a type with one value.
abbrev is_policy : Ty → Bool
is_policy t = (size_of t == 0) && (align_of t == 1)

unfoldable pub tokens_are_free : Bool
unfolding size_of token shared_read_token
tokens_are_free = all_true (
    size_is (token exclusive_family) 0
    ∷ size_is shared_read_token 0
    ∷ size_is (token thread_local_family) 0
    ∷ size_is (token sync_region_family) 0
    ∷ [])

unfoldable pub cells_add_nothing : Bool
unfolding size_of align_of melinoe_cell
cells_add_nothing = all_true (
    as_laid_out (melinoe_cell u64) u64
    ∷ size_is (melinoe_cell (array 37 (scalar 1))) 37
    ∷ size_is (melinoe_cell unit) 0
    ∷ [])

unfoldable pub guards_are_references : Bool
unfolding size_of option_size guard writer_shard
guards_are_references = all_true (
    size_is (guard false u64) (size_of (reference false u64))
    ∷ size_is (guard true u64) (size_of (reference true u64))
    ∷ (option_size (guard false u64) == size_of (reference false u64))
    ∷ (option_size (guard true u64) == size_of (reference true u64))
    ∷ size_is (guard false (scalar 1)) (size_of (reference false (scalar 1)))
    ∷ size_is (guard true (scalar 1)) (size_of (reference true (scalar 1)))
    ∷ size_is (writer_shard u64) (size_of (slice_ref true (melinoe_cell u64)))
    ∷ [])

unfoldable pub atomics_add_nothing : Bool
unfolding size_of align_of branded_atomic
atomics_add_nothing = all_true (
    as_laid_out (branded_atomic usize) usize
    ∷ as_laid_out (branded_atomic u64) u64
    ∷ as_laid_out (branded_atomic (scalar 1)) (scalar 1)
    ∷ as_laid_out (branded_atomic (scalar 1)) (scalar 1)
    ∷ as_laid_out (branded_atomic (scalar 2)) (scalar 2)
    ∷ [])

-- The three ordering policies and the two of `Cow`, each a `struct` with no field.
unfoldable pub policies_are_free : Bool
unfolding size_of align_of
policies_are_free =
    all_true
      (is_policy unit ∷ is_policy unit ∷ is_policy unit ∷ is_policy unit ∷ is_policy unit ∷ [])

unfoldable pub static_assertions : Bool
unfolding tokens_are_free cells_add_nothing guards_are_references atomics_add_nothing
    policies_are_free
static_assertions = all_true (
    tokens_are_free ∷ cells_add_nothing ∷ guards_are_references ∷ atomics_add_nothing
    ∷ policies_are_free ∷ [])
