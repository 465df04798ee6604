-- ===== src/Types.antt =====
-- The types of the crate as the compiler sees them: their fields, which decide on size, alignment and
-- the auto traits `Send` and `Sync`. A lifetime has no part in it.
pub mod Checks
pub mod Markers
pub mod Sizes
use melinoe.Prelude.{ℕ, ◌+◌, ◌-◌, ◌*◌, ◌%◌, Bool, true, false, ◌&&◌, ◌||◌, max, ◌==◌, if◌then◌else◌}
use melinoe.Token.{
  Family, exclusive_family, sync_region_family, thread_local_family, Mode, by_ref, by_mut,
  by_shared,
}

-- `param` is a type that the crate is generic over: its size, its alignment, and whether it is
-- `Send` and `Sync`. A pair has two fields; an `impls` is a type with `unsafe impl`s of `Send` and
-- `Sync`, under conditions that come to the two values.
pub data Ty : Type 0 where
  unit usize fn_pointer : Ty
  scalar : ℕ → Ty
  param : ℕ → ℕ → Bool → Bool → Ty
  array : ℕ → Ty → Ty
  slice_ref : Bool → Ty → Ty
  reference : Bool → Ty → Ty
  raw_pointer phantom unsafe_cell cell : Ty → Ty
  pair : Ty → Ty → Ty
  impls : Bool → Bool → Ty → Ty

unfoldable pub is_sync : Ty → Bool
is_sync unit = true
is_sync usize = true
is_sync fn_pointer = true
is_sync (scalar n) = true
is_sync (param size align send sync) = sync
is_sync (array n t) = is_sync t
is_sync (slice_ref exclusive t) = is_sync t
is_sync (reference exclusive t) = is_sync t
is_sync (raw_pointer t) = false
is_sync (phantom t) = is_sync t
is_sync (unsafe_cell t) = false
is_sync (cell t) = false
is_sync (pair a b) = is_sync a && is_sync b
is_sync (impls send sync t) = sync

-- `&T` is `Send` when `T` is `Sync`.
unfoldable pub is_send : Ty → Bool
unfolding is_sync
is_send unit = true
is_send usize = true
is_send fn_pointer = true
is_send (scalar n) = true
is_send (param size align send sync) = send
is_send (array n t) = is_send t
is_send (slice_ref true t) = is_send t
is_send (slice_ref false t) = is_sync t
is_send (reference true t) = is_send t
is_send (reference false t) = is_sync t
is_send (raw_pointer t) = false
is_send (phantom t) = is_send t
is_send (unsafe_cell t) = is_send t
is_send (cell t) = is_send t
is_send (pair a b) = is_send a && is_send b
is_send (impls send sync t) = send

-- A 64-bit target.
unfoldable pub align_of : Ty → ℕ
align_of unit = 1
align_of usize = 8
align_of fn_pointer = 8
align_of (scalar n) = n
align_of (param size align send sync) = align
align_of (array n t) = align_of t
align_of (slice_ref exclusive t) = 8
align_of (reference exclusive t) = 8
align_of (raw_pointer t) = 8
align_of (phantom t) = 1
align_of (unsafe_cell t) = align_of t
align_of (cell t) = align_of t
align_of (pair a b) = max (align_of a) (align_of b)
align_of (impls send sync t) = align_of t

abbrev pub round_up : ℕ → ℕ → ℕ
round_up n align = if n % align == 0 then n else n + (align - n % align)

-- The fields of a pair lie one after the other, each at a multiple of its alignment.
unfoldable pub size_of : Ty → ℕ
unfolding align_of
size_of unit = 0
size_of usize = 8
size_of fn_pointer = 8
size_of (scalar n) = n
size_of (param size align send sync) = size
size_of (array n t) = n * size_of t
size_of (slice_ref exclusive t) = 16
size_of (reference exclusive t) = 8
size_of (raw_pointer t) = 8
size_of (phantom t) = 0
size_of (unsafe_cell t) = size_of t
size_of (cell t) = size_of t
size_of (pair a b) =
    round_up (round_up (size_of a) (align_of b) + size_of b) (max (align_of a) (align_of b))
size_of (impls send sync t) = size_of t

-- Is there a value that no instance has, so that `Option` needs no room of its own?
unfoldable pub has_niche : Ty → Bool
has_niche unit = false
has_niche usize = false
has_niche fn_pointer = true
has_niche (scalar n) = false
has_niche (param size align send sync) = false
has_niche (array n t) = false
has_niche (slice_ref exclusive t) = true
has_niche (reference exclusive t) = true
has_niche (raw_pointer t) = false
has_niche (phantom t) = false
has_niche (unsafe_cell t) = false
has_niche (cell t) = false
has_niche (pair a b) = has_niche a || has_niche b
has_niche (impls send sync t) = has_niche t

unfoldable pub option_size : Ty → ℕ
unfolding size_of has_niche
option_size t = if has_niche t then size_of t else size_of t + align_of t

-- `InvariantLifetime`, `BorrowWindow` and `BrandMarker`
unfoldable pub invariant_lifetime : Ty
invariant_lifetime = phantom fn_pointer

unfoldable pub borrow_window : Ty
borrow_window = phantom (reference false unit)

unfoldable pub brand_marker : Ty → Ty
unfolding invariant_lifetime
brand_marker extra = pair invariant_lifetime extra

-- `marker_extra:` of each family, and the token that the macro makes of it.
abbrev pub marker_extra : Family → Ty
marker_extra exclusive_family = unit
marker_extra sync_region_family = unit
marker_extra thread_local_family = phantom (raw_pointer unit)

unfoldable pub token : Family → Ty
unfolding brand_marker
token family = brand_marker (marker_extra family)

unfoldable pub shared_read_token : Ty
unfolding brand_marker borrow_window
shared_read_token = brand_marker borrow_window

-- What carries a permit of a family's token.
unfoldable pub carrier : Family → Mode → Ty
unfolding token shared_read_token
carrier family by_ref = reference false (token family)
carrier family by_mut = reference true (token family)
carrier family by_shared = shared_read_token

unfoldable pub melinoe_cell : Ty → Ty
unfolding is_send is_sync invariant_lifetime
melinoe_cell t =
    impls (is_send t) (is_send t && is_sync t) (pair invariant_lifetime (unsafe_cell t))

-- `MelinoeRef` and `MelinoeMut`
unfoldable pub guard : Bool → Ty → Ty
unfolding invariant_lifetime
guard exclusive t = pair (reference exclusive t) invariant_lifetime

unfoldable pub writer_shard : Ty → Ty
unfolding melinoe_cell
writer_shard t = slice_ref true (melinoe_cell t)

unfoldable pub par_chunks : Ty → Ty
unfolding melinoe_cell
par_chunks t = impls (is_send t) (is_send t) (
    pair (raw_pointer (melinoe_cell t))
      (pair usize (pair usize (phantom (slice_ref true (melinoe_cell t))))))

unfoldable pub branded_atomic : Ty → Ty
unfolding invariant_lifetime
branded_atomic a = pair a invariant_lifetime

unfoldable pub reentrancy_cell : Ty
reentrancy_cell = cell (scalar 1)

-- It is `Send` by an `unsafe impl`; `Sync` is left to its fields.
unfoldable pub guarded_cell : Ty → Ty
unfolding is_send is_sync
guarded_cell t =
    let fields = pair (cell (scalar 1)) (unsafe_cell t) in impls (is_send t) (is_sync fields) fields
