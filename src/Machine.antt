-- ===== src/Machine.antt =====
-- The machine that the crate runs on: `usize` arithmetic of a 64-bit target, and code that may panic.
use melinoe.Prelude.{ℕ, ◌+◌, ◌-◌, ◌*◌, ◌%◌, ◌^◌}

-- The number of `usize` values.
abbrev pub usize_mod : ℕ
usize_mod = 2 ^ 64

-- A slice of values that take space has fewer entries than this (`isize::MAX` bytes at most).
abbrev pub slice_mod : ℕ
slice_mod = 2 ^ 63

-- `a + b`, `a * b` and `a - b` on `usize` as a release build computes them.
abbrev pub add_usize : ℕ → ℕ → ℕ
add_usize a b = (a + b) % usize_mod

abbrev pub mul_usize : ℕ → ℕ → ℕ
mul_usize a b = (a * b) % usize_mod

abbrev pub sub_usize : ℕ → ℕ → ℕ
sub_usize a b = (a + usize_mod - b) % usize_mod

-- What a call comes to: it returns, or it unwinds with a panic's payload.
pub data Outcome {ℓ κ} (P : Type ℓ) (R : Type κ) : Type (ℓ ⊔ κ) where
  returned : R → Outcome P R
  panicked : P → Outcome P R
