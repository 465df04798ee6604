-- ===== src/Region/Tiling.antt =====
-- src/region/tiling.rs: how many shards of a fixed size tile a region.
pub mod Ceiling
use melinoe.Prelude.{ℕ, ◌-◌, ◌/◌, ◌==◌, if◌then◌else◌}
use melinoe.Machine.{add_usize}

-- `chunk` is at least 1 at every call: at 0 the division would panic. `len - 1` runs at `len ≢ 0`.
unfoldable pub partition_count : ℕ → ℕ → ℕ
partition_count len chunk = if len == 0 then 0 else add_usize 1 ((len - 1) / chunk)
