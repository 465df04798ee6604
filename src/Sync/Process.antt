-- ===== src/Sync/Process.antt =====
-- What a process gives to a partition call (src/sync/scoped/partition): not part of the crate, but
-- for the executor that was registered with it.
use melinoe.Prelude.{ℕ, Option, List}
use melinoe.Sync.Executor.{Registry}

pub record Process (P : Type 0) : Type 0 where
  pub cores : Option ℕ  -- `std::thread::available_parallelism()`
  pub registry : Registry P
  pub threads : ℕ → List ℕ  -- the order in which so many scoped threads take effect
  pub bounds_panic : P  -- the payload of a slice index out of range
