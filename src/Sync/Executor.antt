-- ===== src/Sync/Executor.antt =====
-- src/sync/scoped/partition/executor.rs: the seam to an external scheduler.
use melinoe.Prelude.{ℕ, ◌≡◌, Option, none, some, List, [], ◌∷◌}
use melinoe.Prelude.Orders.{IsOrder, IsComplete}

-- What one call of an implementation's `run_indexed` does: the indices in the order in which their
-- tasks take effect, and the payload if it unwinds instead of returning.
pub record Execution (P : Type 0) : Type 0 where
  pub order : List ℕ
  pub unwinds : Option P

-- An implementation of `ParallelExecutor`, which is not part of the crate: its `run_indexed`.
abbrev pub ParallelExecutor : Type 0 → Type 0
ParallelExecutor P = ℕ → Execution P

-- The trait's contract: each index at most once, and every index unless the call unwinds.
pub record Honours {P : Type 0} (n : ℕ) (e : Execution P) : Type 0 where
  pub once : IsOrder n e.order
  pub all : e.unwinds ≡ none → IsComplete n e.order

-- The registrable function pointer.
pub record Executor (P : Type 0) : Type 0 where
  pub call : ParallelExecutor P

-- The static `PARALLEL_EXECUTOR`; null is `none`.
abbrev pub Registry : Type 0 → Type 0
Registry P = Option (Executor P)

-- The tasks of a call take effect one after the other.
unfoldable pub run_tasks {ℓ} : {S : Type ℓ} → (ℕ → S → S) → List ℕ → S → S
run_tasks task [] s = s
run_tasks task (i ∷ is) s = run_tasks task is (task i s)

module _ {P : Type 0} where
  -- The shim forwards its arguments.
  unfoldable pub new : ParallelExecutor P → Executor P
  new e = record { call = e }

  unfoldable pub execute {ℓ} : {S : Type ℓ} → Executor P → ℕ → (ℕ → S → S) → S → S × Option P
  unfolding run_tasks
  execute x num_tasks task s = let e = x.call num_tasks in (run_tasks task e.order s, e.unwinds)

  unfoldable pub register_parallel_executor : ParallelExecutor P → Registry P → Registry P
  unfolding new
  register_parallel_executor e slot = some (new e)

  unfoldable pub clear_parallel_executor : Registry P → Registry P
  clear_parallel_executor slot = none

  unfoldable pub registered_parallel_executor : Registry P → Option (Executor P)
  registered_parallel_executor slot = slot
