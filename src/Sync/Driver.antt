-- ===== src/Sync/Driver.antt =====
-- src/sync/scoped/partition/driver_core.rs: `drive` runs the tasks of a partition, on a registered
-- executor or on scoped threads, and gives their results in index order.
pub mod Tasks
pub mod Ending
pub mod Results
pub mod Panics
use mathlib.Core.Option
use melinoe.Prelude.{
  ℕ, zero, suc, ◌-◌, Bool, true, false, Option, none, some, List, [], ◌∷◌, ◌++◌, replicate, set,
  get_elem?, take, ◌==◌, if◌then◌else◌,
}
use melinoe.Machine.{Outcome, returned, panicked}
use melinoe.Sync.Executor.{Executor, Registry, registered_parallel_executor, execute, run_tasks}
use melinoe.Sync.OutBuffer.{
  Slot, Buffer, fresh, take_panic_payload, task_wrapper, drop_successful, from_raw_parts,
}

-- How a call of `drive` ends. With an executor an unwinding call shows what its teardown leaves in
-- the out-buffer, whose memory it frees.
pub data Ended (P R : Type 0) : Type 0 where
  results : List R → Ended P R
  unwound : P → List (Slot R) → Ended P R
  blocked : Ended P R
  undefined_behaviour : Ended P R

module _ {P R : Type 0} where
  -- `Drop for ExecutorDropGuard` while it is active, when the executor's call unwinds with `p`, and
  -- the same teardown in `drive` before it resumes the payload of a task.
  unfoldable pub teardown : P → Buffer P R → Ended P R
  teardown p b = elim (drop_successful b.successful b.slots) [
    | none ↦ undefined_behaviour
    | some slots ↦ unwound p slots
  ]

  -- `drive` after the executor has returned.
  unfoldable pub conclude : Buffer P R → Ended P R
  unfolding teardown
  conclude b = elim (take_panic_payload b.panic_payload) [
    | some payload ↦ teardown payload b
    | none ↦ elim (from_raw_parts b.slots) [ none ↦ undefined_behaviour | some rs ↦ results rs ]
  ]

  -- One scoped thread: its outcome is kept for its `join`.
  unfoldable pub thread :
      {S : Type 0}
      → (ℕ → S → Outcome P R × S)
      → ℕ
      → List (Option (Outcome P R)) × S
      → List (Option (Outcome P R)) × S
  thread run index (handles, s) =
      let (result, s') = run index s in (set handles index (some result), s')

  -- `join` of the handles in index order; the first payload is resumed. A thread that never ends
  -- blocks its `join`.
  unfoldable pub join_all : List (Option (Outcome P R)) → R → Ended P R
  join_all [] last = results (last ∷ [])
  join_all (none ∷ hs) last = blocked
  join_all (some (panicked payload) ∷ hs) last = unwound payload []
  join_all (some (returned value) ∷ hs) last = elim (join_all hs last) [
    | results rs ↦ results (value ∷ rs)
    | unwound p slots ↦ unwound p slots
    | blocked ↦ blocked
    | undefined_behaviour ↦ undefined_behaviour
  ]

  -- Whether every spawned thread has ended.
  abbrev pub all_ended : List (Option (Outcome P R)) → Bool
  all_ended [] = true
  all_ended (none ∷ hs) = false
  all_ended (some o ∷ hs) = all_ended hs

  -- The closure of the scope after the spawned threads: the task run inline, then the `join`s.
  unfoldable pub scope_body : List (Option (Outcome P R)) → Option (Outcome P R) → Ended P R
  unfolding join_all
  scope_body handles none = blocked
  scope_body handles (some (panicked payload)) = unwound payload []
  scope_body handles (some (returned last)) = join_all handles last

  -- The end of the scope: also when its closure unwinds it waits for every spawned thread.
  unfoldable pub close_scope : List (Option (Outcome P R)) → Option (Outcome P R) → Ended P R
  unfolding scope_body
  close_scope handles result = if all_ended handles then scope_body handles result else blocked

  unfoldable pub inline : Outcome P R → Ended P R
  inline (returned value) = results (value ∷ [])
  inline (panicked payload) = unwound payload []

  -- What the thread of an index came to, if it has ended.
  abbrev pub outcome_at : List (Option (Outcome P R)) → ℕ → Option (Outcome P R)
  outcome_at handles index = elim (get_elem? handles index) [ none ↦ none | some o ↦ o ]

  -- `drive`, for at least one chunk. `threads` is the order in which the operating system lets the
  -- closures of the scoped threads take effect, that of the inline task included.
  unfoldable pub drive :
      {S : Type 0} → Registry P → (ℕ → List ℕ) → ℕ → (ℕ → S → Outcome P R × S) → S → Ended P R × S
  unfolding conclude thread close_scope inline execute run_tasks task_wrapper
      registered_parallel_executor
  drive registry threads num_chunks run s = elim (registered_parallel_executor registry) [
    | some executor ↦
        let ((b, s'), unwinds) =
          execute executor num_chunks (task_wrapper run) (fresh num_chunks, s) in
        (elim unwinds [ some p ↦ teardown p b | none ↦ conclude b ], s')
    | none ↦
        if num_chunks == 1
        then (let (o, s') = run 0 s in (inline o, s'))
        else (let (handles, s') =
              run_tasks (thread run) (threads num_chunks) (replicate num_chunks none, s) in
            (close_scope (take (num_chunks - 1) handles) (outcome_at handles (num_chunks - 1)), s'))
  ]
