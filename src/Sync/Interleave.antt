-- ===== src/Sync/Interleave.antt =====
-- src/sync/scoped/partition/driver_core.rs: the tasks of a registered executor's call as threads
-- whose single steps interleave in any order.
mod Threads
mod Moves
mod Fills
mod Ended
pub mod Serial
pub mod Results
pub mod Torn
pub mod Scoped
use melinoe.Prelude.{ℕ, ◌==◌, Bool, true, List, [], ◌∷◌, set, overwrite, if◌then◌else◌}
use melinoe.Machine.{Outcome, returned, panicked}
use melinoe.Region.Shard.{WriterShard, as_mut_slice}
use melinoe.Region.ParChunks.{ParChunks, get_unchecked_chunk}
use melinoe.Sync.OutBuffer.{Buffer, init, fresh, settle}

-- What is left of a closure on a shard: it ends, or its next step reads and overwrites values of the
-- shard, and what it read decides how it goes on.
pub data Work (P A R : Type 0) : Type 0 where
  finish : Outcome P R → Work P A R
  access : (List A → List A) → (List A → Work P A R) → Work P A R

-- How far `task_wrapper` has come with a task.
pub data Phase (P A R : Type 0) : Type 0 where
  running : Work P A R → Phase P A R
  written over : Phase P A R

pub record Pool (P A R : Type 0) : Type 0 where
  pub phases : ℕ → Phase P A R
  pub buffer : Buffer P R
  pub memory : List A

module _ {P A R : Type 0} where
  -- A closure that nothing interrupts.
  unfoldable pub complete : Work P A R → List A → Outcome P R × List A
  complete (finish o) xs = (o, xs)
  complete (access change next) xs = complete (next xs) (overwrite xs (change xs))

  -- The next step of `task_wrapper` for task `index`: a step of the closure, the write of the slot,
  -- the flag after it, or the locked look at the first payload.
  unfoldable pub task_step :
      ℕ → WriterShard → Phase P A R → Buffer P R → List A → Phase P A R × Buffer P R × List A
  unfolding settle
  task_step index shard (running (access change next)) b mem =
      let (seen, mem') = as_mut_slice shard (λ xs. (xs, change xs)) mem in
      (running (next seen), b, mem')
  task_step index shard (running (finish (returned val))) b mem =
      (written, record b { slots = set b.slots index (init val) }, mem)
  task_step index shard (running (finish (panicked payload))) b mem =
      (over, settle index (panicked payload) b, mem)
  task_step index shard written b mem =
      (over, record b { successful = set b.successful index true }, mem)
  task_step index shard over b mem = (over, b, mem)

  abbrev pub set_phase : (ℕ → Phase P A R) → ℕ → Phase P A R → ℕ → Phase P A R
  set_phase phases i phase j = if i == j then phase else phases j

  -- The thread that runs task `i` makes a step.
  unfoldable pub step : ParChunks → ℕ → Pool P A R → Pool P A R
  unfolding task_step
  step par i s =
      let (phase, b, mem) =
        task_step i (get_unchecked_chunk par i) (s.phases i) s.buffer s.memory in
      record { phases = set_phase s.phases i phase; buffer = b; memory = mem }

  -- An explicit order of all the steps.
  unfoldable pub interleave : ParChunks → List ℕ → Pool P A R → Pool P A R
  unfolding step
  interleave par [] s = s
  interleave par (i ∷ is) s = interleave par is (step par i s)

  -- Before the first step.
  unfoldable pub start : ℕ → (ℕ → Work P A R) → List A → Pool P A R
  unfolding fresh
  start num_chunks work mem = record {
    phases = λ i. running (work i);
    buffer = fresh num_chunks;
    memory = mem;
  }
