-- ===== src/Sync/Interleave/Scoped.antt =====
-- src/sync/scoped/partition/driver_core.rs: the tasks of `drive` on scoped threads, whose single steps
-- interleave in any order. The task that runs inline is one of them.
mod Handles
pub mod Joined
use melinoe.Prelude.{ℕ, ◌-◌, Option, none, some, List, [], ◌∷◌, set, take, replicate}
use melinoe.Machine.{Outcome}
use melinoe.Region.Shard.{WriterShard, as_mut_slice}
use melinoe.Region.ParChunks.{ParChunks, get_unchecked_chunk}
use melinoe.Sync.Driver.{Ended, close_scope, outcome_at}
use melinoe.Sync.Interleave.{Work, finish, access, Phase, running, written, over, set_phase}

-- `handles` are what the threads have left for their `join`.
pub record Scope (P A R : Type 0) : Type 0 where
  pub phases : ℕ → Phase P A R
  pub handles : List (Option (Outcome P R))
  pub memory : List A

module _ {P A R : Type 0} where
  -- The next step of the thread of task `index`: one of its closure, or its end. It has no slot to
  -- write, so that it is never `written`.
  unfoldable pub thread_step :
      ℕ
      → WriterShard
      → Phase P A R
      → List (Option (Outcome P R))
      → List A
      → Phase P A R × List (Option (Outcome P R)) × List A
  thread_step index shard (running (access change next)) hs mem =
      let (seen, mem') = as_mut_slice shard (λ xs. (xs, change xs)) mem in
      (running (next seen), hs, mem')
  thread_step index shard (running (finish result)) hs mem = (over, set hs index (some result), mem)
  thread_step index shard written hs mem = (over, hs, mem)
  thread_step index shard over hs mem = (over, hs, mem)

  unfoldable pub step : ParChunks → ℕ → Scope P A R → Scope P A R
  unfolding thread_step
  step par i s =
      let (phase, hs, mem) =
        thread_step i (get_unchecked_chunk par i) (s.phases i) s.handles s.memory in
      record { phases = set_phase s.phases i phase; handles = hs; memory = mem }

  unfoldable pub interleave_threads : ParChunks → List ℕ → Scope P A R → Scope P A R
  unfolding step
  interleave_threads par [] s = s
  interleave_threads par (i ∷ is) s = interleave_threads par is (step par i s)

  -- Before the first step of the spawned threads.
  unfoldable pub spawn_all : ℕ → (ℕ → Work P A R) → List A → Scope P A R
  spawn_all num_chunks work mem = record {
    phases = λ i. running (work i);
    handles = replicate num_chunks none;
    memory = mem;
  }

-- The end of the scope, for its handles.
unfoldable pub join : {P R : Type 0} → ℕ → List (Option (Outcome P R)) → Ended P R
unfolding close_scope
join num_chunks hs = close_scope (take (num_chunks - 1) hs) (outcome_at hs (num_chunks - 1))
