-- ===== src/Sync/Interleave/Serial.antt =====
-- Interleaved tasks of a registered executor's call against tasks that take effect one after the other
-- (src/sync/scoped/partition/driver_core.rs).
use melinoe.Prelude.{
  ℕ, ◌≤◌, ◌<◌, ◌≡◌, refl, sym, ap, ap₂, ◌∙◌, List, [], ◌∷◌, All, replicate-tabulate, tabulate_ext,
  arith,
}
use melinoe.Prelude.Orders.{IsOrder, IsComplete, reversed}
use mathlib.Core.Path.{subst}
use melinoe.Machine.{Outcome, usize_mod, mul_usize}
use melinoe.Region.Shard.{WriterShard, as_slice}
use melinoe.Region.ParChunks.{count, par_chunks}
use melinoe.Region.ParChunks.Tile.{InMemory}
use melinoe.Sync.Executor.{run_tasks}
use melinoe.Sync.OutBuffer.{uninit, fresh, task_wrapper}
use melinoe.Sync.Driver.Tasks.{buffer_after, flag_at, task_wrapper_keeps}
use melinoe.Sync.Driver.Ending.{fresh-buffer_after}
use melinoe.Sync.Map.Confined.{chunk_of, Progress-start}
use melinoe.Sync.Interleave.{Work, over, Pool, complete, step, interleave, start}
use melinoe.Sync.Interleave.Fills.{PoolAlong, step-Along}
use melinoe.Sync.Interleave.Ended.{
  start-Along, ended_stage, serial, ProgressHere, serial-Progress, same_end,
}
use melinoe.Sync.Interleave.Threads.{flagged, outcome_of}

module _ {P A R : Type 0} (w : WriterShard) (c : ℕ) (m : InMemory w) (k : 1 ≤ c)
    (fits : c < usize_mod) (work : ℕ → Work P A R) (mem : List A) where
  abbrev n : ℕ
  n = count (par_chunks w c)

  abbrev given : ℕ → List A
  given i = chunk_of (as_slice mem w) c i

  abbrev work_at : ℕ → Work P A R
  work_at i = work (mul_usize i c)

  pub start_PoolAlong : PoolAlong w c m fits work_at given mem [] (start n work_at mem)
  unfolding start fresh
  start_PoolAlong = (
    start-Along w c m k fits work mem,
    record {
      slots = replicate-tabulate n 0 uninit;
      flags = replicate-tabulate n 0 _;
      payload = refl;
    },
  )

  pub interleave-Along :
      (schedule done : List ℕ) (s : Pool P A R)
      → All (λ i. i < n) schedule
      → PoolAlong w c m fits work_at given mem done s
      → (more : List ℕ) × PoolAlong w c m fits work_at given mem more
          (interleave (par_chunks w c) schedule s)
  unfolding interleave
  interleave-Along [] done s below a = (done, a)
  interleave-Along (i ∷ is) done s below a =
      let (more, b) = step-Along w c m fits work_at given mem done i s below.0 a in
      interleave-Along is more (step (par_chunks w c) i s) below.1 b

  ended_buffer :
      (done : List ℕ) (s : Pool P A R)
      → PoolAlong w c m fits work_at given mem done s
      → ((i : ℕ) → i < n → s.phases i ≡ over)
      → s.buffer ≡ buffer_after (outcome_of w c m fits work_at given) n done
  ended_buffer done s a all =
      let flags =
        a.1.flags
        ∙ tabulate_ext n 0 (flagged w c m fits work_at given s.phases)
            (flag_at (outcome_of w c m fits work_at given) done)
            (λ i _ h.
              let lt : i < n = omega arith in
              rw
                (
                  all i lt,
                  (ended_stage w c m k fits work mem done s.phases s.memory i a.0 lt (all i lt)).0,
                )
                refl) in
      λ t. record { slots = a.1.slots t; successful = flags t; panic_payload = a.1.payload t }

  abbrev pub serial_run : ℕ → List A → Outcome P R × List A
  serial_run = serial w c m k fits work mem

  -- Threads interleave the steps of the tasks of a partition in any way: each step of a closure on
  -- its shard, the write of a slot, its flag and the locked look at the first payload. Once every
  -- task is over, the out-buffer (slots, flags and the first payload) and the whole memory are what
  -- the tasks leave that take effect one after the other, each of them once, in some order.
  pub interleave-task_wrapper :
      (schedule : List ℕ)
      → All (λ i. i < n) schedule
      → let s = interleave (par_chunks w c) schedule (start n work_at mem) in
        ((i : ℕ) → i < n → s.phases i ≡ over)
        → (order : List ℕ) × IsOrder n order
          × IsComplete n order
          × ((s.buffer, s.memory) ≡ run_tasks (task_wrapper serial_run) order (fresh n, mem))
  interleave-task_wrapper schedule below all =
      let s = interleave (par_chunks w c) schedule (start n work_at mem) in
      let (done, a) = interleave-Along schedule [] (start n work_at mem) below start_PoolAlong in
      let out = outcome_of w c m fits work_at given in
      let (order, is_order, complete_order, back) =
        reversed n done a.0.order
          (λ i h. (ended_stage w c m k fits work mem done s.phases s.memory i a.0 h (all i h)).0) in
      let (b, p) =
        task_wrapper_keeps out n serial_run (ProgressHere w c m k fits work mem)
          (serial-Progress w c m k fits work mem) order mem is_order
          (Progress-start w c m k fits (λ s. complete (work s)) mem) in
      let last = run_tasks (task_wrapper serial_run) order (buffer_after out n [], mem) in
      let q = subst (λ d. ProgressHere w c m k fits work mem d last.1) back p in
      (
        order,
        is_order,
        complete_order,
        ap₂ (λ x y. (x, y)) (ended_buffer done s a all ∙ sym (b ∙ ap (buffer_after out n) back))
              (same_end w c m k fits work mem done s.phases s.memory last.1 a.0 q all)
            ∙ ap (λ x. run_tasks (task_wrapper serial_run) order (x, mem))
                (sym (fresh-buffer_after out n)),
      )
