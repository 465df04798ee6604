-- ===== src/Sync/Interleave/Scoped/Joined.antt =====
-- Scoped threads, their steps in any order (src/sync/scoped/partition/driver_core.rs).
use melinoe.Prelude.{
  ℕ, ◌*◌, ◌≤◌, ◌<◌, ◌≡◌, refl, sym, ap, ap₂, ◌∙◌, false, none, Option, List, [], ◌∷◌, All, flatten,
  tabulate, overwrite, replicate, replicate-tabulate, ◌==◌, arith,
}
use mathlib.Core.Path.{subst}
use melinoe.Prelude.Orders.{IsOrder, IsComplete, reversed}
use melinoe.Machine.{Outcome, usize_mod, mul_usize}
use melinoe.Region.Shard.{WriterShard, Disjoint, as_slice}
use melinoe.Region.ParChunks.{count, get_unchecked_chunk, par_chunks}
use melinoe.Region.ParChunks.Tile.{InMemory}
use melinoe.Sync.Executor.{run_tasks}
use melinoe.Sync.Driver.{results, thread, drive}
use melinoe.Sync.Driver.Tasks.{handle_at, thread_keeps}
use melinoe.Sync.Map.Confined.{on_slice, chunk_of, Progress-start}
use melinoe.Sync.Map.Correct.{calm, driven}
use melinoe.Sync.Interleave.{Work, over, complete}
use melinoe.Sync.Interleave.Threads.{outcome_of}
use melinoe.Sync.Interleave.Ended.{
  start-Along, ended_stage, serial, ProgressHere, serial-Progress, same_end,
}
use melinoe.Sync.Interleave.Scoped.{Scope, step, interleave_threads, spawn_all, join}
use melinoe.Sync.Interleave.Scoped.Handles.{ScopeAlong, step-ScopeAlong}

-- `drive` without an executor, for more than one chunk.
drive-join :
    {P R S : Type 0} (order : List ℕ) (n : ℕ) (run : ℕ → S → Outcome P R × S) (s : S)
    → (n == 1) ≡ false
    → drive none (λ _. order) n run s
      ≡ (let (hs, s') = run_tasks (thread run) order (replicate n none, s) in (join n hs, s'))
unfolding drive join
drive-join order n run s many = rw many refl

not_one : (n : ℕ) → 2 ≤ n → (n == 1) ≡ false
not_one n h = ground arith

module _ {P A R : Type 0} (w : WriterShard) (c : ℕ) (m : InMemory w) (k : 1 ≤ c)
    (fits : c < usize_mod) (work : ℕ → Work P A R) (mem : List A) where
  abbrev n : ℕ
  n = count (par_chunks w c)

  abbrev given : ℕ → List A
  given i = chunk_of (as_slice mem w) c i

  abbrev work_at : ℕ → Work P A R
  work_at i = work (mul_usize i c)

  abbrev serial_run : ℕ → List A → Outcome P R × List A
  serial_run = serial w c m k fits work mem

  abbrev out : ℕ → Outcome P R
  out = outcome_of w c m fits work_at given

  spawn_all-ScopeAlong : ScopeAlong w c m fits work_at given mem [] (spawn_all n work_at mem)
  unfolding spawn_all
  spawn_all-ScopeAlong =
      (start-Along w c m k fits work mem, replicate-tabulate {A = Option (Outcome P R)} n 0 none)

  interleave_threads-ScopeAlong :
      (schedule done : List ℕ) (s : Scope P A R)
      → All (λ i. i < n) schedule
      → ScopeAlong w c m fits work_at given mem done s
      → (more : List ℕ) × ScopeAlong w c m fits work_at given mem more
          (interleave_threads (par_chunks w c) schedule s)
  unfolding interleave_threads
  interleave_threads-ScopeAlong [] done s below a = (done, a)
  interleave_threads-ScopeAlong (i ∷ is) done s below a =
      let (more, b) = step-ScopeAlong w c m fits work_at given mem done i s below.0 a in
      interleave_threads-ScopeAlong is more (step (par_chunks w c) i s) below.1 b

  -- Once every scoped thread has ended, however their steps interleaved, the handles and the whole
  -- memory are what the threads leave that take effect one after the other in some order.
  pub interleave_threads-thread :
      (schedule : List ℕ)
      → All (λ i. i < n) schedule
      → let s = interleave_threads (par_chunks w c) schedule (spawn_all n work_at mem) in
        ((i : ℕ) → i < n → s.phases i ≡ over)
        → (order : List ℕ) × IsOrder n order
          × IsComplete n order
          × ((s.handles, s.memory) ≡ run_tasks (thread serial_run) order (replicate n none, mem))
  interleave_threads-thread schedule below all =
      let s = interleave_threads (par_chunks w c) schedule (spawn_all n work_at mem) in
      let (done, a) =
        interleave_threads-ScopeAlong schedule [] (spawn_all n work_at mem) below
          spawn_all-ScopeAlong in
      let (order, is_order, complete_order, back) =
        reversed n done a.0.order
          (λ i h. (ended_stage w c m k fits work mem done s.phases s.memory i a.0 h (all i h)).0) in
      let (b, p) =
        thread_keeps out n serial_run (ProgressHere w c m k fits work mem)
          (serial-Progress w c m k fits work mem) order mem is_order
          (Progress-start w c m k fits (λ s. complete (work s)) mem) in
      let last = run_tasks (thread serial_run) order (tabulate n 0 (handle_at out []), mem) in
      let q = subst (λ d. ProgressHere w c m k fits work mem d last.1) back p in
      (
        order,
        is_order,
        complete_order,
        ap₂ (λ x y. (x, y)) (a.1 ∙ sym (b ∙ ap (λ d. tabulate n 0 (handle_at out d)) back))
              (same_end w c m k fits work mem done s.phases s.memory last.1 a.0 q all)
            ∙ ap (λ x. run_tasks (thread serial_run) order (x, mem))
                (sym (replicate-tabulate {A = Option (Outcome P R)} n 0 none)),
      )

  -- For closures that come to `f` on the values of their shard and do not panic, and at least two
  -- shards: however the steps of the scoped threads interleave, once every one has ended the scope
  -- gives the results in index order, the region holds the shards' new values in index order, and any
  -- other stretch of memory what it held before.
  pub interleave_threads_results :
      (schedule : List ℕ) (f : ℕ → List A → R × List A) (v : WriterShard)
      → All (λ i. i < n) schedule
      → ((first : ℕ) (xs : List A) → complete (work first) xs ≡ calm f first xs)
      → 2 ≤ n
      → Disjoint w.cells v.cells
      → let s = interleave_threads (par_chunks w c) schedule (spawn_all n work_at mem) in
        ((i : ℕ) → i < n → s.phases i ≡ over)
        → (join n s.handles ≡ results (tabulate n 0 (λ i. (f (i * c) (given i)).0)))
          × (as_slice s.memory w
              ≡ flatten (tabulate n 0 (λ i. overwrite (given i) (f (i * c) (given i)).1)))
          × (as_slice s.memory v ≡ as_slice mem v)
  interleave_threads_results schedule f v below h many d all =
      let (order, is_order, complete_order, same) = interleave_threads-thread schedule below all in
      let (mem', ran, done) =
        driven none (λ _. order) w c m k fits f mem (omega arith) (is_order, complete_order) in
      let calls : serial_run ≡ (λ index now.
        on_slice (calm f) (mul_usize index c) (get_unchecked_chunk (par_chunks w c) index) now) =
        λ t index now.
          on_slice (λ first xs. h first xs t) (mul_usize index c)
            (get_unchecked_chunk (par_chunks w c) index) now in
      let closed =
        ap (λ st. (join n st.0, st.1)) same
        ∙ sym (drive-join order n serial_run mem (not_one n many))
        ∙ ap (λ run. drive none (λ _. order) n run mem) calls
        ∙ ran in
      let now = ap (λ r. r.1) closed in
      (
        ap (λ r. r.0) closed,
        ap (λ z. as_slice z w) now ∙ done.0,
        ap (λ z. as_slice z v) now ∙ done.1 v d,
      )
