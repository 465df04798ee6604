-- ===== src/Sync/Driver/Panics.antt =====
-- How `drive` (src/sync/scoped/partition/driver_core.rs) unwinds when a task panics, or when the
-- executor's call itself unwinds.
use melinoe.Prelude.{
  ℕ, zero, suc, ◌+◌, ◌-◌, ◌≤◌, ◌<◌, ◌≡◌, sym, ap, ◌∙◌, true, false, Option, none, some, List, [],
  ◌∷◌, tabulate, tabulate_ext, take, take-tabulate, replicate-tabulate, ne→==, arith,
}
use melinoe.Prelude.Orders.{contains, IsOrder, IsComplete, after, after-IsComplete}
use melinoe.Machine.{Outcome, returned, panicked}
use melinoe.Sync.Executor.{Executor, Honours, run_tasks}
use melinoe.Sync.OutBuffer.{task_wrapper}
use melinoe.Sync.Driver.{
  unwound, teardown, conclude, thread, join_all, scope_body, all_ended, close_scope, outcome_at,
  drive,
}
use melinoe.Sync.Driver.Tasks.{
  spent, first_panic, handle_at, buffer_after, task_wrapper_keeps, thread_keeps,
}
use melinoe.Sync.Driver.Ending.{
  fresh-buffer_after, spent_at, teardown-buffer_after, conclude_panicked,
}
use melinoe.Sync.Driver.Results.{outcome_at-tabulate, all_ended-tabulate}

module _ {P R : Type 0} where
  -- The payload of the lowest index from `b` on, of `n` indices, whose task panics.
  abbrev pub lowest_panic : (ℕ → Outcome P R) → ℕ → ℕ → Option P
  lowest_panic out zero b = none
  lowest_panic out (suc n) b = elim (out b) [
    | panicked p ↦ some p
    | returned v ↦ lowest_panic out n (suc b)
  ]

  -- With scoped threads: the payload of the inline task, of index `m`, or that of the lowest index.
  abbrev pub scoped_panic_at : (ℕ → Outcome P R) → ℕ → Option P
  scoped_panic_at out m = elim (out m) [ panicked p ↦ some p | returned v ↦ lowest_panic out m 0 ]

  abbrev pub scoped_panic : (ℕ → Outcome P R) → ℕ → Option P
  scoped_panic out n = scoped_panic_at out (n - 1)

  join_step :
      (o : Outcome P R) (hs : List (Option (Outcome P R))) (lower : Option P) (last : R) (p : P)
      → (elim o [ panicked q ↦ some q | returned v ↦ lower ]) ≡ some p
      → (lower ≡ some p → join_all hs last ≡ unwound p [])
      → join_all (some o ∷ hs) last ≡ unwound p []
  unfolding join_all
  join_step (panicked q) hs lower last p e rest = cc
  join_step (returned v) hs lower last p e rest = rw (rest e, join_all)

  join_all_panicked :
      (out : ℕ → Outcome P R) (n b : ℕ) (hs : ℕ → Option (Outcome P R)) (last : R) (p : P)
      → ((k : ℕ) → b ≤ k → k < b + n → hs k ≡ some (out k))
      → lowest_panic out n b ≡ some p
      → join_all (tabulate n b hs) last ≡ unwound p []
  join_all_panicked out zero b hs last p h e = cc
  join_all_panicked out (suc n) b hs last p h e = rw (h b (omega arith) (omega arith)) (
      join_step (out b) (tabulate n (suc b) hs) (lowest_panic out n (suc b)) last p e
        (join_all_panicked out n (suc b) hs last p (λ k q r. h k (omega arith) (omega arith))))

  close_step :
      (o : Outcome P R) (hs : List (Option (Outcome P R))) (lower : Option P) (p : P)
      → all_ended hs ≡ true
      → (elim o [ panicked q ↦ some q | returned v ↦ lower ]) ≡ some p
      → ((last : R) → lower ≡ some p → join_all hs last ≡ unwound p [])
      → close_scope hs (some o) ≡ unwound p []
  unfolding close_scope scope_body
  close_step (panicked q) hs lower p ended e rest = rw ended cc
  close_step (returned v) hs lower p ended e rest = rw ended (rest v e)

  close_scope_panicked :
      (n : ℕ) (out : ℕ → Outcome P R) (done : List ℕ) (p : P)
      → 1 ≤ n
      → IsComplete n done
      → scoped_panic out n ≡ some p
      → let hs = tabulate n 0 (handle_at out done) in
        close_scope (take (n - 1) hs) (outcome_at hs (n - 1)) ≡ unwound p []
  close_scope_panicked zero out done p h c e = absurd (omega arith)
  close_scope_panicked (suc m) out done p h c e =
      let q : suc m - 1 ≡ m = omega arith in
      let known : handle_at out done m ≡ some (out m) = rw (c m (omega arith)) in
      let handles = handle_at out done in
      let ended : all_ended (tabulate m 0 handles) ≡ true =
        all_ended-tabulate m 0 handles out (λ k _ r. rw (c k (omega arith))) in
      rw
        (
          q,
          outcome_at-tabulate m (handle_at out done),
          known,
          take-tabulate (suc m) m 0 (handle_at out done) (omega arith),
        )
        (close_step (out m) (tabulate m 0 (handle_at out done)) (lowest_panic out m 0) p ended
          (ap (scoped_panic_at out) (sym q) ∙ e)
          (λ last low.
            join_all_panicked out m 0 (handle_at out done) last p (λ k _ r. rw (c k (omega arith)))
              low))

  module _ {ℓ} {S : Type 0} (n : ℕ) (out : ℕ → Outcome P R) (run : ℕ → S → Outcome P R × S)
      (J : List ℕ → S → Type ℓ)
      (step : (done : List ℕ) (i : ℕ) (s : S)
        → i < n
        → contains done i ≡ false
        → J done s
        → ((run i s).0 ≡ out i) × J (i ∷ done) (run i s).1) where
    -- An executor that unwinds with a payload, after any part of its tasks: `drive` unwinds with it,
    -- and the guard has dropped the result of each task that returned, once, and no other slot.
    pub drive_executor_unwinds :
        (x : Executor P) (threads : ℕ → List ℕ) (s : S) (p : P)
        → Honours n (x.call n)
        → (x.call n).unwinds ≡ some p
        → J [] s
        → (s' : S) × (drive (some x) threads n run s
            ≡ (unwound p (tabulate n 0 (spent_at out (after [] (x.call n).order))), s'))
    unfolding drive
    drive_executor_unwinds x threads s p honours e h =
        let order = (x.call n).order in
        let kept = task_wrapper_keeps out n run J step order s honours.once h in
        let last = run_tasks (task_wrapper run) order (buffer_after out n [], s) in
        (
          last.1,
          rw (e, fresh-buffer_after out n)
              (ap (λ r. (r, last.1))
                (ap (teardown p) kept.0 ∙ teardown-buffer_after out n (after [] order) p)),
        )

    -- An executor that returns, when at least one task panicked: `drive` resumes the payload of the
    -- panic that came first; before that it has dropped the result of each task that returned, once,
    -- and no other slot.
    pub drive_executor_panics :
        (x : Executor P) (threads : ℕ → List ℕ) (s : S) (p : P)
        → Honours n (x.call n)
        → (x.call n).unwinds ≡ none
        → first_panic out (after [] (x.call n).order) ≡ some p
        → J [] s
        → (s' : S) × (drive (some x) threads n run s
            ≡ (unwound p (tabulate n 0 (λ i. spent (out i))), s'))
    unfolding drive
    drive_executor_panics x threads s p honours e first h =
        let order = (x.call n).order in
        let kept = task_wrapper_keeps out n run J step order s honours.once h in
        let complete = after-IsComplete n order (honours.all e) in
        let last = run_tasks (task_wrapper run) order (buffer_after out n [], s) in
        (
          last.1,
          rw (e, fresh-buffer_after out n)
              (ap (λ r. (r, last.1))
                (ap conclude kept.0
                  ∙ conclude_panicked out n (after [] order) p first
                  ∙ ap (unwound p) (
                      tabulate_ext n 0 (spent_at out (after [] order)) (λ i. spent (out i))
                        (λ k _ lt. rw (complete k (omega arith), spent_at))))),
        )

    -- At least two tasks on scoped threads that all run, when one panicked: `drive` resumes the
    -- payload of the inline task, the last one, or else that of the lowest index.
    pub drive_threads_panic :
        (threads : ℕ → List ℕ) (s : S) (p : P)
        → 2 ≤ n
        → IsOrder n (threads n)
        → IsComplete n (threads n)
        → scoped_panic out n ≡ some p
        → J [] s
        → (s' : S) × (drive none threads n run s ≡ (unwound p [], s'))
    unfolding drive
    drive_threads_panic threads s p many order all e h =
        let kept = thread_keeps out n run J step (threads n) s order h in
        let complete = after-IsComplete n (threads n) all in
        let last = run_tasks (thread run) (threads n) (tabulate n 0 (handle_at out []), s) in
        (
          last.1,
          rw (ne→== n 1 (omega arith), replicate-tabulate {A = Option (Outcome P R)} n 0 none)
              (ap (λ hs. (close_scope (take (n - 1) hs) (outcome_at hs (n - 1)), last.1)) kept.0
                ∙ ap (λ r. (r, last.1))
                    (close_scope_panicked n out (after [] (threads n)) p (omega arith) complete e)),
        )
