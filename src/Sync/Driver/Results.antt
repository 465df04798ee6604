-- ===== src/Sync/Driver/Results.antt =====
-- What `drive` (src/sync/scoped/partition/driver_core.rs) returns when no task panics.
use melinoe.Prelude.{
  ℕ, zero, suc, ◌+◌, ◌-◌, ◌≤◌, ◌<◌, ◌≡◌, refl, ap, ◌∙◌, inl, inr, true, false, Option, none, some,
  List, [], ◌∷◌, ◌++◌, tabulate, tabulate-snoc, take, take-tabulate, get_elem?-tabulate,
  replicate-tabulate, Bool-cases, ◌==◌, ==→eq, arith,
}
use melinoe.Prelude.Orders.{contains, IsOrder, IsComplete, after, after-IsComplete}
use melinoe.Machine.{Outcome, returned}
use melinoe.Sync.Executor.{Executor, Honours, Registry, run_tasks}
use melinoe.Sync.OutBuffer.{task_wrapper}
use melinoe.Sync.Driver.{
  results, conclude, thread, join_all, all_ended, scope_body, close_scope, outcome_at, drive,
}
use melinoe.Sync.Driver.Tasks.{
  all_return, handle_at, buffer_after, task_wrapper_keeps, thread_keeps,
}
use melinoe.Sync.Driver.Ending.{fresh-buffer_after, conclude_returned}

-- Every task takes effect once and the driver comes back: a registered executor that honours its
-- contract and does not unwind, or scoped threads that all run.
abbrev pub RunsAll : {P : Type 0} → Registry P → (ℕ → List ℕ) → ℕ → Type 0
RunsAll none threads n = IsOrder n (threads n) × IsComplete n (threads n)
RunsAll (some x) threads n = Honours n (x.call n) × ((x.call n).unwinds ≡ none)

module _ {P R : Type 0} where
  join_all_returned :
      (n b : ℕ) (out : ℕ → Option (Outcome P R)) (val : ℕ → R) (last : R)
      → ((k : ℕ) → b ≤ k → k < b + n → out k ≡ some (returned (val k)))
      → join_all (tabulate n b out) last ≡ results (tabulate n b val ++ (last ∷ []))
  unfolding join_all
  join_all_returned zero b out val last h = refl
  join_all_returned (suc n) b out val last h = rw (
    h b (omega arith) (omega arith),
    join_all,
    join_all_returned n (suc b) out val last (λ k p q. h k (omega arith) (omega arith)),
  )

  pub outcome_at-tabulate :
      (m : ℕ) (f : ℕ → Option (Outcome P R)) → outcome_at (tabulate (suc m) 0 f) m ≡ f m
  outcome_at-tabulate m f =
      rw (get_elem?-tabulate (suc m) 0 f m (omega arith))
        (ap f (let e : 0 + m ≡ m = omega arith in e))

  pub all_ended-tabulate :
      (n b : ℕ) (hs : ℕ → Option (Outcome P R)) (out : ℕ → Outcome P R)
      → ((k : ℕ) → b ≤ k → k < b + n → hs k ≡ some (out k))
      → all_ended (tabulate n b hs) ≡ true
  all_ended-tabulate zero b hs out h = refl
  all_ended-tabulate (suc n) b hs out h =
      rw (h b (omega arith) (omega arith))
        (all_ended-tabulate n (suc b) hs out (λ k q r. h k (omega arith) (omega arith)))

  -- The handles of a complete run close to the results in index order.
  close_scope_returned :
      (m : ℕ) (val : ℕ → R) (done : List ℕ)
      → IsComplete (suc m) done
      → let hs = tabulate (suc m) 0 (handle_at {P = P} (all_return val) done) in
        close_scope (take m hs) (outcome_at hs m) ≡ results (tabulate (suc m) 0 val)
  unfolding close_scope scope_body
  close_scope_returned m val done c =
      let handle = handle_at {P = P} (all_return val) done in
      let last : handle m ≡ some (returned (val m)) = rw (c m (omega arith)) in
      let ended =
        all_ended-tabulate m 0 handle (all_return val) (λ k _ q. rw (c k (omega arith))) in
      rw (outcome_at-tabulate m handle, last, take-tabulate (suc m) m 0 handle (omega arith), ended)
        (join_all_returned m 0 handle val (val m) (λ k _ q. rw (c k (omega arith)))
          ∙ ap (λ v. results (tabulate m 0 val ++ (v ∷ [])))
              (ap val (let e : m ≡ 0 + m = omega arith in e))
          ∙ ap results (tabulate-snoc m 0 val))

  close_all_returned :
      (n : ℕ) (val : ℕ → R) (done : List ℕ)
      → 1 ≤ n
      → IsComplete n done
      → let hs = tabulate n 0 (handle_at {P = P} (all_return val) done) in
        close_scope (take (n - 1) hs) (outcome_at hs (n - 1)) ≡ results (tabulate n 0 val)
  close_all_returned zero val done h c = absurd (omega arith)
  close_all_returned (suc m) val done h c =
      let e : suc m - 1 ≡ m = omega arith in rw e (close_scope_returned m val done c)

  -- The client's part: `J done s` holds of the state that the tasks of `done` leave, and there any
  -- other task returns what `val` says; `Final` follows once every task is done.
  module _ {ℓ κ} {S : Type 0} (n : ℕ) (run : ℕ → S → Outcome P R × S) (val : ℕ → R)
      (J : List ℕ → S → Type ℓ) (Final : S → Type κ)
      (step : (done : List ℕ) (i : ℕ) (s : S)
        → i < n
        → contains done i ≡ false
        → J done s
        → ((run i s).0 ≡ returned (val i)) × J (i ∷ done) (run i s).1)
      (finish : (done : List ℕ) (s : S) → IsComplete n done → J done s → Final s) where
    pooled_results :
        (x : Executor P) (threads : ℕ → List ℕ) (s : S)
        → Honours n (x.call n)
        → (x.call n).unwinds ≡ none
        → J [] s
        → (s' : S) × (drive (some x) threads n run s ≡ (results (tabulate n 0 val), s')) × Final s'
    unfolding drive
    pooled_results x threads s honours back h =
        let order = (x.call n).order in
        let kept = task_wrapper_keeps (all_return val) n run J step order s honours.once h in
        let complete = after-IsComplete n order (honours.all back) in
        let last = run_tasks (task_wrapper run) order (buffer_after (all_return val) n [], s) in
        (
          last.1,
          rw (back, fresh-buffer_after (all_return val) n)
              (ap (λ e. (e, last.1))
                (ap conclude kept.0 ∙ conclude_returned val n (after [] order) complete)),
          finish (after [] order) last.1 complete kept.1,
        )

    inline_results :
        (threads : ℕ → List ℕ) (s : S)
        → n ≡ 1
        → J [] s
        → (s' : S) × (drive none threads n run s ≡ (results (tabulate n 0 val), s')) × Final s'
    unfolding drive
    inline_results threads s e h =
        let (out, kept) = step [] 0 s (omega arith) refl h in
        ((run 0 s).1, rw (e, out), finish (0 ∷ []) (run 0 s).1 (λ i lt. ground arith) kept)

    scoped_results :
        (threads : ℕ → List ℕ) (s : S)
        → 1 ≤ n
        → (n == 1) ≡ false
        → IsOrder n (threads n)
        → IsComplete n (threads n)
        → J [] s
        → (s' : S) × (drive none threads n run s ≡ (results (tabulate n 0 val), s')) × Final s'
    unfolding drive
    scoped_results threads s pos many order all h =
        let kept = thread_keeps (all_return val) n run J step (threads n) s order h in
        let complete = after-IsComplete n (threads n) all in
        let handle = handle_at {P = P} (all_return val) in
        let last = run_tasks (thread run) (threads n) (tabulate n 0 (handle []), s) in
        (
          last.1,
          rw (many, replicate-tabulate {A = Option (Outcome P R)} n 0 none)
              (ap (λ hs. (close_scope (take (n - 1) hs) (outcome_at hs (n - 1)), last.1)) kept.0
                ∙ ap (λ r. (r, last.1))
                    (close_all_returned n val (after [] (threads n)) pos complete)),
          finish (after [] (threads n)) last.1 complete kept.1,
        )

    -- For at least one chunk, tasks that all return, and a driver that runs every task once, `drive`
    -- returns the results in index order, whatever the order of the tasks, on a registered executor,
    -- on scoped threads and for a single chunk; and the state that it leaves is one in which every
    -- task is done.
    pub drive_results :
        (registry : Registry P) (threads : ℕ → List ℕ) (s : S)
        → 1 ≤ n
        → RunsAll registry threads n
        → J [] s
        → (s' : S) × (drive registry threads n run s ≡ (results (tabulate n 0 val), s')) × Final s'
    drive_results (some x) threads s pos runs h = pooled_results x threads s runs.0 runs.1 h
    drive_results none threads s pos runs h = elim (Bool-cases (n == 1)) [
      | inl one ↦ inline_results threads s (==→eq n 1 one) h
      | inr many ↦ scoped_results threads s pos many runs.0 runs.1 h
    ]
