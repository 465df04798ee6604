-- ===== src/Sync/Driver/Tasks.antt =====
-- What independent tasks leave behind, in whatever order they take effect: the shared part of the
-- theorems on `drive` (src/sync/scoped/partition/driver_core.rs).
use melinoe.Prelude.{
  ℕ, ◌<◌, ◌≡◌, ◌≢◌, refl, sym, ap, ◌∙◌, inl, inr, Bool, true, false, ◌&&◌, Option, none, some, List,
  [], ◌∷◌, tabulate, tabulate_update, tabulate_ext, set, ◌==◌, ==→eq, ==_refl, ne→==, if◌then◌else◌,
  Bool-cases, arith,
}
use melinoe.Prelude.Orders.{contains, IsOrder, after, Apart, Apart-tail}
use melinoe.Machine.{Outcome, returned, panicked}
use melinoe.Sync.Executor.{run_tasks}
use melinoe.Sync.OutBuffer.{Slot, uninit, dropped, init, Buffer, settle, task_wrapper}
use melinoe.Sync.Driver.{thread}

-- What each task keeps, whatever was done before it, all of them keep.
pub run_tasks_keeps {ℓ} :
    {S : Type 0} (n : ℕ) (task : ℕ → S → S) (I : List ℕ → S → Type ℓ)
    → ((done : List ℕ) (i : ℕ) (s : S)
        → i < n
        → contains done i ≡ false
        → I done s
        → I (i ∷ done) (task i s))
    → (is done : List ℕ) (s : S) → IsOrder n is
    → Apart done is
    → I done s
    → I (after done is) (run_tasks task is s)
unfolding run_tasks
run_tasks_keeps n task I step [] done s o a h = h
run_tasks_keeps n task I step (i ∷ is) done s o a h =
    run_tasks_keeps n task I step is (i ∷ done) (task i s) o.2 (Apart-tail done i is o.1 a)
      (step done i s o.0 (a i (rw (==_refl i))) h)

module _ {P R : Type 0} where
  abbrev pub is_returned : Outcome P R → Bool
  is_returned (returned v) = true
  is_returned (panicked p) = false

  -- The outcomes of tasks that all return.
  abbrev pub all_return : (ℕ → R) → ℕ → Outcome P R
  all_return val i = returned (val i)

  -- The slot of a task that has run, and the same after the teardown.
  abbrev pub filled : Outcome P R → Slot R
  filled (returned v) = init v
  filled (panicked p) = uninit

  abbrev pub spent : Outcome P R → Slot R
  spent (returned v) = dropped
  spent (panicked p) = uninit

  -- The payload of the panic that came first among the tasks done, the latest of which is in front.
  abbrev pub first_panic : (ℕ → Outcome P R) → List ℕ → Option P
  first_panic out [] = none
  first_panic out (i ∷ done) = elim (first_panic out done) [
    | some p ↦ some p
    | none ↦ elim (out i) [ returned v ↦ none | panicked p ↦ some p ]
  ]

  module _ (out : ℕ → Outcome P R) where
    abbrev pub slot_at : List ℕ → ℕ → Slot R
    slot_at done i = if contains done i then filled (out i) else uninit

    abbrev pub flag_at : List ℕ → ℕ → Bool
    flag_at done i = contains done i && is_returned (out i)

    abbrev pub handle_at : List ℕ → ℕ → Option (Outcome P R)
    handle_at done i = if contains done i then some (out i) else none

    -- The out-buffer after the tasks of `done`.
    abbrev pub buffer_after : ℕ → List ℕ → Buffer P R
    buffer_after n done = record {
      slots = tabulate n 0 (slot_at done);
      successful = tabulate n 0 (flag_at done);
      panic_payload = record { payload = first_panic out done; poisoned = false };
    }

    slot_at-cons : (done : List ℕ) (i k : ℕ) → i ≢ k → slot_at done k ≡ slot_at (i ∷ done) k
    slot_at-cons done i k ne = rw (ne→== i k ne)

    flag_at-cons : (done : List ℕ) (i k : ℕ) → i ≢ k → flag_at done k ≡ flag_at (i ∷ done) k
    flag_at-cons done i k ne = rw (ne→== i k ne)

    -- A task that panics changes no slot and no flag.
    slot_at-panicked :
        (done : List ℕ) (i k : ℕ) {p : P}
        → contains done i ≡ false
        → out i ≡ panicked p
        → (slot_at done k ≡ slot_at (i ∷ done) k) × (flag_at done k ≡ flag_at (i ∷ done) k)
    slot_at-panicked done i k f e = elim (Bool-cases (i == k)) [
      | inr ne ↦ rw ne (refl, refl)
      | inl h ↦ let q = ==→eq i k h in rw (← q, ==_refl i, f, e) (refl, refl)
    ]

    pub settle-out :
        (n : ℕ) (done : List ℕ) (i : ℕ) (o : Outcome P R)
        → i < n
        → contains done i ≡ false
        → out i ≡ o
        → settle i o (buffer_after n done) ≡ buffer_after n (i ∷ done)
    unfolding settle
    settle-out n done i (returned v) h f e =
        let slot : init v ≡ slot_at (i ∷ done) i = rw (==_refl i, e) in
        let flag : true ≡ flag_at (i ∷ done) i = rw (==_refl i, e) in
        let slots =
          ap (set (tabulate n 0 (slot_at done)) i) slot
          ∙ tabulate_update n (slot_at done) (slot_at (i ∷ done)) i h (slot_at-cons done i) in
        let flags =
          ap (set (tabulate n 0 (flag_at done)) i) flag
          ∙ tabulate_update n (flag_at done) (flag_at (i ∷ done)) i h (flag_at-cons done i) in
        let payload : first_panic out done ≡ first_panic out (i ∷ done) = ground (arith, e) in
        λ t. record {
          slots = slots t;
          successful = flags t;
          panic_payload = record { payload = payload t; poisoned = false };
        }
    settle-out n done i (panicked p) h f e =
        let slots =
          tabulate_ext n 0 (slot_at done) (slot_at (i ∷ done))
            (λ k _ _. (slot_at-panicked done i k f e).0) in
        let flags =
          tabulate_ext n 0 (flag_at done) (flag_at (i ∷ done))
            (λ k _ _. (slot_at-panicked done i k f e).1) in
        let payload : (elim (first_panic out done) [ none ↦ some p | some q ↦ some q ])
            ≡ first_panic out (i ∷ done) =
          ground (arith, e) in
        λ t. record {
          slots = slots t;
          successful = flags t;
          panic_payload = record { payload = payload t; poisoned = false };
        }

    handle_at-cons : (done : List ℕ) (i k : ℕ) → i ≢ k → handle_at done k ≡ handle_at (i ∷ done) k
    handle_at-cons done i k ne = rw (ne→== i k ne)

    -- What a client knows of its tasks: `J done s` holds of the state `s` that the tasks of `done`
    -- leave, and there the outcome of any other task is the one that `out` says.
    module _ {ℓ} {S : Type 0} (n : ℕ) (run : ℕ → S → Outcome P R × S) (J : List ℕ → S → Type ℓ)
        (step : (done : List ℕ) (i : ℕ) (s : S)
          → i < n
          → contains done i ≡ false
          → J done s
          → ((run i s).0 ≡ out i) × J (i ∷ done) (run i s).1) where
      pub task_wrapper_keeps :
          (order : List ℕ) (s : S)
          → IsOrder n order
          → J [] s
          → let (b, s') = run_tasks (task_wrapper run) order (buffer_after n [], s) in
            (b ≡ buffer_after n (after [] order)) × J (after [] order) s'
      unfolding task_wrapper
      task_wrapper_keeps order s o h =
          run_tasks_keeps n (task_wrapper run)
            (λ done st. (st.0 ≡ buffer_after n done) × J done st.1)
            (λ done i st lt new inv.
              let (e, kept) = step done i st.1 lt new inv.1 in
              (
                ap (settle i (run i st.1).0) inv.0
                    ∙ settle-out n done i (run i st.1).0 lt new (sym e),
                kept,
              ))
            order [] (buffer_after n [], s) o (λ k _. refl) (refl, h)

      pub thread_keeps :
          (order : List ℕ) (s : S)
          → IsOrder n order
          → J [] s
          → let (hs, s') = run_tasks (thread run) order (tabulate n 0 (handle_at []), s) in
            (hs ≡ tabulate n 0 (handle_at (after [] order))) × J (after [] order) s'
      unfolding thread
      thread_keeps order s o h =
          run_tasks_keeps n (thread run)
            (λ done st. (st.0 ≡ tabulate n 0 (handle_at done)) × J done st.1)
            (λ done i st lt new inv.
              let (e, kept) = step done i st.1 lt new inv.1 in
              let handle : some (run i st.1).0 ≡ handle_at (i ∷ done) i = rw (==_refl i, e) in
              (
                ap (λ hs. set hs i (some (run i st.1).0)) inv.0
                    ∙ ap (set (tabulate n 0 (handle_at done)) i) handle
                    ∙ tabulate_update n (handle_at done) (handle_at (i ∷ done)) i lt
                        (handle_at-cons done i),
                kept,
              ))
            order [] (tabulate n 0 (handle_at []), s) o (λ k _. refl) (refl, h)
