-- ===== src/Sync/Interleave/Fills.antt =====
-- One step of `task_wrapper` (src/sync/scoped/partition/driver_core.rs) on the out-buffer.
use melinoe.Prelude.{
  ℕ, ◌<◌, ◌&&◌, ◌≡◌, refl, ap, ◌∙◌, Bool, true, false, List, ◌∷◌, tabulate, tabulate_update, set,
  ne→==, ==_refl, arith,
}
use melinoe.Prelude.Orders.{contains}
use melinoe.Machine.{Outcome, returned, panicked, usize_mod}
use melinoe.Region.Shard.{WriterShard, as_slice, as_mut_slice}
use melinoe.Region.ParChunks.{count, get_unchecked_chunk, par_chunks}
use melinoe.Region.ParChunks.Tile.{InMemory}
use melinoe.Sync.OutBuffer.{init, settle}
use melinoe.Sync.Driver.Tasks.{is_returned, first_panic, slot_at, settle-out}
use melinoe.Sync.Interleave.{
  Work, finish, access, Phase, running, written, over, Pool, task_step, set_phase, step,
}
use melinoe.Sync.Interleave.Threads.{is_over, Along, outcome_of}
use melinoe.Sync.OutBuffer.{Buffer}
use melinoe.Sync.Interleave.Threads.{Filled, flagged, flagged_update}
use melinoe.Sync.Interleave.Moves.{
  Stage-is, access-Along, flag_Along, over-Along, finish_out, over_finish-Along,
  written_finish-Along,
}

module _ {P A R : Type 0} (w : WriterShard) (c : ℕ) (m : InMemory w) (fits : c < usize_mod)
    (work : ℕ → Work P A R) (given : ℕ → List A) (mem : List A) where
  abbrev n : ℕ
  n = count (par_chunks w c)

  abbrev out : ℕ → Outcome P R
  out = outcome_of w c m fits work given

  abbrev flags_of : (ℕ → Phase P A R) → ℕ → Bool
  flags_of = flagged w c m fits work given

  abbrev shard_at : ℕ → WriterShard
  shard_at i = get_unchecked_chunk (par_chunks w c) i

  abbrev pub PoolAlong : List ℕ → Pool P A R → Type 0
  PoolAlong done s =
      Along w c m fits work given mem done s.phases s.memory
      × Filled w c m fits work given done s.phases s.buffer

  abbrev moved : ℕ → Pool P A R → Phase P A R → Pool P A R
  moved i s ph =
      let (phase, b, mem') = task_step i (shard_at i) ph s.buffer s.memory in
      record { phases = set_phase s.phases i phase; buffer = b; memory = mem' }

  module _ (done : List ℕ) (i : ℕ) (phases : ℕ → Phase P A R) (b : Buffer P R) (lt : i < n)
      (f : Filled w c m fits work given done phases b) where
    -- A step that touches neither the buffer nor the task's flag.
    same_Filled :
        (phase : Phase P A R)
        → flags_of phases i ≡ (is_over phase && is_returned (out i))
        → Filled w c m fits work given done (set_phase phases i phase) b
    same_Filled phase e = record {
      slots = f.slots;
      flags = f.flags ∙ flagged_update w c m fits work given phases i phase e;
      payload = f.payload;
    }

    flag_Filled :
        is_returned (out i) ≡ true
        → Filled w c m fits work given done
            (set_phase phases i over)
            (record b { successful = set b.successful i true })
    flag_Filled back = record {
      slots = f.slots;
      flags =
          ap (λ fs. set fs i true) f.flags
          ∙ ap (set (tabulate n 0 (flags_of phases)) i)
              (let q : true ≡ flags_of (set_phase phases i over) i = rw (==_refl i, back) refl in q)
          ∙ tabulate_update n (flags_of phases) (flags_of (set_phase phases i over)) i lt
              (λ k ne. rw (ne→== i k ne) refl);
      payload = f.payload;
    }

    value_Filled :
        (v : R)
        → out i ≡ returned v
        → flags_of phases i ≡ false
        → Filled w c m fits work given
            (i ∷ done)
            (set_phase phases i written)
            (record b { slots = set b.slots i (init v) })
    value_Filled v is_out e =
        let slot : init v ≡ slot_at out (i ∷ done) i = rw (==_refl i, is_out) refl in
        record {
          slots =
              ap (λ xs. set xs i (init v)) f.slots
              ∙ ap (set (tabulate n 0 (slot_at out done)) i) slot
              ∙ tabulate_update n (slot_at out done) (slot_at out (i ∷ done)) i lt
                  (λ k ne. rw (ne→== i k ne) refl);
          flags = f.flags ∙ flagged_update w c m fits work given phases i written e;
          payload =
              f.payload
              ∙ ap (λ p. record { payload = p; poisoned = false })
                  (let q : first_panic out done ≡ first_panic out (i ∷ done) =
                      ground (arith, is_out) in
                    q);
        }

    panic_Filled :
        (p : P)
        → contains done i ≡ false
        → out i ≡ panicked p
        → flags_of phases i ≡ false
        → Filled w c m fits work given
            (i ∷ done)
            (set_phase phases i over)
            (settle i (panicked p) b)
    unfolding settle
    panic_Filled p new is_out e = record {
      slots = f.slots ∙ ap (λ b. b.slots) (settle-out out n done i (panicked p) lt new is_out);
      flags = f.flags ∙ flagged_update w c m fits work given phases i over (e ∙ (rw is_out refl));
      payload =
          ap
            (λ q.
              (settle i (panicked p) (record {
                slots = tabulate n 0 (slot_at out done);
                successful = b.successful;
                panic_payload = q;
              })).panic_payload)
            f.payload
          ∙ ap (λ b. b.panic_payload) (settle-out out n done i (panicked p) lt new is_out);
    }

  module _ (done : List ℕ) (i : ℕ) (s : Pool P A R) (lt : i < n) (a : PoolAlong done s) where
    moved-Along :
        (ph : Phase P A R) → s.phases i ≡ ph → (more : List ℕ) × PoolAlong more (moved i s ph)
    unfolding task_step as_mut_slice
    moved-Along (running (finish (returned v))) e =
        let is_out =
          finish_out w c m fits work given mem done i s.phases s.memory lt a.0 (returned v) e in
        (
          i ∷ done,
          (
            written_finish-Along w c m fits work given mem done i s.phases s.memory lt a.0
                (returned v) e (ap is_returned is_out),
            value_Filled done i s.phases s.buffer lt a.1 v is_out (rw e refl),
          ),
        )
    moved-Along (running (finish (panicked p))) e =
        let st =
          Stage-is w c m fits work given mem done i s.phases s.memory lt a.0
            (running (finish (panicked p))) e in
        (
          i ∷ done,
          (
            over_finish-Along w c m fits work given mem done i s.phases s.memory lt a.0 (panicked p)
                e,
            panic_Filled done i s.phases s.buffer lt a.1 p st.0
                (finish_out w c m fits work given mem done i s.phases s.memory lt a.0 (panicked p)
                  e)
                (rw e refl),
          ),
        )
    moved-Along (running (access change next)) e = (
      done,
      (
        access-Along w c m fits work given mem done i s.phases s.memory lt a.0 change next e,
        same_Filled done i s.phases s.buffer lt a.1
            (running (next (as_slice s.memory (shard_at i)))) (rw e refl),
      ),
    )
    moved-Along written e =
        let st = Stage-is w c m fits work given mem done i s.phases s.memory lt a.0 written e in
        (
          done,
          (
            flag_Along w c m fits work given mem done i s.phases s.memory lt a.0 e,
            flag_Filled done i s.phases s.buffer lt a.1 st.1,
          ),
        )
    moved-Along over e = (
      done,
      (
        over-Along w c m fits work given mem done i s.phases s.memory lt a.0 e,
        same_Filled done i s.phases s.buffer lt a.1 over (rw e refl),
      ),
    )

    pub step-Along : (more : List ℕ) × PoolAlong more (step (par_chunks w c) i s)
    unfolding step
    step-Along = moved-Along (s.phases i) refl
