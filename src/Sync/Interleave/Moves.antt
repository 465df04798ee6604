-- ===== src/Sync/Interleave/Moves.antt =====
-- One step of one task (src/sync/scoped/partition/driver_core.rs), for each phase that it is in.
use melinoe.Prelude.{ℕ, ◌<◌, ◌≡◌, ◌≢◌, refl, sym, ap, ◌∙◌, true, List, ◌∷◌, arith}
use mathlib.Core.Path.{subst}
use melinoe.Prelude.Orders.{contains, IsOrder, contains-cons, contains_self}
use melinoe.Machine.{Outcome, usize_mod}
use melinoe.Region.Shard.{WriterShard, as_slice, as_mut_slice}
use melinoe.Region.Shard.Split.{as_slice-as_mut_slice_self, as_slice-as_mut_slice-Disjoint}
use melinoe.Region.ParChunks.{count, get_unchecked_chunk, par_chunks}
use melinoe.Region.ParChunks.Tile.{InMemory, chunks_apart, chunk_within}
use melinoe.Sync.Driver.Tasks.{is_returned}
use melinoe.Sync.Interleave.{
  Work, finish, access, Phase, running, written, over, complete, set_phase,
}
use melinoe.Sync.Interleave.Threads.{Stage, Along, outcome_of, result_of, stages_update}

module _ {P A R : Type 0} (w : WriterShard) (c : ℕ) (m : InMemory w) (fits : c < usize_mod)
    (work : ℕ → Work P A R) (given : ℕ → List A) (mem : List A) where
  abbrev n : ℕ
  n = count (par_chunks w c)

  abbrev out : ℕ → Outcome P R
  out = outcome_of w c m fits work given

  abbrev shard_at : ℕ → WriterShard
  shard_at i = get_unchecked_chunk (par_chunks w c) i

  -- What a step of the closure does to its shard.
  abbrev pub changed : ℕ → (List A → List A) → List A → List A
  changed i change now = (as_mut_slice (shard_at i) (λ xs. (xs, change xs)) now).1

  module _ (done : List ℕ) (i : ℕ) (phases : ℕ → Phase P A R) (now : List A) (lt : i < n)
      (a : Along w c m fits work given mem done phases now) where
    pub Stage-is :
        (ph : Phase P A R)
        → phases i ≡ ph
        → Stage w c m fits work given done i (as_slice now (shard_at i)) ph
    Stage-is ph e =
        subst (Stage w c m fits work given done i (as_slice now (shard_at i))) e (a.stages i lt)

    -- The tasks after a step of task `i` that leaves the memory as it is.
    still-Along :
        (more : List ℕ) (phase : Phase P A R)
        → IsOrder n more
        → ((j : ℕ) → i ≢ j → contains more j ≡ contains done j)
        → Stage w c m fits work given more i (as_slice now (shard_at i)) phase
        → Along w c m fits work given mem more (set_phase phases i phase) now
    still-Along more phase o f new = record {
      order = o;
      stages =
          stages_update w c m fits work given done more i now now phases phase f (λ j h ne. refl)
            a.stages new;
      elsewhere = a.elsewhere;
    }

    pub access-Along :
        (change : List A → List A) (next : List A → Work P A R)
        → phases i ≡ running (access change next)
        → Along w c m fits work given mem done
            (set_phase phases i (running (next (as_slice now (shard_at i)))))
            (changed i change now)
    unfolding complete
    access-Along change next e =
        let st = Stage-is (running (access change next)) e in
        let g : List A → List A × List A = λ xs. (xs, change xs) in
        record {
          order = a.order;
          stages =
              stages_update w c m fits work given done done i now (changed i change now) phases
                (running (next (as_slice now (shard_at i)))) (λ j ne. refl)
                (λ j h ne.
                  as_slice-as_mut_slice-Disjoint now (shard_at i) g (shard_at j)
                    (chunks_apart w c i j m fits lt h ne).3)
                a.stages
                (
                  st.0,
                  ap (complete (next (as_slice now (shard_at i))))
                        (as_slice-as_mut_slice_self now (shard_at i) g)
                      ∙ st.1,
                );
          elsewhere = λ v d.
              as_slice-as_mut_slice-Disjoint now (shard_at i) g v
                (ground (arith, chunk_within w c i m fits lt))
              ∙ a.elsewhere v d;
        }

    pub flag_Along :
        phases i ≡ written → Along w c m fits work given mem done (set_phase phases i over) now
    flag_Along e =
        let st = Stage-is written e in still-Along done over a.order (λ j ne. refl) (st.0, tt, st.2)

    pub over-Along :
        phases i ≡ over → Along w c m fits work given mem done (set_phase phases i over) now
    over-Along e = still-Along done over a.order (λ j ne. refl) (Stage-is over e)

    module _ (o : Outcome P R) (e : phases i ≡ running (finish o)) where
      pub finish_out : out i ≡ o
      unfolding complete
      finish_out = ap (λ r. r.0) (sym (Stage-is (running (finish o)) e).1)

      finish_result : as_slice now (shard_at i) ≡ result_of w c m fits work given i
      unfolding complete
      finish_result = ap (λ r. r.1) (Stage-is (running (finish o)) e).1

      finish_order : IsOrder n (i ∷ done)
      finish_order = (lt, (Stage-is (running (finish o)) e).0, a.order)

      pub over_finish-Along :
          Along w c m fits work given mem (i ∷ done) (set_phase phases i over) now
      over_finish-Along =
          still-Along (i ∷ done) over finish_order (contains-cons done i)
            (contains_self done i, tt, finish_result)

      pub written_finish-Along :
          is_returned (out i) ≡ true
          → Along w c m fits work given mem (i ∷ done) (set_phase phases i written) now
      written_finish-Along back =
          still-Along (i ∷ done) written finish_order (contains-cons done i)
            (contains_self done i, back, finish_result)
