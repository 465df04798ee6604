-- ===== src/Sync/Interleave/Scoped/Handles.antt =====
-- One step of one scoped thread (src/sync/scoped/partition/driver_core.rs) on the handles.
use melinoe.Prelude.{
  ℕ, ◌<◌, ◌≡◌, refl, ap, ◌∙◌, List, ◌∷◌, tabulate, tabulate_update, set, ne→==, ==_refl,
}
use melinoe.Machine.{Outcome, usize_mod}
use melinoe.Region.Shard.{WriterShard, as_mut_slice}
use melinoe.Region.ParChunks.{count, get_unchecked_chunk, par_chunks}
use melinoe.Region.ParChunks.Tile.{InMemory}
use melinoe.Sync.Interleave.{Work, finish, access, Phase, running, written, over, set_phase}
use melinoe.Sync.Interleave.Threads.{Along, outcome_of}
use melinoe.Sync.Interleave.Moves.{
  access-Along, flag_Along, over-Along, finish_out, over_finish-Along,
}
use melinoe.Prelude.{some}
use melinoe.Sync.Driver.Tasks.{handle_at}
use melinoe.Sync.Interleave.Scoped.{Scope, thread_step, step}

module _ {P A R : Type 0} (w : WriterShard) (c : ℕ) (m : InMemory w) (fits : c < usize_mod)
    (work : ℕ → Work P A R) (given : ℕ → List A) (mem : List A) where
  abbrev n : ℕ
  n = count (par_chunks w c)

  abbrev out : ℕ → Outcome P R
  out = outcome_of w c m fits work given

  abbrev shard_at : ℕ → WriterShard
  shard_at i = get_unchecked_chunk (par_chunks w c) i

  -- The threads and their handles while the tasks of `done` have ended.
  abbrev pub ScopeAlong : List ℕ → Scope P A R → Type 0
  ScopeAlong done s =
      Along w c m fits work given mem done s.phases s.memory
      × (s.handles ≡ tabulate n 0 (handle_at out done))

  abbrev moved : ℕ → Scope P A R → Phase P A R → Scope P A R
  moved i s ph =
      let (phase, hs, mem') = thread_step i (shard_at i) ph s.handles s.memory in
      record { phases = set_phase s.phases i phase; handles = hs; memory = mem' }

  module _ (done : List ℕ) (i : ℕ) (s : Scope P A R) (lt : i < n) (a : ScopeAlong done s) where
    ended_handles :
        (o : Outcome P R)
        → out i ≡ o
        → set s.handles i (some o) ≡ tabulate n 0 (handle_at out (i ∷ done))
    ended_handles o is_out =
        let handle : some o ≡ handle_at out (i ∷ done) i = rw (==_refl i, is_out) refl in
        ap (λ hs. set hs i (some o)) a.1
        ∙ ap (set (tabulate n 0 (handle_at out done)) i) handle
        ∙ tabulate_update n (handle_at out done) (handle_at out (i ∷ done)) i lt
            (λ k ne. rw (ne→== i k ne) refl)

    moved-Along :
        (ph : Phase P A R) → s.phases i ≡ ph → (more : List ℕ) × ScopeAlong more (moved i s ph)
    unfolding thread_step as_mut_slice
    moved-Along (running (finish o)) e = (
      i ∷ done,
      (
        over_finish-Along w c m fits work given mem done i s.phases s.memory lt a.0 o e,
        ended_handles o (finish_out w c m fits work given mem done i s.phases s.memory lt a.0 o e),
      ),
    )
    moved-Along (running (access change next)) e = (
      done,
      (access-Along w c m fits work given mem done i s.phases s.memory lt a.0 change next e, a.1),
    )
    moved-Along written e =
        (done, (flag_Along w c m fits work given mem done i s.phases s.memory lt a.0 e, a.1))
    moved-Along over e =
        (done, (over-Along w c m fits work given mem done i s.phases s.memory lt a.0 e, a.1))

    pub step-ScopeAlong : (more : List ℕ) × ScopeAlong more (step (par_chunks w c) i s)
    unfolding step
    step-ScopeAlong = moved-Along (s.phases i) refl
