-- ===== src/Sync/Interleave/Threads.antt =====
-- The tasks of a partition and the out-buffer (src/sync/scoped/partition/driver_core.rs) at any point
-- of an interleaving.
use melinoe.Prelude.{
  ℕ, ◌<◌, ◌≡◌, ◌≢◌, refl, ap, ◌∙◌, inl, inr, Bool, true, false, ◌&&◌, List, length,
  length-overwrite, tabulate, tabulate_ext, overwrite, ◌==◌, ==→eq, ==→ne, ==_refl, Bool-cases,
}
use melinoe.Prelude.Orders.{contains, IsOrder}
use melinoe.Machine.{Outcome, usize_mod}
use melinoe.Region.Shard.{WriterShard, Disjoint, as_slice}
use melinoe.Region.ParChunks.{count, get_unchecked_chunk, par_chunks}
use melinoe.Region.ParChunks.Tile.{InMemory}
use melinoe.Sync.OutBuffer.{Buffer}
use melinoe.Sync.Driver.Tasks.{is_returned, first_panic, slot_at}
use melinoe.Sync.Interleave.{
  Work, finish, access, Phase, running, written, over, complete, set_phase,
}

module _ {P A R : Type 0} where
  pub length-complete : (t : Work P A R) (xs : List A) → length (complete t xs).1 ≡ length xs
  unfolding complete
  length-complete (finish o) xs = refl
  length-complete (access change next) xs =
      length-complete (next xs) (overwrite xs (change xs)) ∙ length-overwrite xs (change xs)

  abbrev pub is_over : Phase P A R → Bool
  is_over (running t) = false
  is_over written = false
  is_over over = true

-- The tasks of the shards of `par_chunks w c`: task `i` begins with `work i` on the values `given i`.
module _ {P A R : Type 0} (w : WriterShard) (c : ℕ) (m : InMemory w) (fits : c < usize_mod)
    (work : ℕ → Work P A R) (given : ℕ → List A) where
  abbrev n : ℕ
  n = count (par_chunks w c)

  abbrev pub outcome_of : ℕ → Outcome P R
  outcome_of i = (complete (work i) (given i)).0

  abbrev pub result_of : ℕ → List A
  result_of i = (complete (work i) (given i)).1

  -- A task with its shard's present values: what is left of a running one leads where the whole
  -- closure would have led.
  abbrev pub Stage : List ℕ → ℕ → List A → Phase P A R → Type 0
  Stage done i now (running t) =
      (contains done i ≡ false) × (complete t now ≡ complete (work i) (given i))
  Stage done i now written =
      (contains done i ≡ true) × (is_returned (outcome_of i) ≡ true) × (now ≡ result_of i)
  Stage done i now over = (contains done i ≡ true) × Unit {0} × (now ≡ result_of i)

  abbrev shard_at : ℕ → WriterShard
  shard_at i = get_unchecked_chunk (par_chunks w c) i

  abbrev pub flagged : (ℕ → Phase P A R) → ℕ → Bool
  flagged phases j = is_over (phases j) && is_returned (outcome_of j)

  Stage-frame :
      (done more : List ℕ) (i : ℕ) (now next : List A) (ph : Phase P A R)
      → contains more i ≡ contains done i
      → next ≡ now
      → Stage done i now ph
      → Stage more i next ph
  Stage-frame done more i now next (running t) e f s = (e ∙ s.0, ap (complete t) f ∙ s.1)
  Stage-frame done more i now next written e f s = (e ∙ s.0, s.1, f ∙ s.2)
  Stage-frame done more i now next over e f s = (e ∙ s.0, s.1, f ∙ s.2)

  pub stages_update :
      (done more : List ℕ) (i : ℕ) (now next : List A) (phases : ℕ → Phase P A R)
      (phase : Phase P A R)
      → ((j : ℕ) → i ≢ j → contains more j ≡ contains done j)
      → ((j : ℕ) → j < n → i ≢ j → as_slice next (shard_at j) ≡ as_slice now (shard_at j))
      → ((j : ℕ) → j < n → Stage done j (as_slice now (shard_at j)) (phases j))
      → Stage more i (as_slice next (shard_at i)) phase
      → (j : ℕ) → j < n
      → Stage more j (as_slice next (shard_at j)) (set_phase phases i phase j)
  stages_update done more i now next phases phase e f old new j h = elim (Bool-cases (i == j)) [
    | inl same ↦ let q = ==→eq i j same in rw (← q, ==_refl i) new
    | inr ne ↦ rw ne (
        Stage-frame done more j (as_slice now (shard_at j)) (as_slice next (shard_at j)) (phases j)
          (e j (==→ne i j ne)) (f j h (==→ne i j ne)) (old j h))
  ]

  pub flagged_update :
      (phases : ℕ → Phase P A R) (i : ℕ) (phase : Phase P A R)
      → (is_over (phases i) && is_returned (outcome_of i)
          ≡ (is_over phase && is_returned (outcome_of i)))
      → tabulate n 0 (flagged phases) ≡ tabulate n 0 (flagged (set_phase phases i phase))
  flagged_update phases i phase e =
      tabulate_ext n 0 (flagged phases) (flagged (set_phase phases i phase)) (λ j _ _.
        elim (Bool-cases (i == j)) [
          | inl same ↦ let q = ==→eq i j same in rw (← q, ==_refl i) e
          | inr ne ↦ rw ne refl
        ])

  -- The out-buffer while the tasks of `done`, the latest of them in front, have left their result.
  pub record Filled (done : List ℕ) (phases : ℕ → Phase P A R) (b : Buffer P R) : Type 0 where
    pub slots : b.slots ≡ tabulate n 0 (slot_at outcome_of done)
    pub flags : b.successful ≡ tabulate n 0 (flagged phases)
    pub payload :
        b.panic_payload ≡ record { payload = first_panic outcome_of done; poisoned = false }

  module _ (mem : List A) where
    -- The tasks and the memory at that time.
    pub record Along (done : List ℕ) (phases : ℕ → Phase P A R) (now : List A) : Type 0 where
      pub order : IsOrder n done
      pub stages : (i : ℕ) → i < n → Stage done i (as_slice now (shard_at i)) (phases i)
      pub elsewhere : (v : WriterShard) → Disjoint w.cells v.cells → as_slice now v ≡ as_slice mem v
