-- ===== src/Sync/Interleave/Ended.antt =====
-- Interleaved tasks of a partition, all of them over, against tasks that took effect one after the
-- other (src/sync/scoped/partition/driver_core.rs): the memory.
use melinoe.Prelude.{
  ℕ, false, ◌+◌, ◌*◌, ◌≤◌, ◌<◌, ◌≡◌, refl, sym, ap, ◌∙◌, inl, inr, true, List, [], ◌∷◌, ◌++◌,
  length, slice, slice_all, slice-slice_append, overwrite_same, tabulate_ext, flatten, arith,
}
use melinoe.Prelude.Orders.{contains}
use mathlib.Core.Path.{subst}
use melinoe.Machine.{Outcome, usize_mod, mul_usize}
use melinoe.Region.Shard.{WriterShard, Disjoint, as_slice}
use melinoe.Region.ParChunks.{count, get_unchecked_chunk, par_chunks}
use melinoe.Region.ParChunks.Tile.{InMemory, chunks_cover}
use melinoe.Sync.Map.Confined.{
  on_slice, chunk_of, Progress, task_outcome, task_Progress, start_exact, chunk_at_start,
}
use melinoe.Sync.Interleave.{Work, Phase, running, over, complete}
use melinoe.Sync.Interleave.Threads.{Stage, Along, length-complete, outcome_of, result_of}

parts_of {ℓ} :
    {A : Type ℓ} (a : List A) (b l k : ℕ)
    → length a ≤ k
    → a ≡ slice a 0 b ++ (slice a b l ++ slice a (b + l) k)
parts_of a b l k h =
    sym (slice_all a (b + (l + k)) (omega arith))
    ∙ slice-slice_append a 0 b (l + k)
    ∙ ap (λ t. slice a 0 b ++ slice a t (l + k)) (let e : 0 + b ≡ b = omega arith in e)
    ∙ ap (λ t. slice a 0 b ++ t) (slice-slice_append a b l k)

-- Memories that agree on a shard and on every stretch beside it are equal.
same_memory {ℓ} :
    {A : Type ℓ} (w : WriterShard) (a b : List A)
    → as_slice a w ≡ as_slice b w
    → ((v : WriterShard) → Disjoint w.cells v.cells → as_slice a v ≡ as_slice b v)
    → a ≡ b
unfolding as_slice
same_memory w a b e f =
    let k = length a + length b in
    let low = f (record { cells = record { base = 0; len = w.cells.base } }) (inr (omega arith)) in
    let high =
      f (record { cells = record { base = w.cells.base + w.cells.len; len = k } })
        (inl (omega arith)) in
    parts_of a w.cells.base w.cells.len k (omega arith)
    ∙ (λ t. low t ++ (e t ++ high t))
    ∙ sym (parts_of b w.cells.base w.cells.len k (omega arith))

module _ {P A R : Type 0} (w : WriterShard) (c : ℕ) (m : InMemory w) (k : 1 ≤ c)
    (fits : c < usize_mod) (work : ℕ → Work P A R) (mem : List A) where
  abbrev n : ℕ
  n = count (par_chunks w c)

  abbrev given : ℕ → List A
  given i = chunk_of (as_slice mem w) c i

  abbrev work_at : ℕ → Work P A R
  work_at i = work (mul_usize i c)

  abbrev calls : ℕ → List A → Outcome P R × List A
  calls s = complete (work s)

  abbrev AlongHere : List ℕ → (ℕ → Phase P A R) → List A → Type 0
  AlongHere done phases now = Along w c m fits work_at given mem done phases now

  pub start-Along : AlongHere [] (λ i. running (work_at i)) mem
  start-Along = record {
    order = tt;
    stages = λ i h. (refl, ap (complete (work_at i)) (chunk_at_start w c m k fits calls mem i h));
    elsewhere = λ v d. refl;
  }

  pub ended_stage :
      (done : List ℕ) (phases : ℕ → Phase P A R) (now : List A) (i : ℕ)
      → AlongHere done phases now
      → i < n
      → phases i ≡ over
      → (contains done i ≡ true)
        × (as_slice now (get_unchecked_chunk (par_chunks w c) i)
            ≡ result_of w c m fits work_at given i)
  ended_stage done phases now i a h e =
      let st =
        subst
          (Stage w c m fits work_at given done i
            (as_slice now (get_unchecked_chunk (par_chunks w c) i)))
          e (a.stages i h) in
      (st.0, st.2)

  abbrev pub serial : ℕ → List A → Outcome P R × List A
  serial index now =
      on_slice calls (mul_usize index c) (get_unchecked_chunk (par_chunks w c) index) now

  abbrev pub ProgressHere : List ℕ → List A → Type 0
  ProgressHere done now = Progress w c m k fits calls mem done now

  pub serial-Progress :
      (done : List ℕ) (i : ℕ) (now : List A)
      → i < n
      → contains done i ≡ false
      → ProgressHere done now
      → ((serial i now).0 ≡ outcome_of w c m fits work_at given i)
        × ProgressHere (i ∷ done) (serial i now).1
  serial-Progress done i now lt new p = (
    task_outcome w c m k fits calls mem done i now lt new p
        ∙ ap (λ t. (complete (work t) (given i)).0) (sym (start_exact w c m k fits calls mem i lt)),
    task_Progress w c m k fits calls mem done i now lt new p,
  )

  same_chunk :
      (done : List ℕ) (phases : ℕ → Phase P A R) (past now : List A) (i : ℕ)
      → AlongHere done phases past
      → ProgressHere done now
      → i < n
      → phases i ≡ over
      → as_slice past (get_unchecked_chunk (par_chunks w c) i)
        ≡ as_slice now (get_unchecked_chunk (par_chunks w c) i)
  same_chunk done phases past now i a p h e =
      let (in_done, result) = ended_stage done phases past i a h e in
      let updated = p.chunk_at i h ∙ (rw in_done refl) in
      let exact = ap (λ t. (calls t (given i)).1) (start_exact w c m k fits calls mem i h) in
      result
      ∙ exact
      ∙ sym (
          overwrite_same (given i) (calls (i * c) (given i)).1
            (length-complete (work (i * c)) (given i)))
      ∙ sym updated

  pub same_end :
      (done : List ℕ) (phases : ℕ → Phase P A R) (past now : List A)
      → AlongHere done phases past
      → ProgressHere done now
      → ((i : ℕ) → i < n → phases i ≡ over)
      → past ≡ now
  same_end done phases past now a p all =
      same_memory w past now
        (sym (chunks_cover past w c m fits)
          ∙ ap flatten (
              tabulate_ext n 0 (λ i. as_slice past (get_unchecked_chunk (par_chunks w c) i))
                (λ i. as_slice now (get_unchecked_chunk (par_chunks w c) i))
                (λ i _ h.
                  let lt : i < n = omega arith in
                  same_chunk done phases past now i a p lt (all i lt)))
          ∙ chunks_cover now w c m fits)
        (λ v d. a.elsewhere v d ∙ sym (p.elsewhere v d))
