-- ===== src/Sync/Interleave/Torn.antt =====
-- The teardown of the out-buffer (src/sync/scoped/partition/driver_core.rs) at any point of an
-- interleaving, when the executor unwinds.
use melinoe.Prelude.{
  ℕ, ◌≤◌, ◌<◌, ◌≡◌, refl, ap, ◌∙◌, inl, inr, Bool, true, false, ◌&&◌, List, [], All, tabulate,
  arith, if◌then◌else◌,
}
use melinoe.Prelude.Orders.{contains}
use melinoe.Machine.{Outcome, returned, panicked, usize_mod, mul_usize}
use melinoe.Region.Shard.{WriterShard, as_slice}
use melinoe.Region.ParChunks.{count, get_unchecked_chunk, par_chunks}
use melinoe.Region.ParChunks.Tile.{InMemory}
use melinoe.Sync.OutBuffer.{Buffer, Slot, uninit, dropped}
use melinoe.Sync.Driver.{unwound, teardown}
use melinoe.Sync.Driver.Tasks.{is_returned, filled, slot_at}
use melinoe.Sync.Driver.Ending.{Drops, drop_successful-Drops}
use melinoe.Sync.Map.Confined.{chunk_of}
use melinoe.Sync.Interleave.{Work, Phase, running, written, over, interleave, start}
use melinoe.Sync.Interleave.Threads.{Stage, flagged, outcome_of, is_over}
use melinoe.Sync.Interleave.Serial.{interleave-Along, start_PoolAlong}

-- A slot after the teardown.
abbrev torn : {R : Type 0} → Bool → Slot R → Slot R
torn flag x = if flag then dropped else x

filled-Drops :
    {P R : Type 0} (over : Bool) (c : Bool) (o : Outcome P R)
    → (over ≡ true → c ≡ true)
    → let flag = over && is_returned o in
      let x = if c then filled o else uninit in Drops flag x (torn flag x)
filled-Drops true true (returned v) h = inl (refl, v, refl, refl)
filled-Drops true true (panicked p) h = inr (refl, refl)
filled-Drops true false o h = let z : false ≡ true = h refl in absurd (cc)
filled-Drops false c o h = inr (refl, refl)

teardown-Drops :
    {P R : Type 0} (n : ℕ) (flag : ℕ → Bool) (before left : ℕ → Slot R) (b : Buffer P R) (p : P)
    → b.successful ≡ tabulate n 0 flag
    → b.slots ≡ tabulate n 0 before
    → ((i : ℕ) → i < n → Drops (flag i) (before i) (left i))
    → teardown p b ≡ unwound p (tabulate n 0 left)
unfolding teardown
teardown-Drops n flag before left b p e f drops =
    ap (teardown p) (λ t. record { slots = f t; successful = e t; panic_payload = b.panic_payload })
    ∙ (rw (drop_successful-Drops n 0 flag before left (λ i _ h. drops i (omega arith)), teardown))

module _ {P A R : Type 0} (w : WriterShard) (c : ℕ) (m : InMemory w) (k : 1 ≤ c)
    (fits : c < usize_mod) (work : ℕ → Work P A R) (mem : List A) where
  abbrev n : ℕ
  n = count (par_chunks w c)

  abbrev given : ℕ → List A
  given i = chunk_of (as_slice mem w) c i

  abbrev work_at : ℕ → Work P A R
  work_at i = work (mul_usize i c)

  abbrev out : ℕ → Outcome P R
  out = outcome_of w c m fits work_at given

  over_done :
      (done : List ℕ) (i : ℕ) (now : List A) (ph : Phase P A R)
      → Stage w c m fits work_at given done i now ph
      → is_over ph ≡ true
      → contains done i ≡ true
  over_done done i now (running t) s e = cc
  over_done done i now written s e = cc
  over_done done i now over s e = s.0

  -- At any point of any interleaving, some tasks not begun, some in the middle: a teardown of the
  -- out-buffer is no undefined behaviour. Each slot whose flag is set holds a value, which is dropped
  -- once, and no other slot is touched.
  pub teardown-interleave :
      (schedule : List ℕ) (p : P)
      → All (λ i. i < n) schedule
      → let b = (interleave (par_chunks w c) schedule (start n work_at mem)).buffer in
        (flag : ℕ → Bool) × (before : ℕ → Slot R) × (left : ℕ → Slot R) × (b.successful
          ≡ tabulate n 0 flag)
        × (b.slots ≡ tabulate n 0 before)
        × (teardown p b ≡ unwound p (tabulate n 0 left))
        × ((i : ℕ) → i < n → Drops (flag i) (before i) (left i))
  teardown-interleave schedule p below =
      let s = interleave (par_chunks w c) schedule (start n work_at mem) in
      let (done, a) =
        interleave-Along w c m k fits work mem schedule [] (start n work_at mem) below
          (start_PoolAlong w c m k fits work mem) in
      let flag = flagged w c m fits work_at given s.phases in
      let before = slot_at out done in
      let left : ℕ → Slot R = λ i. torn (flag i) (before i) in
      let drops : (i : ℕ) → i < n → Drops (flag i) (before i) (left i) = λ i lt.
        filled-Drops (is_over (s.phases i)) (contains done i) (out i) (
          over_done done i (as_slice s.memory (get_unchecked_chunk (par_chunks w c) i)) (s.phases i)
            (a.0.stages i lt)) in
      (
        flag,
        before,
        left,
        a.1.flags,
        a.1.slots,
        teardown-Drops n flag before left s.buffer p a.1.flags a.1.slots drops,
        drops,
      )
