-- ===== src/Reentrant/Exclusive.antt =====
-- src/reentrant: a gate lets in one caller at a time and is idle afterwards.
use mathlib.Core.Path.{subst}
use melinoe.Prelude.{
  ℕ, ◌-◌, ◌≤◌, ◌≡◌, refl, sym, ap, ◌∙◌, Bool, true, false, List, [], ◌∷◌, max, arith,
}
use melinoe.Machine.{Outcome, returned}
use melinoe.Reentrant.{Entry, reentered, ok, GuardedCell, enter, enter_unguarded}
use melinoe.Reentrant.Program.{Body, gives, panics, writes, reads, nests, run, alone, calls}

module _ {T : Type 0} where
  -- A cell whose flag is set, with `n` borrows.
  abbrev held : T → ℕ → ℕ → GuardedCell T
  held v n peak = record { active = true; value = v; live = n; peak = peak }

  abbrev pub idle : T → ℕ → GuardedCell T
  idle v peak = record { active = false; value = v; live = 0; peak = peak }

module _ {P R T : Type 0} where
  -- Under the flag a closure works as if it were alone, and makes no other borrow.
  run-held :
      (b : Body P R T) (v : T) (n peak : ℕ)
      → run b (held v n peak) ≡ ((alone b v).0, held (alone b v).1 n peak)
  unfolding run enter enter_unguarded
  run-held (gives r) v n peak = refl
  run-held (panics p) v n peak = refl
  run-held (writes g k) v n peak = run-held k (g v) n peak
  run-held (reads k) v n peak = run-held (k v) v n peak
  run-held (nests true b k) v n peak = run-held (k (returned reentered)) v n peak
  run-held (nests false b k) v n peak = run-held (k (returned reentered)) v n peak

  -- Entering an idle cell runs the closure, whatever it does, also when it enters the cell again, by
  -- `enter` or by `enter_unguarded`, and when it panics: its nested calls are all refused without
  -- running, it has the outcome and the effect on the value that it has alone, there is never more
  -- than one `&mut T`, and afterwards the cell is idle again.
  pub enter_exclusive :
      (b : Body P R T) (v : T) (peak : ℕ)
      → enter (run b) (idle v peak) ≡ (ok (alone b v).0, idle (alone b v).1 (max peak 1))
  unfolding enter
  enter_exclusive b v peak =
      ap
        (λ r. (
          ok r.0,
          record { active = false; value = r.1.value; live = r.1.live - 1; peak = r.1.peak },
        ))
        (run-held b v 1 (max peak 1))

  -- The outcomes and the value of closures that run one after another, each alone.
  abbrev pub each_alone : List (Body P R T) → T → List (Outcome P (Entry R)) × T
  each_alone [] v = ([], v)
  each_alone (b ∷ bs) v = let (o, w) = alone b v in let (os, u) = each_alone bs w in (ok o ∷ os, u)

  abbrev AsAlone :
      List (Outcome P (Entry R)) × T → List (Outcome P (Entry R)) × GuardedCell T → Type 0
  AsAlone (os, v) (got, c) =
      (got ≡ os) × (c.value ≡ v) × (c.active ≡ false) × (c.live ≡ 0) × (c.peak ≤ 1)

  -- A panic does not poison the cell: of any sequence of calls on an idle cell each runs its closure,
  -- on the value that the ones before it left, there is never more than one `&mut T`, and the cell is
  -- idle at the end.
  pub calls-each_alone :
      (bs : List (Body P R T)) (v : T) (peak : ℕ)
      → peak ≤ 1
      → ((calls bs (idle v peak)).0 ≡ (each_alone bs v).0)
        × ((calls bs (idle v peak)).1.value ≡ (each_alone bs v).1)
        × ((calls bs (idle v peak)).1.active ≡ false)
        × ((calls bs (idle v peak)).1.live ≡ 0)
        × ((calls bs (idle v peak)).1.peak ≤ 1)
  unfolding calls
  calls-each_alone [] v peak h = (refl, refl, refl, refl, h)
  calls-each_alone (b ∷ bs) v peak h =
      let (os, w, a, l, m) = calls-each_alone bs (alone b v).1 (max peak 1) (omega arith) in
      subst (AsAlone (each_alone (b ∷ bs) v))
        (sym (ap (λ r. let (os, d) = calls bs r.1 in (r.0 ∷ os, d)) (enter_exclusive b v peak)))
        (ap (◌∷◌ (ok (alone b v).0)) os, w, a, l, m)

  -- A body that makes no nested call.
  abbrev pub IsFlat : Body P R T → Type 0
  IsFlat (gives r) = Unit {0}
  IsFlat (panics p) = Unit {0}
  IsFlat (writes g k) = IsFlat k
  IsFlat (reads k) = (v : T) → IsFlat (k v)
  IsFlat (nests guarded b k) = ⊥

  run-IsFlat :
      (b : Body P R T) (v : T) (n peak : ℕ) (active : Bool)
      → IsFlat b
      → run b (record { active = active; value = v; live = n; peak = peak })
        ≡ ((alone b v).0, record { active = active; value = (alone b v).1; live = n; peak = peak })
  unfolding run
  run-IsFlat (gives r) v n peak active h = refl
  run-IsFlat (panics p) v n peak active h = refl
  run-IsFlat (writes g k) v n peak active h = run-IsFlat k (g v) n peak active h
  run-IsFlat (reads k) v n peak active h = run-IsFlat (k v) v n peak active (h v)
  run-IsFlat (nests guarded b k) v n peak active h = absurd h

  -- For a closure that keeps to the contract of `enter_unguarded` and makes no nested call, the two
  -- ways to enter an idle cell come to the same.
  pub enter_unguarded-IsFlat :
      (b : Body P R T) (v : T) (peak : ℕ)
      → IsFlat b
      → enter_unguarded (run b) (idle v peak) ≡ enter (run b) (idle v peak)
  unfolding enter_unguarded enter
  enter_unguarded-IsFlat b v peak h =
      ap
        (λ r. (
          ok r.0,
          record { active = r.1.active; value = r.1.value; live = r.1.live - 1; peak = r.1.peak },
        ))
        (run-IsFlat b v 1 (max peak 1) false h)
      ∙ sym (enter_exclusive b v peak)
