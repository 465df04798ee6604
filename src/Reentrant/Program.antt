-- ===== src/Reentrant/Program.antt =====
-- The closures that src/reentrant is called with, as trees: they read and write the value, enter the
-- cell again, go on after a panic that they catch, return or panic.
use melinoe.Prelude.{Bool, true, false, List, [], ◌∷◌}
use melinoe.Machine.{Outcome, returned, panicked}
use melinoe.Reentrant.{Entry, reentered, GuardedCell, enter, enter_unguarded}

-- `nests guarded b k` calls `enter` or `enter_unguarded` with `b`, under `catch_unwind`.
pub data Body (P R T : Type 0) : Type 0 where
  gives : R → Body P R T
  panics : P → Body P R T
  writes : (T → T) → Body P R T → Body P R T
  reads : (T → Body P R T) → Body P R T
  nests : Bool → Body P R T → (Outcome P (Entry R) → Body P R T) → Body P R T

module _ {P R T : Type 0} where
  unfoldable pub run : Body P R T → GuardedCell T → Outcome P R × GuardedCell T
  unfolding enter enter_unguarded
  run (gives r) c = (returned r, c)
  run (panics p) c = (panicked p, c)
  run (writes g k) c =
      run k (record { active = c.active; value = g c.value; live = c.live; peak = c.peak })
  run (reads k) c = run (k c.value) c
  run (nests true b k) c = let (o, c') = enter (run b) c in run (k o) c'
  run (nests false b k) c = let (o, c') = enter_unguarded (run b) c in run (k o) c'

  -- What the closure means on a value that nothing else can reach: every nested call is refused.
  abbrev pub alone : Body P R T → T → Outcome P R × T
  alone (gives r) v = (returned r, v)
  alone (panics p) v = (panicked p, v)
  alone (writes g k) v = alone k (g v)
  alone (reads k) v = alone (k v) v
  alone (nests guarded b k) v = alone (k (returned reentered)) v

  -- Calls of `enter` one after another; a panic of one is caught before the next.
  unfoldable pub calls :
      List (Body P R T) → GuardedCell T → List (Outcome P (Entry R)) × GuardedCell T
  unfolding enter run
  calls [] c = ([], c)
  calls (b ∷ bs) c = let (o, c') = enter (run b) c in let (os, d) = calls bs c' in (o ∷ os, d)
