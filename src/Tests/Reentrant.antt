-- ===== src/Tests/Reentrant.antt =====
-- src/reentrant at a closure that enters its cell again and then panics.
use melinoe.Prelude.{ℕ, ◌+◌, ◌≤◌, ◌≡◌, refl, true, false, [], ◌∷◌, max, arith}
use melinoe.Machine.{returned, panicked}
use melinoe.Reentrant.{entered, reentered, ok, new, enter, enter_unguarded}
use melinoe.Reentrant.Program.{Body, gives, panics, writes, reads, nests, run, alone, calls}
use melinoe.Reentrant.Exclusive.{idle, enter_exclusive, calls-each_alone}

-- It adds 1, tries to set the value to 99, adds what it got for that, and panics with the value.
abbrev greedy : Body ℕ ℕ ℕ
greedy =
    writes (λ v. v + 1)
      (nests true (writes (λ v. 99) (gives 5)) (λ o. elim o [
        | returned r ↦ elim r [
          | entered n ↦ writes (λ v. v + n) (gives 0)
          | reentered ↦ reads (λ v. panics v)
        ]
        | panicked p ↦ gives 1
      ]))

enter_exclusive_example :
    enter (run greedy) (idle 41 0) ≡ (ok (alone greedy 41).0, idle (alone greedy 41).1 (max 0 1))
enter_exclusive_example = enter_exclusive greedy 41 0

enter-run : enter (run greedy) (new 41) ≡ (panicked 42, idle 42 1)
unfolding enter run new
enter-run = refl

calls-each_alone_example :
    ((calls (greedy ∷ greedy ∷ []) (idle 41 0)).0 ≡ panicked 42 ∷ panicked 43 ∷ [])
    × ((calls (greedy ∷ greedy ∷ []) (idle 41 0)).1.value ≡ 43)
    × ((calls (greedy ∷ greedy ∷ []) (idle 41 0)).1.active ≡ false)
    × ((calls (greedy ∷ greedy ∷ []) (idle 41 0)).1.live ≡ 0)
    × ((calls (greedy ∷ greedy ∷ []) (idle 41 0)).1.peak ≤ 1)
calls-each_alone_example = calls-each_alone (greedy ∷ greedy ∷ []) 41 0 (omega arith)

-- Without the flag a nested call makes a second `&mut`, which is why its contract forbids it.
unguarded_entry : enter_unguarded (run greedy) (new 41) ≡ (returned (entered 0), idle 104 2)
unfolding enter_unguarded run new
unguarded_entry = refl
