-- ===== src/Tests/Queue.antt =====
-- src/collections/deque at a deque whose storage wraps.
use melinoe.Prelude.{ℕ, ◌+◌, ◌≡◌, refl, true, false, ltb, none, some, List, [], ◌∷◌}
use melinoe.Cell.{borrow_policy, borrow, retain}
use melinoe.Queue.{BrandedVecDeque, BrandedVecDequeDrain, of, drain_of}
use melinoe.Queue.Program.{
  Op, pushes_front, pops_front, splits_off, swaps, drains, appends, retains, gets, writes, counts,
  reads_cow, reads_cow_if, clones, Seen, nothing, refused, value, values, number, state, view, run,
  laid_out, replay,
}
use melinoe.Queue.Refines.{viewed}
use melinoe.Queue.Drains.{next, next_back}
use melinoe.Drain.{take_ends}

abbrev copy : ℕ → ℕ
copy n = n

-- Two values before the wrap and two after it.
abbrev wrapped : BrandedVecDeque ℕ
wrapped = of (record { front = 1 ∷ 2 ∷ []; back = 3 ∷ 4 ∷ [] })

-- The two values before the wrap are popped, so that the first view is a copy and the second is not.
abbrev program : List (ℕ × Op ℕ ℕ)
program =
    (0, gets 2)
    ∷ (0, reads_cow borrow_policy)
    ∷ (0, pops_front)
    ∷ (0, pops_front)
    ∷ (0, reads_cow borrow_policy)
    ∷ (0, reads_cow_if retain)
    ∷ (1, pushes_front 0)
    ∷ (0, swaps 0 2)
    ∷ (0, swaps 0 5)
    ∷ (0, writes 1 (λ n. n + 4))
    ∷ (0, writes 8 (λ n. n + 4))
    ∷ (1, drains 1 2)
    ∷ (1, retains (λ n sum. (ltb n 4, n + 1, sum + n)) 0)
    ∷ (0, appends (8 ∷ 9 ∷ []))
    ∷ (0, reads_cow_if borrow)
    ∷ (1, clones)
    ∷ (1, splits_off 1)
    ∷ (0, counts)
    ∷ []

abbrev seen : List (Seen ℕ ℕ)
seen =
    value (some 3)
    ∷ view false (1 ∷ 2 ∷ 3 ∷ 4 ∷ [])
    ∷ value (some 1)
    ∷ value (some 2)
    ∷ view true (3 ∷ 4 ∷ [])
    ∷ view false (3 ∷ 4 ∷ [])
    ∷ nothing
    ∷ nothing
    ∷ refused
    ∷ value (some 3)
    ∷ value none
    ∷ values (7 ∷ [])
    ∷ state 4
    ∷ nothing
    ∷ view true (1 ∷ 8 ∷ 9 ∷ [])
    ∷ values (1 ∷ 8 ∷ 9 ∷ [])
    ∷ values (8 ∷ 9 ∷ [])
    ∷ number 1
    ∷ []

replay-program : replay (laid_out copy program wrapped) (1 ∷ 2 ∷ 3 ∷ 4 ∷ []) ≡ (seen, 1 ∷ [])
unfolding laid_out
replay-program = refl

run-program : viewed (run copy program wrapped) ≡ (seen, 1 ∷ [])
unfolding run
run-program = refl

abbrev two : BrandedVecDequeDrain ℕ
two = drain_of (1 ∷ 2 ∷ [])

next-next_back_run :
    take_ends next next_back (false ∷ true ∷ false ∷ []) two ≡ (1 ∷ [], 2 ∷ [], drain_of [])
unfolding next next_back
next-next_back_run = refl
