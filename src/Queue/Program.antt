-- ===== src/Queue/Program.antt =====
-- src/collections/deque: what a program does with a deque and what it sees, and the same on a list.
use melinoe.Prelude.{
  ℕ, ◌-◌, Bool, true, false, ◌&&◌, ◌||◌, Option, none, some, List, [], ◌∷◌, ◌++◌, length, get_elem?,
  set, take, drop, ltb, if◌then◌else◌,
}
use melinoe.Cell.{
  Cow, borrowed, owned, CowPolicy, borrow_policy, retain_policy, RetainDecision, borrow, retain,
  no_elements,
}
use melinoe.Cell.Contents.{borrows}
use melinoe.Queue.{
  BrandedVecDeque, BrandedVecDequeDrain, len, is_empty, from_iter, extend, push_back, push_front,
  pop_back, pop_front, clear, truncate, swap, drain, split_off, append, retain_mut, into_iter,
}
use melinoe.Queue.Views.{get, get_mut, as_slices, cow_if, cow_with, clone_with}
use melinoe.Queue.Ring.{contents, retained}
use melinoe.Queue.Ring.Contents.{swapped}

abbrev pub chosen : RetainDecision → CowPolicy
chosen borrow = borrow_policy
chosen retain = retain_policy

-- The closure of `retains` has a state of type `S` and does not panic; `writes` takes the guard of
-- `get_mut`, reads through it and then writes what the closure gives.
pub data Op (A S : Type 0) : Type 0 where
  pushes_back pushes_front : A → Op A S
  pops_back pops_front clears : Op A S
  truncates splits_off : ℕ → Op A S
  swaps drains : ℕ → ℕ → Op A S
  appends extends : List A → Op A S
  retains : (A → S → Bool × A × S) → S → Op A S
  gets : ℕ → Op A S
  writes : ℕ → (A → A) → Op A S
  counts asks_empty reads_slices reads_all clones : Op A S
  reads_cow : CowPolicy → Op A S
  reads_cow_if : RetainDecision → Op A S

-- What the caller gets; `refused` is a panic, `state` that of a closure after its calls, `view` a
-- `Cow` and whether it borrows.
pub data Seen (A S : Type 0) : Type 0 where
  nothing refused : Seen A S
  value : Option A → Seen A S
  values : List A → Seen A S
  number : ℕ → Seen A S
  flag : Bool → Seen A S
  state : S → Seen A S
  view : Bool → List A → Seen A S

module _ {A S : Type 0} where
  abbrev pub after_cow : Cow A → Seen A S
  after_cow (borrowed xs) = view true xs
  after_cow (owned xs) = view false xs

  -- What is seen of a guard, and the deque after the write through it, if there is one.
  abbrev pub after_write :
      BrandedVecDeque A
      → (A → A)
      → Option (A × (A → BrandedVecDeque A))
      → Seen A S × BrandedVecDeque A
  after_write q f none = (value none, q)
  after_write q f (some (x, write)) = (value (some x), write (f x))

  -- What is seen of an operation that may panic, which leaves the deque as it was.
  abbrev pub after_swap :
      BrandedVecDeque A → Option (BrandedVecDeque A) → Seen A S × BrandedVecDeque A
  after_swap q none = (refused, q)
  after_swap q (some r) = (nothing, r)

  abbrev pub after_split_off :
      BrandedVecDeque A
      → Option (BrandedVecDeque A × BrandedVecDeque A)
      → Seen A S × BrandedVecDeque A
  after_split_off q none = (refused, q)
  after_split_off q (some (kept, other)) = (values (contents other.cells), kept)

  abbrev pub after_drain :
      BrandedVecDeque A
      → Option (BrandedVecDequeDrain A × BrandedVecDeque A)
      → Seen A S × BrandedVecDeque A
  after_drain q none = (refused, q)
  after_drain q (some (d, rest)) = (values d.inner, rest)

module _ {A S : Type 0} (clone : A → A) where
  unfoldable pub perform : ℕ → Op A S → BrandedVecDeque A → Seen A S × BrandedVecDeque A
  unfolding len is_empty from_iter extend push_back push_front pop_back pop_front clear truncate
      swap drain split_off append retain_mut into_iter get get_mut as_slices cow_if cow_with
      clone_with
  perform seam (pushes_back x) q = (nothing, push_back seam x q)
  perform seam (pushes_front x) q = (nothing, push_front seam x q)
  perform seam pops_back q = let (x, r) = pop_back q in (value x, r)
  perform seam pops_front q = let (x, r) = pop_front q in (value x, r)
  perform seam clears q = (nothing, clear q)
  perform seam (truncates n) q = (nothing, truncate n q)
  perform seam (splits_off at) q = after_split_off q (split_off seam at q)
  perform seam (swaps a b) q = after_swap q (swap a b q)
  perform seam (drains start end) q = after_drain q (drain seam start end q)
  perform seam (appends xs) q = (nothing, (append seam (from_iter 0 xs) q).0)
  perform seam (extends xs) q = (nothing, extend seam xs q)
  perform seam (retains f s) q = let (r, t) = retain_mut seam f s q in (state t, r)
  perform seam (gets i) q = (value (get i q), q)
  perform seam (writes i f) q = after_write q f (get_mut i q)
  perform seam counts q = (number (len q), q)
  perform seam asks_empty q = (flag (is_empty q), q)
  perform seam reads_slices q = let (s1, s2) = as_slices q in (values (s1 ++ s2), q)
  perform seam reads_all q = (values (into_iter q), q)
  perform seam clones q = (values (into_iter (clone_with clone seam q)), q)
  perform seam (reads_cow policy) q = (after_cow (cow_with clone policy q), q)
  perform seam (reads_cow_if decision) q = (after_cow (cow_if clone decision q), q)

  -- The operations of a program, each with the seam that the library chooses.
  unfoldable pub run : List (ℕ × Op A S) → BrandedVecDeque A → List (Seen A S) × BrandedVecDeque A
  unfolding perform
  run [] q = ([], q)
  run ((seam, op) ∷ ops) q =
      let (s, r) = perform seam op q in let (ss, t) = run ops r in (s ∷ ss, t)

  -- The same operations, each with whether the values lie in one segment when it starts.
  unfoldable pub laid_out : List (ℕ × Op A S) → BrandedVecDeque A → List (Bool × Op A S)
  unfolding perform
  laid_out [] q = []
  laid_out ((seam, op) ∷ ops) q =
      (no_elements q.cells.back, op) ∷ laid_out ops (perform seam op q).1

module _ {A S : Type 0} where
  -- The same on a list; `whole` is whether the values lie in one segment.
  abbrev pub expected : Bool → Op A S → List A → Seen A S × List A
  expected whole (pushes_back x) xs = (nothing, xs ++ (x ∷ []))
  expected whole (pushes_front x) xs = (nothing, x ∷ xs)
  expected whole pops_back xs = (value (get_elem? xs (length xs - 1)), take (length xs - 1) xs)
  expected whole pops_front xs = (value (get_elem? xs 0), drop 1 xs)
  expected whole clears xs = (nothing, [])
  expected whole (truncates n) xs = (nothing, take n xs)
  expected whole (splits_off at) xs =
      if ltb (length xs) at then (refused, xs) else (values (drop at xs), take at xs)
  expected whole (swaps a b) xs = elim (swapped a b xs) [
    | none ↦ (refused, xs)
    | some ys ↦ (nothing, ys)
  ]
  expected whole (drains start end) xs =
      if ltb end start || ltb (length xs) end
      then (refused, xs)
      else (values (take (end - start) (drop start xs)), take start xs ++ drop end xs)
  expected whole (appends ys) xs = (nothing, xs ++ ys)
  expected whole (extends ys) xs = (nothing, xs ++ ys)
  expected whole (retains f s) xs = let (ys, t) = retained f xs s in (state t, ys)
  expected whole (gets i) xs = (value (get_elem? xs i), xs)
  expected whole (writes i f) xs = elim (get_elem? xs i) [
    | none ↦ (value none, xs)
    | some x ↦ (value (some x), set xs i (f x))
  ]
  expected whole counts xs = (number (length xs), xs)
  expected whole asks_empty xs = (flag (no_elements xs), xs)
  expected whole reads_slices xs = (values xs, xs)
  expected whole reads_all xs = (values xs, xs)
  expected whole clones xs = (values xs, xs)
  expected whole (reads_cow policy) xs = (view (borrows policy && whole) xs, xs)
  expected whole (reads_cow_if decision) xs = (view (borrows (chosen decision) && whole) xs, xs)

  abbrev pub replay : List (Bool × Op A S) → List A → List (Seen A S) × List A
  replay [] xs = ([], xs)
  replay ((whole, op) ∷ ops) xs =
      let (s, ys) = expected whole op xs in let (ss, zs) = replay ops ys in (s ∷ ss, zs)
