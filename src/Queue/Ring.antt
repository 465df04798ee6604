-- ===== src/Queue/Ring.antt =====
-- The standard library's `VecDeque` under src/collections/deque: its values lie in two segments, one
-- after the other. Where an operation may move them, `seam` says how many are in the first segment
-- afterwards, which the library chooses.
pub mod Contents
use melinoe.Prelude.{
  ℕ, zero, suc, ◌+◌, ◌-◌, Bool, true, false, ◌&&◌, ◌||◌, Option, none, some, List, [], ◌∷◌, ◌++◌,
  length, get_elem?, set, take, drop, ltb, leb, if◌then◌else◌,
}
use melinoe.Cell.{no_elements}
use melinoe.Drain.{last_of}

pub record VecDeque (A : Type 0) : Type 0 where
  pub front : List A
  pub back : List A

module _ {A : Type 0} where
  abbrev pub contents : VecDeque A → List A
  contents q = q.front ++ q.back

  -- The library shows values as the second segment only if there are some in the first.
  abbrev pub settled : List A → List A → VecDeque A
  settled [] ys = record { front = ys; back = [] }
  settled (x ∷ xs) ys = record { front = x ∷ xs; back = ys }

  abbrev pub laid : ℕ → List A → VecDeque A
  laid seam xs = settled (take seam xs) (drop seam xs)

  abbrev pub vacant : VecDeque A
  vacant = record { front = []; back = [] }

  unfoldable pub len : VecDeque A → ℕ
  len q = length q.front + length q.back

  unfoldable pub is_empty : VecDeque A → Bool
  is_empty q = no_elements q.front && no_elements q.back

  unfoldable pub get : ℕ → VecDeque A → Option A
  get index q =
      if ltb index (length q.front)
      then get_elem? q.front index
      else get_elem? q.back (index - length q.front)

  unfoldable pub put : ℕ → A → VecDeque A → VecDeque A
  put index value q =
      if ltb index (length q.front)
      then record { front = set q.front index value; back = q.back }
      else record { front = q.front; back = set q.back (index - length q.front) value }

  unfoldable pub extend : ℕ → List A → VecDeque A → VecDeque A
  extend seam values q = laid seam (contents q ++ values)

  unfoldable pub push_back : ℕ → A → VecDeque A → VecDeque A
  push_back seam value q = laid seam (contents q ++ (value ∷ []))

  unfoldable pub push_front : ℕ → A → VecDeque A → VecDeque A
  push_front seam value q = laid seam (value ∷ contents q)

  unfoldable pub pop_back : VecDeque A → Option A × VecDeque A
  pop_back q =
      if no_elements q.back
      then (let (x, rest) = last_of q.front in (x, record { front = rest; back = [] }))
      else let (x, rest) = last_of q.back in (x, record { front = q.front; back = rest })

  unfoldable pub pop_front : VecDeque A → Option A × VecDeque A
  pop_front q =
      if no_elements q.front
      then (get_elem? q.back 0, settled [] (drop 1 q.back))
      else (get_elem? q.front 0, settled (drop 1 q.front) q.back)

  unfoldable pub truncate : ℕ → VecDeque A → VecDeque A
  truncate len q =
      if leb len (length q.front)
      then record { front = take len q.front; back = [] }
      else record { front = q.front; back = take (len - length q.front) q.back }

  unfoldable pub swap : ℕ → ℕ → VecDeque A → Option (VecDeque A)
  swap a b q = elim (get a q) [
    | none ↦ none
    | some x ↦ elim (get b q) [ none ↦ none | some y ↦ some (put b x (put a y q)) ]
  ]

  unfoldable pub drain : ℕ → ℕ → ℕ → VecDeque A → Option (List A × VecDeque A)
  drain seam start end q =
      if ltb end start || ltb (len q) end
      then none
      else some (
        take (end - start) (drop start (contents q)),
        laid seam (take start (contents q) ++ drop end (contents q)),
      )

  unfoldable pub split_off : ℕ → ℕ → VecDeque A → Option (VecDeque A × VecDeque A)
  split_off seam at q =
      if ltb (len q) at then none else some (truncate at q, laid seam (drop at (contents q)))

  abbrev pub retained : {S : Type 0} → (A → S → Bool × A × S) → List A → S → List A × S
  retained f [] s = ([], s)
  retained f (x ∷ xs) s =
      let (stays, y, t) = f x s in
      let (rest, u) = retained f xs t in ((if stays then y ∷ rest else rest), u)

  unfoldable pub retain_mut :
      {S : Type 0} → ℕ → (A → S → Bool × A × S) → S → VecDeque A → VecDeque A × S
  retain_mut seam f s q = let (xs, t) = retained f (contents q) s in (laid seam xs, t)
