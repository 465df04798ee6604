-- ===== src/Queue/Refines.antt =====
-- src/collections/deque: a deque and the list of its contents.
use mathlib.Core.Option
use melinoe.Prelude.{Option, List}
use melinoe.Cell.{Cow}
use melinoe.Cell.Contents as Cow
use melinoe.Queue.{BrandedVecDeque}
use melinoe.Queue.Ring.{contents}
use melinoe.Queue.Ring as Ring

module _ {A : Type 0} where
  -- What was seen, and the deque without its seam.
  abbrev pub viewed : {R : Type 0} → R × BrandedVecDeque A → R × List A
  viewed (s, q) = (s, contents q.cells)
