-- ===== src/Examples/Client.antt =====
-- examples: the steps that the programs of the book share. `token` is the token at place `i`; a
-- permit that is made for a call stands at place 0 and ends with the call.
use melinoe.Prelude.{ℕ, true, false, Option, some, get_elem?, ◌>>=◌}
use melinoe.Token.World.{World, lend, share_ref, copy, release, borrow, borrow_mut, write}

module _ {T : Type 0} where
  -- `*cell.borrow_mut(&mut token)`, read.
  unfoldable pub read_mut : ℕ → ℕ → World T → Option (T × World T)
  unfolding lend borrow_mut release
  read_mut i k w = do
    permit ← lend i true w
    lent ← borrow_mut 0 k permit
    c ← get_elem? lent.cells k
    released ← release 0 lent
    some (c.value, released)

  -- The same, given anew.
  unfoldable pub update : ℕ → ℕ → (T → T) → World T → Option (World T)
  unfolding lend borrow_mut write release
  update i k f w = do
    permit ← lend i true w
    lent ← borrow_mut 0 k permit
    c ← get_elem? lent.cells k
    written ← write 0 k (f c.value) lent
    release 0 written

  -- `let snap = token.share();`: the permit stays at place 0, the `&token` that it was made of ends.
  unfoldable pub snapshot : ℕ → World T → Option (World T)
  unfolding lend share_ref release
  snapshot i w = do permit ← lend i false w; shared ← share_ref 0 permit; release 1 shared

  -- `*cell.borrow(snap)`, for the snapshot at place `l`, of which the call takes a copy.
  unfoldable pub read_snap : ℕ → ℕ → World T → Option (T × World T)
  unfolding copy borrow release
  read_snap l k w = do
    permit ← copy l w
    lent ← borrow 0 k permit
    c ← get_elem? lent.cells k
    released ← release 0 lent
    some (c.value, released)
