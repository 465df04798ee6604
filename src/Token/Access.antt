-- ===== src/Token/Access.antt =====
-- src/cell: what a program gets by an access that compiles.
use melinoe.Prelude.{
  ℕ, ◌+◌, ==_refl, leb, lt→ltb, ◌≡◌, refl, true, map, some, get_elem?, ◌>>=◌, arith,
}
use melinoe.Token.{Token, by_mut, lent, clear}
use melinoe.Token.World.{
  MelinoeCell, permit_of, World, with_cells, lend, borrow_mut, write, release, store, replace,
}

leb_refl : (k : ℕ) → leb k k ≡ true
leb_refl k = ground arith

module _ {T : Type 0} where
  -- While nothing borrows a token, `&mut token` serves to replace the value of any cell of its brand:
  -- the call returns the value that the cell had, changes that cell alone, and the token is then as
  -- little borrowed as before.
  pub replace-unborrowed :
      (w : World T) (i k : ℕ) (x : T) (t : Token) (c : MelinoeCell T)
      → get_elem? w.tokens i ≡ some t
      → clear (lent i t by_mut) (map permit_of w.loans) ≡ true
      → get_elem? w.cells k ≡ some c
      → c.brand ≡ t.brand
      → (lend i true w >>= replace 0 k x) ≡ some (c.value, with_cells w (store k x w.cells))
  unfolding lend replace borrow_mut write release
  replace-unborrowed w i k x t c g u f e =
      rw (g, u, f, e, ==_refl t.brand, f, leb_refl k, lt→ltb k (k + 1) (omega arith)) refl
