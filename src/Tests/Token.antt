-- ===== src/Tests/Token.antt =====
-- src/token and src/cell at concrete programs.
use melinoe.Prelude.{
  ℕ, ◌≡◌, refl, Bool, true, false, List, [], ◌∷◌, ◌++◌, Option, none, some, get_elem?, ◌>>=◌,
  some-inj, ap, sym,
}
use melinoe.Token.{
  exclusive_family, sync_region_family, thread_local_family, Token, by_ref, by_mut, by_shared,
  Permit, lent, moved, new_unchecked,
}
use melinoe.Token.World.{
  MelinoeCell, Loan, held, view, is_exclusive, World, empty, with_cells, with_tokens, lend, store,
  replace,
}
use melinoe.Token.Run.{
  Event, opens, lends, shares, copies, releases, sends_permit, sends_view, allocates, borrows_slice,
  borrows_slice_mut, borrows, borrows_mut, writes_to, step, run,
}
use melinoe.Token.Exclusion.{permits_exclude, aliased_views_shared}
use melinoe.Token.Exclusion.Frozen.{Undisturbed, viewed_cell-run}
use melinoe.Token.Threads.{thread_local-stays}
use melinoe.Token.Access.{replace-unborrowed}

-- Two brands with three cells each, a `&mut` slice of the first brand, and two readers of the second,
-- one of them on another thread.
abbrev two_brands : List (Event ℕ)
two_brands =
    opens exclusive_family 7
    ∷ opens sync_region_family 7
    ∷ allocates 0 (10 ∷ 11 ∷ 12 ∷ [])
    ∷ allocates 1 (20 ∷ 21 ∷ 22 ∷ [])
    ∷ lends 0 true
    ∷ borrows_slice_mut 0 0 3
    ∷ lends 1 false
    ∷ shares 0
    ∷ sends_permit 0 8
    ∷ borrows_slice 0 3 3
    ∷ borrows 1 4
    ∷ []

abbrev region : Token
region = new_unchecked 1 sync_region_family 7

abbrev cell : ℕ → ℕ → MelinoeCell ℕ
cell brand value = record { brand = brand; value = value }

abbrev both_in_use : World ℕ
both_in_use = record {
  next = 2;
  tokens = new_unchecked 0 exclusive_family 7 ∷ region ∷ [];
  loans =
      view (moved 8 (lent 1 region by_shared)) false 3 3
      ∷ view (lent 1 region by_ref) false 4 1
      ∷ view (lent 0 (new_unchecked 0 exclusive_family 7) by_mut) true 0 3
      ∷ [];
  cells = cell 0 10 ∷ cell 0 11 ∷ cell 0 12 ∷ cell 1 20 ∷ cell 1 21 ∷ cell 1 22 ∷ [];
}

both_in_use_reached : run two_brands (empty ℕ) ≡ some both_in_use
unfolding run
both_in_use_reached = refl

aliased_views_shared_example : (false ≡ false) × (false ≡ false)
aliased_views_shared_example =
    aliased_views_shared two_brands both_in_use 0 1 4 _ _ both_in_use_reached (λ e. cc) refl refl
      refl refl

permits_exclude_example : (false ≡ false) × (false ≡ false)
permits_exclude_example =
    permits_exclude two_brands both_in_use 0 1 _ _ both_in_use_reached (λ e. cc) refl refl refl

-- While the reader on the other thread looks at its slice, the writer of the other brand writes, and
-- the second reader goes.
abbrev meanwhile : List (Event ℕ)
meanwhile = writes_to 2 1 99 ∷ releases 1 ∷ []

abbrev sent_slice : Loan
sent_slice = view (moved 8 (lent 1 region by_shared)) false 3 3

abbrev written_and_released : World ℕ
written_and_released = record {
  next = 2;
  tokens = both_in_use.tokens;
  loans = sent_slice ∷ view (lent 0 (new_unchecked 0 exclusive_family 7) by_mut) true 0 3 ∷ [];
  cells = store 1 99 both_in_use.cells;
}

meanwhile-Undisturbed : Undisturbed sent_slice 4 meanwhile both_in_use
unfolding step
meanwhile-Undisturbed = (
  (0, refl, λ x h e. cc),
  λ u s. ((0, ap (λ w. get_elem? w.loans 0) (sym (some-inj s)), λ x h e. cc), λ t r. tt),
)

viewed_cell-run_example : some (cell 1 21) ≡ some (cell 1 21)
unfolding run
viewed_cell-run_example =
    viewed_cell-run two_brands meanwhile both_in_use written_and_released 4 sent_slice
      both_in_use_reached refl meanwhile-Undisturbed refl

-- A thread's token is borrowed twice; another thread is offered nothing.
abbrev one_thread : List (Event ℕ)
one_thread = opens thread_local_family 3 ∷ allocates 0 (5 ∷ []) ∷ []

abbrev opened : World ℕ
opened = record {
  next = 1;
  tokens = new_unchecked 0 thread_local_family 3 ∷ [];
  loans = [];
  cells = cell 0 5 ∷ [];
}

abbrev lent_twice : World ℕ
lent_twice = record {
  next = 1;
  tokens = new_unchecked 0 thread_local_family 3 ∷ [];
  loans =
      held (lent 0 (new_unchecked 0 thread_local_family 3) by_ref)
      ∷ held (lent 0 (new_unchecked 0 thread_local_family 3) by_ref)
      ∷ [];
  cells = cell 0 5 ∷ [];
}

opened_reached : run one_thread (empty ℕ) ≡ some opened
unfolding run
opened_reached = refl

lent_twice_reached : run (lends 0 false ∷ copies 0 ∷ []) opened ≡ some lent_twice
unfolding run
lent_twice_reached = refl

thread_local-stays_example :
    (get_elem? lent_twice.tokens 0 ≡ some (new_unchecked 0 thread_local_family 3))
    × ((j : ℕ) (p : Permit)
        → get_elem? lent_twice.loans j ≡ some (held p)
        → p.owner ≡ 0
        → p.thread ≡ 3)
thread_local-stays_example =
    thread_local-stays one_thread (lends 0 false ∷ copies 0 ∷ []) opened lent_twice 0
      (new_unchecked 0 thread_local_family 3) opened_reached refl refl lent_twice_reached

replace-unborrowed_example :
    (lend 0 true opened >>= replace 0 0 6) ≡ some (5, with_cells opened (store 0 6 opened.cells))
replace-unborrowed_example =
    replace-unborrowed opened 0 0 6 (new_unchecked 0 thread_local_family 3) (cell 0 5) refl refl
      refl refl

-- What does not compile: a second `&mut token`, a view of another brand's cell, a write by a reader, a
-- permit of a thread's token on another thread, and `share` on it.
second_writer : run (lends 0 true ∷ lends 0 true ∷ []) opened ≡ none
unfolding run
second_writer = refl

foreign_cell : run (releases 0 ∷ lends 1 false ∷ borrows 0 0 ∷ []) both_in_use ≡ none
unfolding run
foreign_cell = refl

reader_writes : run (lends 0 false ∷ borrows_mut 0 0 ∷ []) opened ≡ none
unfolding run
reader_writes = refl

permit_leaves : run (lends 0 false ∷ sends_permit 0 4 ∷ []) opened ≡ none
unfolding run
permit_leaves = refl

token_shared : run (lends 0 false ∷ shares 0 ∷ []) opened ≡ none
unfolding run
token_shared = refl

-- A view may leave the thread of its token, and so may a cell of its brand: only the token and its
-- borrows are confined.
view_leaves :
    (run (lends 0 false ∷ borrows 0 0 ∷ sends_view 0 4 ∷ []) opened >>= λ w. get_elem? w.loans 0)
    ≡ some (view (moved 4 (lent 0 (new_unchecked 0 thread_local_family 3) by_ref)) false 0 1)
unfolding run
view_leaves = refl

-- A second token of a brand, which only `new_unchecked` makes, gives two `&mut` views of one cell.
abbrev forged : World ℕ
forged = with_tokens opened (opened.tokens ++ (new_unchecked 0 exclusive_family 3 ∷ []))

abbrev views : Option (World ℕ) → List Bool
views none = []
views (some w) = exclusives w.loans
  where
    exclusives : List Loan → List Bool
    exclusives [] = []
    exclusives (l ∷ ls) = is_exclusive l ∷ exclusives ls

forged_token :
    views (run (lends 0 true ∷ borrows_mut 0 0 ∷ lends 1 true ∷ borrows_mut 0 0 ∷ []) forged)
    ≡ true ∷ true ∷ []
unfolding run
forged_token = refl
