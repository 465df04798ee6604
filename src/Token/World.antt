-- ===== src/Token/World.antt =====
-- src/token, src/cell/melinoe_cell.rs and src/cell/slice.rs as a program that uses them sees them: the
-- tokens, the permits and views in use, and the cells. `none` stands for what does not compile: the
-- rules of borrows are Rust's, the bounds on permits and brands are the crate's.
use melinoe.Prelude.{
  ℕ, zero, suc, ◌==◌, Bool, true, false, not, ◌&&◌, List, [], ◌∷◌, ◌++◌, map, Option, some,
  get_elem?, set, drop, ◌>>=◌, ◌>>◌, guard,
}
use melinoe.Token.{
  Family, exclusive_family, sync_region_family, thread_local_family, share, sends, Token, mint,
  by_mut, writes, Permit, lent, shared_token, moved, permit_sends, clear,
}
pub use melinoe.Token.Loan.{
  Loan, permit_of, covers, unviewed, remove_at, as_held, view_moved, borrow_mode, is_ref, at_thread,
  is_exclusive, held, view,
}

pub record MelinoeCell (T : Type 0) : Type 0 where
  pub brand : ℕ
  pub value : T

-- Are there `n` cells of the brand from the front on?
abbrev pub branded : {T : Type 0} → ℕ → ℕ → List (MelinoeCell T) → Bool
branded brand zero cs = true
branded brand (suc n) [] = false
branded brand (suc n) (c ∷ cs) = (c.brand == brand) && branded brand n cs

-- `next` is the next brand that nothing has; `cells` is the memory.
pub record World (T : Type 0) : Type 0 where
  pub next : ℕ
  pub tokens : List Token
  pub loans : List Loan
  pub cells : List (MelinoeCell T)

abbrev pub empty : (T : Type 0) → World T
empty T = record { next = 0; tokens = []; loans = []; cells = [] }

module _ {T : Type 0} where
  abbrev pub with_loans : World T → List Loan → World T
  with_loans w ls = record { next = w.next; tokens = w.tokens; loans = ls; cells = w.cells }

  abbrev pub with_cells : World T → List (MelinoeCell T) → World T
  with_cells w cs = record { next = w.next; tokens = w.tokens; loans = w.loans; cells = cs }

  abbrev pub with_tokens : World T → List Token → World T
  with_tokens w ts = record { next = w.next; tokens = ts; loans = w.loans; cells = w.cells }

  -- `f` is called with a brand that nothing has yet: it is given for every `'brand`.
  unfoldable pub with_fresh_brand {ℓ} : {R : Type ℓ} → (ℕ → World T → R) → World T → R
  with_fresh_brand f w =
      f w.next (record { next = suc w.next; tokens = w.tokens; loans = w.loans; cells = w.cells })

  unfoldable pub with_fresh_token {ℓ} :
      {R : Type ℓ} → Family → ℕ → (Token → World T → R) → World T → R
  unfolding with_fresh_brand mint
  with_fresh_token family thread f = with_fresh_brand (λ brand w. f (mint family thread brand) w)

  unfoldable pub brand_scope {ℓ} : {R : Type ℓ} → ℕ → (Token → World T → R) → World T → R
  unfolding with_fresh_token
  brand_scope thread f = with_fresh_token exclusive_family thread f

  unfoldable pub sync_region_scope {ℓ} : {R : Type ℓ} → ℕ → (Token → World T → R) → World T → R
  unfolding with_fresh_token
  sync_region_scope thread f = with_fresh_token sync_region_family thread f

  unfoldable pub thread_local_scope {ℓ} : {R : Type ℓ} → ℕ → (Token → World T → R) → World T → R
  unfolding with_fresh_token
  thread_local_scope thread f = with_fresh_token thread_local_family thread f

  -- The closure of a scope keeps the token that it is given.
  abbrev pub keep : Token → World T → Option (World T)
  keep t w = some (with_tokens w (w.tokens ++ (t ∷ [])))

  -- `&token` and `&mut token`, against the borrows of the token in use.
  unfoldable pub lend : ℕ → Bool → World T → Option (World T)
  lend i exclusive w = do
    t ← get_elem? w.tokens i
    guard (clear (lent i t (borrow_mode exclusive)) (map permit_of w.loans))
    some (with_loans w (held (lent i t (borrow_mode exclusive)) ∷ w.loans))

  -- The permit in hand at place `l`.
  abbrev pub permit_at : ℕ → World T → Option Permit
  permit_at l w = get_elem? w.loans l >>= as_held

  -- `token.share()` on a `&token`.
  unfoldable pub share_ref : ℕ → World T → Option (World T)
  unfolding shared_token
  share_ref l w = do
    p ← permit_at l w
    t ← get_elem? w.tokens p.owner
    guard (is_ref p.mode && share t.family)
    some (with_loans w (held (shared_token p) ∷ w.loans))

  -- `&token` and `SharedReadToken` are `Copy`.
  unfoldable pub copy : ℕ → World T → Option (World T)
  copy l w = do
    p ← permit_at l w
    guard (not (writes p.mode))
    some (with_loans w (held p ∷ w.loans))

  -- A permit goes to another thread.
  unfoldable pub send_permit : ℕ → ℕ → World T → Option (World T)
  send_permit l thread w = do
    p ← permit_at l w
    t ← get_elem? w.tokens p.owner
    guard (permit_sends t.family p.mode)
    some (with_loans w (set w.loans l (held (moved thread p))))

  -- A token that is not borrowed goes to another thread.
  unfoldable pub send_token : ℕ → ℕ → World T → Option (World T)
  send_token i thread w = do
    t ← get_elem? w.tokens i
    guard (sends t.family && clear (lent i t by_mut) (map permit_of w.loans))
    some (with_tokens w (set w.tokens i (at_thread thread t)))

  -- A permit or a view is given up.
  unfoldable pub release : ℕ → World T → Option (World T)
  release l w = do loan ← get_elem? w.loans l; some (with_loans w (remove_at l w.loans))

  -- A view goes to another thread, for values that are `Send` and `Sync`: it holds no token.
  unfoldable pub send_view : ℕ → ℕ → World T → Option (World T)
  send_view l thread w = do
    loan ← get_elem? w.loans l
    sent ← view_moved thread loan
    some (with_loans w (set w.loans l sent))

  -- `MelinoeCell::new`, for the brand that its type says.
  unfoldable pub new : ℕ → T → MelinoeCell T
  new brand value = record { brand = brand; value = value }

  -- `from`, and `default` with the value that `T::default` gives.
  unfoldable pub from : ℕ → T → MelinoeCell T
  unfolding new
  from brand value = new brand value

  unfoldable pub default : ℕ → T → MelinoeCell T
  unfolding new
  default brand value = new brand value

  unfoldable pub into_inner : MelinoeCell T → T
  into_inner c = c.value

  -- The values of a `&mut` slice as cells, in its place.
  unfoldable pub from_mut_slice : ℕ → List T → List (MelinoeCell T)
  unfolding new
  from_mut_slice brand values = map (new brand) values

  unfoldable pub from_mut : ℕ → T → MelinoeCell T
  unfolding new
  from_mut brand value = new brand value

  -- A stretch of memory becomes cells of a brand.
  unfoldable pub allocate : ℕ → List T → World T → Option (World T)
  unfolding from_mut_slice
  allocate brand values w = some (with_cells w (w.cells ++ from_mut_slice brand values))

  unfoldable pub borrow_slice : ℕ → ℕ → ℕ → World T → Option (World T)
  borrow_slice l start len w = do
    p ← permit_at l w
    guard (branded p.brand len (drop start w.cells))
    some (with_loans w (set w.loans l (view p false start len)))

  unfoldable pub borrow_slice_mut : ℕ → ℕ → ℕ → World T → Option (World T)
  borrow_slice_mut l start len w = do
    p ← permit_at l w
    guard (writes p.mode && branded p.brand len (drop start w.cells))
    some (with_loans w (set w.loans l (view p true start len)))

  unfoldable pub borrow : ℕ → ℕ → World T → Option (World T)
  borrow l k w = do
    p ← permit_at l w
    c ← get_elem? w.cells k
    guard (c.brand == p.brand)
    some (with_loans w (set w.loans l (view p false k 1)))

  unfoldable pub borrow_mut : ℕ → ℕ → World T → Option (World T)
  borrow_mut l k w = do
    p ← permit_at l w
    c ← get_elem? w.cells k
    guard (writes p.mode && (c.brand == p.brand))
    some (with_loans w (set w.loans l (view p true k 1)))

  abbrev pub store : ℕ → T → List (MelinoeCell T) → List (MelinoeCell T)
  store k v [] = []
  store zero v (c ∷ cs) = record { brand = c.brand; value = v } ∷ cs
  store (suc k) v (c ∷ cs) = c ∷ store k v cs

  -- A write through a `&mut` view, of the cell at `k`.
  unfoldable pub write : ℕ → ℕ → T → World T → Option (World T)
  write l k v w = do
    loan ← get_elem? w.loans l
    guard (is_exclusive loan && covers loan k)
    some (with_cells w (store k v w.cells))

  -- `replace`, which returns the old value: the permit ends with the call.
  unfoldable pub replace : ℕ → ℕ → T → World T → Option (T × World T)
  unfolding borrow_mut write release
  replace l k v w = do
    borrowed ← borrow_mut l k w
    c ← get_elem? borrowed.cells k
    written ← write l k v borrowed
    released ← release l written
    some (c.value, released)

  -- `get_mut`, for a cell that nothing else borrows, and a write through it.
  unfoldable pub get_mut : ℕ → T → World T → Option (World T)
  get_mut k v w = do guard (unviewed w.loans k); some (with_cells w (store k v w.cells))
