-- ===== src/Atomic/Phases.antt =====
-- src/atomic/branded.rs under the permits of src/token: which accesses to a branded atomic a program
-- can make, and when.
pub mod Apart
use melinoe.Prelude.{
  ℕ, ◌==◌, Bool, true, false, not, ◌&&◌, List, [], ◌∷◌, Option, none, some, get_elem?,
  if◌then◌else◌, ◌>>=◌, ◌>>◌, guard,
}
use melinoe.Token.{Permit, writes}
use melinoe.Token.World.{
  MelinoeCell, Loan, permit_at, covers, is_exclusive, remove_at, with_loans, with_cells, store,
  World, borrow_mut, write, release, held, view,
}
use melinoe.Token.Run.{Event, step as token_step}
use melinoe.Atomic.Branded.{BrandedAtomic, with_exclusive}

-- What the memory of a brand holds: the values of cells and branded atomics. A `&mut` view of an
-- atomic is the plain access of `with_exclusive`, a `&` view of it the `&A` of `as_atomic`.
pub data Content (V : Type 0) : Type 0 where
  value : V → Content V
  atom : BrandedAtomic → Content V

module _ {V : Type 0} where
  abbrev pub atom_of : Content V → Option BrandedAtomic
  atom_of (value v) = none
  atom_of (atom a) = some a

  -- The permit that a call takes: `&mut token` ends with the call, the others are `Copy`.
  abbrev pub after_call : ℕ → Permit → World (Content V) → World (Content V)
  after_call l p w = if writes p.mode then with_loans w (remove_at l w.loans) else w

  -- An atomic operation on the atomic at `k`, under the permit at place `l`.
  unfoldable pub operate :
      {R : Type 0}
      → ℕ
      → ℕ
      → (BrandedAtomic → R × BrandedAtomic)
      → World (Content V)
      → Option (R × World (Content V))
  operate l k op w = do
    p ← permit_at l w
    c ← get_elem? w.cells k
    guard (c.brand == p.brand)
    a ← atom_of c.value
    let (r, a') = op a
    some (r, after_call l p (with_cells w (store k (atom a') w.cells)))

  -- An operation of the standard library on the `&A` that `as_atomic` gave, the view at place `l`.
  unfoldable pub operate_view :
      {R : Type 0}
      → ℕ
      → ℕ
      → (BrandedAtomic → R × BrandedAtomic)
      → World (Content V)
      → Option (R × World (Content V))
  operate_view l k op w = do
    loan ← get_elem? w.loans l
    guard (not (is_exclusive loan) && covers loan k)
    c ← get_elem? w.cells k
    a ← atom_of c.value
    let (r, a') = op a
    some (r, with_cells w (store k (atom a') w.cells))

  -- `with_exclusive` under the permit at place `l`, from its plain borrow to the end of the closure.
  unfoldable pub exclusive :
      {R : Type 0} → ℕ → ℕ → (ℕ → R × ℕ) → World (Content V) → Option (R × World (Content V))
  unfolding borrow_mut write release with_exclusive
  exclusive l k f w = do
    borrowed ← borrow_mut l k w
    c ← get_elem? borrowed.cells k
    a ← atom_of c.value
    let (r, a') = with_exclusive f a
    written ← write l k (atom a') borrowed
    released ← release l written
    some (r, released)

-- What a program does next: something with its tokens and cells, the start and the end of a plain
-- access included, or an atomic operation.
pub data Action (V : Type 0) : Type 0 where
  token_event : Event (Content V) → Action V
  operates operates_view : ℕ → ℕ → (BrandedAtomic → Unit {0} × BrandedAtomic) → Action V

module _ {V : Type 0} where
  unfoldable pub act : Action V → World (Content V) → Option (World (Content V))
  unfolding token_step operate operate_view
  act (token_event e) w = token_step e w
  act (operates l k op) w = operate l k op w >>= λ r. some r.1
  act (operates_view l k op) w = operate_view l k op w >>= λ r. some r.1

  unfoldable pub act_all : List (Action V) → World (Content V) → Option (World (Content V))
  unfolding act
  act_all [] w = some w
  act_all (x ∷ xs) w = act x w >>= act_all xs
