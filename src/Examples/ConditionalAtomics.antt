-- ===== src/Examples/ConditionalAtomics.antt =====
-- examples/book_conditional_atomics.rs: three scopes, each of which ends with assertions. `none`
-- stands for an assertion that fails, and for a step that does not compile.
use melinoe.Prelude.{ℕ, true, false, ◌==◌, ◌&&◌, Bool, [], ◌∷◌, Option, some, ◌>>=◌, ◌>>◌, guard}
use melinoe.Machine.{Outcome, returned, panicked}
use melinoe.Token.World.{World, empty, brand_scope, keep, allocate, lend, borrow, release}
use melinoe.Atomic.Order.{relaxed, relaxed_policy, acq_rel_policy}
use melinoe.Atomic.Primitive.{fetch_add, atomic_fetch}
use melinoe.Atomic.Branded.{within, new, load_with, fetch_with}
use melinoe.Atomic.Phases.{Content, atom, exclusive, operate, operate_view}
use melinoe.Examples.Client.{snapshot}
use melinoe.Examples.Codegen.{u64}

-- Memory with the atomics of a scope; `P` is the payload of a panic for an ordering.
abbrev Memory : Type 0
Memory = World (Content (Unit {0}))

abbrev gives : {P : Type 0} → ℕ → Outcome P ℕ → Bool
gives n (returned v) = v == n
gives n (panicked p) = false

-- `counter.store_exclusive(value, &mut token);`
abbrev store_plain : ℕ → ℕ → ℕ → Memory → Option Memory
store_plain i k value w = do
  permit ← lend i true w
  r ← exclusive 0 k (λ old. (tt, value)) permit
  some r.1

module _ {P : Type 0} (bad_order : P) where
  -- The snapshot is at place 0 and the atomic at 0.
  abbrev load_snap : Memory → Option (Outcome P ℕ × Memory)
  load_snap w = operate 0 0 (load_with bad_order relaxed_policy) w

  unfoldable pub plain_store_scope : ℕ → (Outcome P ℕ → Memory → Option Memory) → Option Memory
  unfolding brand_scope allocate snapshot lend exclusive operate load_with new
  plain_store_scope value check =
      brand_scope 0
        (λ token opened. do
          w0 ← keep token opened
          w1 ← allocate token.brand (atom (new 0) ∷ []) w0
          w2 ← store_plain 0 0 value w1
          w3 ← snapshot 0 w2
          loaded ← load_snap w3
          check loaded.0 loaded.1)
        (empty (Content (Unit {0})))

  unfoldable pub fetch_add_scope :
      ℕ → ℕ → ℕ → (Outcome P ℕ → Outcome P ℕ → Outcome P ℕ → Memory → Option Memory) → Option Memory
  unfolding brand_scope allocate snapshot lend exclusive operate load_with fetch_with new
  fetch_add_scope seed first second check =
      brand_scope 0
        (λ token opened. do
          w0 ← keep token opened
          w1 ← allocate token.brand (atom (new seed) ∷ []) w0
          w2 ← store_plain 0 0 seed w1
          w3 ← snapshot 0 w2
          prev ← operate 0 0 (fetch_with {P = P} u64 fetch_add first relaxed_policy) w3
          middle ← load_snap prev.1
          prev2 ← operate 0 0 (fetch_with {P = P} u64 fetch_add second acq_rel_policy) middle.1
          last ← load_snap prev2.1
          check prev.0 middle.0 last.0 last.1)
        (empty (Content (Unit {0})))

  -- `a` is the atomic at place `k`, `token` the token at place `i`.
  unfoldable pub counter_increment_interop : ℕ → ℕ → ℕ → Memory → Option Memory
  unfolding snapshot borrow operate_view atomic_fetch release
  counter_increment_interop k i delta w = do
    snap ← snapshot i w
    viewed ← borrow 0 k snap
    r ← operate_view 0 k (within (atomic_fetch {P = P} u64 fetch_add delta relaxed)) viewed
    release 0 r.1

  unfoldable pub interop_scope : ℕ → (Outcome P ℕ → Memory → Option Memory) → Option Memory
  unfolding brand_scope allocate snapshot counter_increment_interop operate load_with new
  interop_scope delta check =
      brand_scope 0
        (λ token opened. do
          w0 ← keep token opened
          w1 ← allocate token.brand (atom (new 0) ∷ []) w0
          w2 ← counter_increment_interop 0 0 delta w1
          w3 ← snapshot 0 w2
          loaded ← load_snap w3
          check loaded.0 loaded.1)
        (empty (Content (Unit {0})))

  -- `main`: the scopes with the numbers and the assertions of the program.
  unfoldable pub main : Option (Unit {0})
  unfolding plain_store_scope fetch_add_scope interop_scope
  main = do
    w1 ← plain_store_scope 42 (λ value w. guard (gives 42 value) >> some w)
    w2 ← fetch_add_scope 100 5 10 (λ prev middle last w.
        guard (gives 100 prev && (gives 105 middle && gives 115 last)) >> some w)
    w3 ← interop_scope 7 (λ value w. guard (gives 7 value) >> some w)
    some tt
