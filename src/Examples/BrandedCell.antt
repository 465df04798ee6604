-- ===== src/Examples/BrandedCell.antt =====
-- examples/book_branded_cell.rs: three scopes, each of which ends with assertions. `none` stands for
-- an assertion that fails, and for a step that does not compile.
use melinoe.Prelude.{ℕ, ◌+◌, ◌%◌, ◌^◌, ◌==◌, ◌&&◌, [], ◌∷◌, Option, some, ◌>>=◌, ◌>>◌, guard}
use melinoe.Token.World.{World, empty, brand_scope, keep, allocate}
use melinoe.Guard.{Reference, through}
use melinoe.Guard.Exclusive.{new, map_split, deref_mut}
use melinoe.Examples.Client.{read_mut, update, snapshot, read_snap}

-- `*counter.borrow_mut(&mut token) += *step.borrow_mut(&mut token);`, for a counter at place 0 and a
-- step at place 1. The right side is evaluated first.
unfoldable add_step : World ℕ → Option (World ℕ)
unfolding read_mut update
add_step w = do step ← read_mut 0 1 w; update 0 0 (λ v. (v + step.0) % (2 ^ 64)) step.1

unfoldable pub counter_and_step : ℕ → ℕ → (ℕ → ℕ → World ℕ → Option (World ℕ)) → Option (World ℕ)
unfolding brand_scope allocate add_step snapshot read_snap
counter_and_step first amount check =
    brand_scope 0
      (λ token opened. do
        w0 ← keep token opened
        w1 ← allocate token.brand (first ∷ amount ∷ []) w0
        w2 ← add_step w1
        w3 ← add_step w2
        w4 ← snapshot 0 w3
        counter ← read_snap 0 0 w4
        step ← read_snap 0 1 counter.1
        check counter.0 step.0 step.1)
      (empty ℕ)

abbrev whole : Reference (ℕ × ℕ) (ℕ × ℕ)
whole = record { read = λ t. t; write = λ v t. v }

abbrev first_field : Reference (ℕ × ℕ) ℕ
first_field = record { read = λ t. t.0; write = λ v t. (v, t.1) }

abbrev second_field : Reference (ℕ × ℕ) ℕ
second_field = record { read = λ t. t.1; write = λ v t. (t.0, v) }

-- `MelinoeMut::map_split(.., |t| (&mut t.0, &mut t.1))`, and a write through each guard.
abbrev write_fields : ℕ → ℕ → ℕ × ℕ → ℕ × ℕ
write_fields x y t =
    let (left, right) =
      map_split (new whole) (λ r. (through r first_field, through r second_field)) in
    deref_mut right y (deref_mut left x t)

unfoldable pub two_fields :
    ℕ → ℕ → (ℕ × ℕ → World (ℕ × ℕ) → Option (World (ℕ × ℕ))) → Option (World (ℕ × ℕ))
unfolding brand_scope allocate map_split new deref_mut update snapshot read_snap
two_fields x y check =
    brand_scope 0
      (λ token opened. do
        w0 ← keep token opened
        w1 ← allocate token.brand ((0, 0) ∷ []) w0
        w2 ← update 0 0 (write_fields x y) w1
        w3 ← snapshot 0 w2
        pair ← read_snap 0 0 w3
        check pair.0 pair.1)
      (empty (ℕ × ℕ))

-- `a` is at place 0 and of the outer brand, `b` at place 1 and of the inner one.
unfoldable pub nested_brands : ℕ → ℕ → (ℕ → ℕ → World ℕ → Option (World ℕ)) → Option (World ℕ)
unfolding brand_scope allocate update snapshot read_snap
nested_brands first second check =
    brand_scope 0
      (λ t1 outer. do
        w0 ← keep t1 outer
        brand_scope 0
            (λ t2 inner. do
              w1 ← keep t2 inner
              w2 ← allocate t1.brand (first ∷ []) w1
              w3 ← allocate t2.brand (second ∷ []) w2
              w4 ← update 0 0 (λ v. (v + 1) % (2 ^ 32)) w3
              w5 ← update 1 1 (λ v. (v + 1) % (2 ^ 32)) w4
              w6 ← snapshot 0 w5
              w7 ← snapshot 1 w6
              a ← read_snap 1 0 w7
              b ← read_snap 0 1 a.1
              check a.0 b.0 b.1)
            w0)
      (empty ℕ)

-- `main`: the scopes with the numbers and the assertions of the program.
unfoldable pub main : Option (Unit {0})
unfolding counter_and_step two_fields nested_brands
main = do
  w1 ← counter_and_step 0 7 (λ counter step w. guard ((counter == 14) && (step == 7)) >> some w)
  w2 ← two_fields 42 99 (λ pair w. guard ((pair.0 == 42) && (pair.1 == 99)) >> some w)
  w3 ← nested_brands 100 200 (λ a b w. guard ((a == 101) && (b == 201)) >> some w)
  some tt
