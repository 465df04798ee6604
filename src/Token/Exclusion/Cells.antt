-- ===== src/Token/Exclusion/Cells.antt =====
-- src/token and src/cell: what each operation does to the cells.
use melinoe.Prelude.{
  ℕ, zero, suc, ◌<◌, ==→eq, ◌≡◌, ◌≢◌, refl, sym, ap, ◌∙◌, Bool, true, false, List, [], ◌∷◌, some,
  length, get_elem?, arith, some-inj, >>=-eq-some, guard-eq-some,
}
use melinoe.Token.{
  Family, exclusive_family, sync_region_family, thread_local_family, writes, Permit,
}
use melinoe.Token.World.{
  MelinoeCell, Loan, held, is_exclusive, covers, unviewed, World, with_fresh_brand,
  with_fresh_token, brand_scope, sync_region_scope, thread_local_scope, lend, share_ref, copy,
  send_permit, send_token, send_view, release, borrow_slice, borrow_slice_mut, borrow, borrow_mut,
  store, write, replace,
}
use melinoe.Token.Run.{open_scope}
use melinoe.Token.Clear.{&&-eq-true, not-eq-true}
use melinoe.Token.Valid.{brand_at, brand_at-get}
use melinoe.Token.Valid.Permits.{permit_at-held}

pub unviewed-get :
    (ls : List Loan) (i k : ℕ) {l : Loan}
    → unviewed ls k ≡ true
    → get_elem? ls i ≡ some l
    → covers l k ≡ false
unviewed-get [] i k u g = cc
unviewed-get (m ∷ ls) zero k u g =
    ap (λ t. covers t k) (sym (some-inj g)) ∙ not-eq-true _ (&&-eq-true _ _ u).0
unviewed-get (m ∷ ls) (suc i) k u g = unviewed-get ls i k (&&-eq-true _ _ u).1 g

module _ {T : Type 0} where
  pub store_ne :
      (m k : ℕ) (x : T) (cs : List (MelinoeCell T))
      → m ≢ k
      → get_elem? (store m x cs) k ≡ get_elem? cs k
  store_ne m k x [] h = refl
  store_ne zero zero x (c ∷ cs) h = absurd (h refl)
  store_ne zero (suc k) x (c ∷ cs) h = refl
  store_ne (suc m) zero x (c ∷ cs) h = refl
  store_ne (suc m) (suc k) x (c ∷ cs) h = store_ne m k x cs (λ e. h (ap suc e))

  pub brand_at-lt : (cs : List (MelinoeCell T)) (k b : ℕ) → brand_at cs k ≡ some b → k < length cs
  brand_at-lt [] k b h = cc
  brand_at-lt (c ∷ cs) zero b h = omega arith
  brand_at-lt (c ∷ cs) (suc k) b h = omega (arith, brand_at-lt cs k b h)

  -- The operations that leave the cells alone.
  pub open_scope-cells :
      (f : Family) (t : ℕ) (w : World T) {u : World T}
      → open_scope f t w ≡ some u
      → w.cells ≡ u.cells
  unfolding open_scope brand_scope sync_region_scope thread_local_scope with_fresh_token
      with_fresh_brand
  open_scope-cells exclusive_family t w h = ap World.cells (some-inj h)
  open_scope-cells sync_region_family t w h = ap World.cells (some-inj h)
  open_scope-cells thread_local_family t w h = ap World.cells (some-inj h)

  pub lend-cells :
      (i : ℕ) (b : Bool) (w : World T) {u : World T} → lend i b w ≡ some u → w.cells ≡ u.cells
  unfolding lend
  lend-cells i b w h = ground arith

  pub share_ref-cells :
      (l : ℕ) (w : World T) {u : World T} → share_ref l w ≡ some u → w.cells ≡ u.cells
  unfolding share_ref
  share_ref-cells l w h = ground arith

  pub copy-cells : (l : ℕ) (w : World T) {u : World T} → copy l w ≡ some u → w.cells ≡ u.cells
  unfolding copy
  copy-cells l w h = ground arith

  pub send_permit-cells :
      (l t : ℕ) (w : World T) {u : World T} → send_permit l t w ≡ some u → w.cells ≡ u.cells
  unfolding send_permit
  send_permit-cells l t w h = ground arith

  pub send_token-cells :
      (i t : ℕ) (w : World T) {u : World T} → send_token i t w ≡ some u → w.cells ≡ u.cells
  unfolding send_token
  send_token-cells i t w h = ground arith

  pub send_view-cells :
      (l t : ℕ) (w : World T) {u : World T} → send_view l t w ≡ some u → w.cells ≡ u.cells
  unfolding send_view
  send_view-cells l t w h = ground arith

  pub release-cells : (l : ℕ) (w : World T) {u : World T} → release l w ≡ some u → w.cells ≡ u.cells
  unfolding release
  release-cells l w h = ground arith

  pub borrow_slice-cells :
      (l s n : ℕ) (w : World T) {u : World T} → borrow_slice l s n w ≡ some u → w.cells ≡ u.cells
  unfolding borrow_slice
  borrow_slice-cells l s n w h = ground arith

  pub borrow_slice_mut-cells :
      (l s n : ℕ) (w : World T) {u : World T}
      → borrow_slice_mut l s n w ≡ some u
      → w.cells ≡ u.cells
  unfolding borrow_slice_mut
  borrow_slice_mut-cells l s n w h = ground arith

  pub borrow-cells :
      (l k : ℕ) (w : World T) {u : World T} → borrow l k w ≡ some u → w.cells ≡ u.cells
  unfolding borrow
  borrow-cells l k w h = ground arith

  pub borrow_mut-cells :
      (l k : ℕ) (w : World T) {u : World T} → borrow_mut l k w ≡ some u → w.cells ≡ u.cells
  unfolding borrow_mut
  borrow_mut-cells l k w h = ground arith

  pub borrow_mut-permit :
      (l k : ℕ) (w : World T) {u : World T}
      → borrow_mut l k w ≡ some u
      → (p : Permit) × (get_elem? w.loans l ≡ some (held p))
        × (brand_at w.cells k ≡ some p.brand)
        × (writes p.mode ≡ true)
  unfolding borrow_mut
  borrow_mut-permit l k w h =
      let (p, g, h1) = >>=-eq-some _ _ h in
      let (c, f, h2) = >>=-eq-some _ _ h1 in
      let (d, e) = guard-eq-some _ _ h2 in
      let (a, b) = &&-eq-true (writes p.mode) _ d in
      (p, permit_at-held l w g, brand_at-get w.cells k f ∙ ap some (==→eq _ _ b), a)

  pub write-eq :
      (l k : ℕ) (x : T) (w : World T) {u : World T}
      → write l k x w ≡ some u
      → (loan : Loan) × (get_elem? w.loans l ≡ some loan)
        × (is_exclusive loan ≡ true)
        × (covers loan k ≡ true)
        × (store k x w.cells ≡ u.cells)
  unfolding write
  write-eq l k x w h =
      let (loan, g, h1) = >>=-eq-some (get_elem? w.loans l) _ h in
      let (c, e) = guard-eq-some _ _ h1 in
      let (a, b) = &&-eq-true (is_exclusive loan) _ c in
      (loan, g, a, b, ap World.cells (some-inj e))

  pub replace-eq :
      (l k : ℕ) (x : T) (w : World T) {r : T × World T}
      → replace l k x w ≡ some r
      → ((u : World T) × (borrow_mut l k w ≡ some u)) × (store k x w.cells ≡ r.1.cells)
  unfolding replace
  replace-eq l k x w h =
      let (b, e1, h1) = >>=-eq-some (borrow_mut l k w) _ h in
      let (c, e2, h2) = >>=-eq-some (get_elem? b.cells k) _ h1 in
      let (d, e3, h3) = >>=-eq-some (write l k x b) _ h2 in
      let (r, e4, h4) = >>=-eq-some (release l d) _ h3 in
      (
        (b, e1),
        ap (store k x) (borrow_mut-cells l k w e1)
            ∙ (write-eq l k x b e3).4
            ∙ release-cells l d e4
            ∙ ap (λ t. t.1.cells) (some-inj h4),
      )
