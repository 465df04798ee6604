-- ===== src/Token/Valid/Views.antt =====
-- src/cell: the operations on cells and their views and the invariant of tokens, loans and cells.
use mathlib.Core.Path.{subst}
use melinoe.Prelude.{
  ℕ, ◌+◌, ◌==◌, ==→eq, leb, ltb, leb→le, ltb→lt, ◌≡◌, refl, sym, ap, ◌∙◌, true, false, ◌&&◌, List,
  some, get_elem?, arith, some-inj, >>=-eq-some, guard-eq-some,
}
use melinoe.Token.{writes}
use melinoe.Token.World.{
  MelinoeCell, held, view, World, release, allocate, borrow_slice, borrow_slice_mut, borrow,
  borrow_mut, write, replace, get_mut,
}
use melinoe.Token.Clear.{&&-eq-true}
use melinoe.Token.Valid.{
  Valid, Valid-put, Valid-cells, KeepsBrands-store, KeepsBrands-append, brand_at, brand_at-get,
  brand_at-branded,
}
use melinoe.Token.Valid.Permits.{Bool-apart, held-Sound, permit_at-held, release-Valid}

module _ {T : Type 0} where
  pub write-Valid :
      (l k : ℕ) (x : T) (w : World T) {u : World T} → Valid w → write l k x w ≡ some u → Valid u
  unfolding write
  write-Valid l k x w v h =
      let (loan, g, h1) = >>=-eq-some (get_elem? w.loans l) _ h in
      let (c, e) = guard-eq-some _ _ h1 in
      subst Valid (some-inj e) (Valid-cells w _ v (KeepsBrands-store k x w.cells))

  pub get_mut-Valid :
      (k : ℕ) (x : T) (w : World T) {u : World T} → Valid w → get_mut k x w ≡ some u → Valid u
  unfolding get_mut
  get_mut-Valid k x w v h =
      let (c, e) = guard-eq-some _ _ h in
      subst Valid (some-inj e) (Valid-cells w _ v (KeepsBrands-store k x w.cells))

  pub allocate-Valid :
      (b : ℕ) (xs : List T) (w : World T) {u : World T}
      → Valid w
      → allocate b xs w ≡ some u
      → Valid u
  unfolding allocate
  allocate-Valid b xs w v h =
      subst Valid (some-inj h) (Valid-cells w _ v (KeepsBrands-append w.cells _))

  pub borrow_slice-Valid :
      (l s n : ℕ) (w : World T) {u : World T} → Valid w → borrow_slice l s n w ≡ some u → Valid u
  unfolding borrow_slice
  borrow_slice-Valid l s n w v h =
      let (p, g, h1) = >>=-eq-some _ _ h in
      let (c, e) = guard-eq-some _ _ h1 in
      subst Valid (some-inj e) (
        Valid-put w l (held p) (view p false s n) v (permit_at-held l w g) (refl, refl)
          (
            (held-Sound l w v g).0,
            (λ k d. brand_at-branded p.brand n s k w.cells c d),
            λ x. absurd (Bool-apart (sym x)),
          ))

  pub borrow_slice_mut-Valid :
      (l s n : ℕ) (w : World T) {u : World T}
      → Valid w
      → borrow_slice_mut l s n w ≡ some u
      → Valid u
  unfolding borrow_slice_mut
  borrow_slice_mut-Valid l s n w v h =
      let (p, g, h1) = >>=-eq-some _ _ h in
      let (c, e) = guard-eq-some _ _ h1 in
      let (a, b) = &&-eq-true (writes p.mode) _ c in
      subst Valid (some-inj e) (
        Valid-put w l (held p) (view p true s n) v (permit_at-held l w g) (refl, refl)
          ((held-Sound l w v g).0, (λ k d. brand_at-branded p.brand n s k w.cells b d), λ x. a))

  at_one :
      (w : World T) (k j b : ℕ) {c : MelinoeCell T}
      → get_elem? w.cells k ≡ some c
      → (c.brand == b) ≡ true
      → (leb k j && ltb j (k + 1)) ≡ true
      → brand_at w.cells j ≡ some b
  at_one w k j b g e h =
      let (p, q) = &&-eq-true (leb k j) (ltb j (k + 1)) h in
      let lower = leb→le k j p in
      let upper = ltb→lt j (k + 1) q in
      let i : j ≡ k = omega arith in
      ap (brand_at w.cells) i ∙ brand_at-get w.cells k g ∙ ap some (==→eq _ _ e)

  pub borrow-Valid :
      (l k : ℕ) (w : World T) {u : World T} → Valid w → borrow l k w ≡ some u → Valid u
  unfolding borrow
  borrow-Valid l k w v h =
      let (p, g, h1) = >>=-eq-some _ _ h in
      let (c, f, h2) = >>=-eq-some _ _ h1 in
      let (d, e) = guard-eq-some _ _ h2 in
      subst Valid (some-inj e) (
        Valid-put w l (held p) (view p false k 1) v (permit_at-held l w g) (refl, refl)
          (
            (held-Sound l w v g).0,
            (λ j q. at_one w k j p.brand f d q),
            λ x. absurd (Bool-apart (sym x)),
          ))

  pub borrow_mut-Valid :
      (l k : ℕ) (w : World T) {u : World T} → Valid w → borrow_mut l k w ≡ some u → Valid u
  unfolding borrow_mut
  borrow_mut-Valid l k w v h =
      let (p, g, h1) = >>=-eq-some _ _ h in
      let (c, f, h2) = >>=-eq-some _ _ h1 in
      let (d, e) = guard-eq-some _ _ h2 in
      let (a, b) = &&-eq-true (writes p.mode) _ d in
      subst Valid (some-inj e) (
        Valid-put w l (held p) (view p true k 1) v (permit_at-held l w g) (refl, refl)
          ((held-Sound l w v g).0, (λ j q. at_one w k j p.brand f b q), λ x. a))

  pub replace-Valid :
      (l k : ℕ) (x : T) (w : World T) {u : T × World T}
      → Valid w
      → replace l k x w ≡ some u
      → Valid u.1
  unfolding replace
  replace-Valid l k x w v h =
      let (b, e1, h1) = >>=-eq-some (borrow_mut l k w) _ h in
      let (c, e2, h2) = >>=-eq-some (get_elem? b.cells k) _ h1 in
      let (d, e3, h3) = >>=-eq-some (write l k x b) _ h2 in
      let (r, e4, h4) = >>=-eq-some (release l d) _ h3 in
      subst (λ q. Valid q.1) (some-inj h4)
        (release-Valid l d (write-Valid l k x b (borrow_mut-Valid l k w v e1) e3) e4)
