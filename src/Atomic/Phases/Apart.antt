-- ===== src/Atomic/Phases/Apart.antt =====
-- src/atomic/branded.rs: the exclusive and the shared phase of a branded atomic.
use mathlib.Core.Path.{subst}
use melinoe.Prelude.{
  ℕ, ◌==◌, ==→eq, ==→ne, ◌≡◌, ◌≢◌, refl, sym, ap, ◌∙◌, true, false, List, [], ◌∷◌, Option, none,
  some, get_elem?, some-inj, All-get, Bool-cases, inl, inr, >>=-eq-some, guard-eq-some,
}
use melinoe.Token.{Permit, writes}
use melinoe.Token.World.{
  MelinoeCell, Loan, held, view, permit_of, as_held, permit_at, is_exclusive, covers, World, empty,
  with_cells, store, borrow_mut,
}
use melinoe.Token.Valid.{
  Valid, empty-Valid, Valid-cells, Valid-remove, KeepsBrands-store, brand_at-get,
}
use melinoe.Token.Clear.{&&-eq-true, not-eq-true}
use melinoe.Token.Valid.Permits.{Bool-apart, held-eq-some}
use melinoe.Token.Valid.Steps.{step-Valid}
use melinoe.Token.Exclusion.{brand_exclusion, covered_brand, views_shared}
use melinoe.Atomic.Branded.{BrandedAtomic}
use melinoe.Atomic.Phases.{
  Content, atom, atom_of, after_call, operate, operate_view, Action, token_event, operates,
  operates_view, act, act_all,
}

module _ {V : Type 0} where
  after_call-Valid :
      (l : ℕ) (p : Permit) (w : World (Content V)) → Valid w → Valid (after_call l p w)
  after_call-Valid l p w v = elim (Bool-cases (writes p.mode)) [
    | inl t ↦ rw t (Valid-remove w l v)
    | inr f ↦ rw f v
  ]

  stored-Valid :
      (k : ℕ) (x : Content V) (w : World (Content V))
      → Valid w
      → Valid (with_cells w (store k x w.cells))
  stored-Valid k x w v = Valid-cells w _ v (KeepsBrands-store k x w.cells)

  operate-Valid :
      {R : Type 0} (l k : ℕ) (op : BrandedAtomic → R × BrandedAtomic) (w : World (Content V))
      {r : R × World (Content V)}
      → Valid w
      → operate l k op w ≡ some r
      → Valid r.1
  unfolding operate
  operate-Valid l k op w v h =
      let (p, g, h1) = >>=-eq-some (permit_at l w) _ h in
      let (c, f, h2) = >>=-eq-some (get_elem? w.cells k) _ h1 in
      let (b, h3) = guard-eq-some _ _ h2 in
      let (a, e, h4) = >>=-eq-some (atom_of c.value) _ h3 in
      subst Valid (ap (λ r. r.1) (some-inj h4))
        (after_call-Valid l p _ (stored-Valid k (atom (op a).1) w v))

  operate_view-Valid :
      {R : Type 0} (l k : ℕ) (op : BrandedAtomic → R × BrandedAtomic) (w : World (Content V))
      {r : R × World (Content V)}
      → Valid w
      → operate_view l k op w ≡ some r
      → Valid r.1
  unfolding operate_view
  operate_view-Valid l k op w v h =
      let (loan, g, h1) = >>=-eq-some (get_elem? w.loans l) _ h in
      let (b, h2) = guard-eq-some _ _ h1 in
      let (c, f, h3) = >>=-eq-some (get_elem? w.cells k) _ h2 in
      let (a, e, h4) = >>=-eq-some (atom_of c.value) _ h3 in
      subst Valid (ap (λ r. r.1) (some-inj h4)) (stored-Valid k (atom (op a).1) w v)

  act-Valid :
      (x : Action V) (w : World (Content V)) {u : World (Content V)}
      → Valid w
      → act x w ≡ some u
      → Valid u
  unfolding act
  act-Valid (token_event e) w v h = step-Valid e w v h
  act-Valid (operates l k op) w v h =
      let (r, e, q) = >>=-eq-some (operate l k op w) _ h in
      subst Valid (some-inj q) (operate-Valid l k op w v e)
  act-Valid (operates_view l k op) w v h =
      let (r, e, q) = >>=-eq-some (operate_view l k op w) _ h in
      subst Valid (some-inj q) (operate_view-Valid l k op w v e)

  act_all-Valid :
      (xs : List (Action V)) (w : World (Content V)) {u : World (Content V)}
      → Valid w
      → act_all xs w ≡ some u
      → Valid u
  unfolding act_all
  act_all-Valid [] w v h = subst Valid (some-inj h) v
  act_all-Valid (x ∷ xs) w v h =
      let (y, a, b) = >>=-eq-some (act x w) _ h in act_all-Valid xs y (act-Valid x w v a) b

refused : {A : Type 0} (m : Option A) → ((x : A) → m ≡ some x → ⊥) → m ≡ none
refused none f = refl
refused (some x) f = absurd (f x refl)

module _ {V : Type 0} (w : World (Content V)) (v : Valid w) where
  permit_held : (l : ℕ) {q : Permit} → permit_at l w ≡ some q → get_elem? w.loans l ≡ some (held q)
  permit_held l h =
      let (loan, g, e) = >>=-eq-some (get_elem? w.loans l) as_held h in
      g ∙ ap some (held-eq-some loan e)

  -- While the plain access at place `i` goes on, no permit of the atomic's brand is in hand.
  module _ (i s n k : ℕ) (p : Permit) (plain : get_elem? w.loans i ≡ some (view p true s n))
      (reaches : covers (view p true s n) k ≡ true) where
    no_permit :
        (l : ℕ) (q : Permit) (c : MelinoeCell (Content V))
        → permit_at l w ≡ some q
        → get_elem? w.cells k ≡ some c
        → (c.brand == q.brand) ≡ true
        → ⊥
    no_permit l q c h f b =
        let at_l = permit_held l h in
        let sound = All-get _ w.loans i v.sound plain in
        let ne : i ≢ l = λ e.
          (let z : some (view p true s n) ≡ some (held q) =
              sym plain ∙ ap (get_elem? w.loans) e ∙ at_l in
            cc) in
        let same : p.brand ≡ q.brand =
          some-inj
            (sym (covered_brand w (view p true s n) k sound reaches) ∙ brand_at-get w.cells k f)
          ∙ ==→eq c.brand q.brand b in
        Bool-apart (sym (sound.2 refl) ∙ (brand_exclusion w i l _ _ v ne plain at_l same).0)

    operate-refused :
        {R : Type 0} (l : ℕ) (op : BrandedAtomic → R × BrandedAtomic) → operate l k op w ≡ none
    unfolding operate
    operate-refused l op = refused _ (λ r h.
        let (q, g, h1) = >>=-eq-some (permit_at l w) _ h in
        let (c, f, h2) = >>=-eq-some (get_elem? w.cells k) _ h1 in
        no_permit l q c g f (guard-eq-some _ _ h2).0)

    borrow_mut-refused : (l : ℕ) → borrow_mut l k w ≡ none
    unfolding borrow_mut
    borrow_mut-refused l = refused _ (λ r h.
        let (q, g, h1) = >>=-eq-some (permit_at l w) _ h in
        let (c, f, h2) = >>=-eq-some (get_elem? w.cells k) _ h1 in
        no_permit l q c g f (&&-eq-true _ _ (guard-eq-some _ _ h2).0).1)

    operate_view-refused :
        {R : Type 0} (l : ℕ) (op : BrandedAtomic → R × BrandedAtomic) → operate_view l k op w ≡ none
    unfolding operate_view
    operate_view-refused l op = refused _ (λ r h.
        let (loan, g, h1) = >>=-eq-some (get_elem? w.loans l) _ h in
        let (shared, covered) = &&-eq-true _ _ (guard-eq-some _ _ h1).0 in
        let ne : i ≢ l = λ e.
          (let z : is_exclusive loan ≡ true =
              ap is_exclusive (some-inj (sym g ∙ ap (get_elem? w.loans) (sym e) ∙ plain)) in
            Bool-apart (sym z ∙ not-eq-true _ shared)) in
        Bool-apart (views_shared w i l k _ loan v ne plain g reaches covered).0)

  -- While a permit of the brand that does not write is in hand or in a view, no plain access begins.
  phase_shared :
      (j k l : ℕ) (r : Loan) (c : MelinoeCell (Content V))
      → get_elem? w.loans j ≡ some r
      → writes (permit_of r).mode ≡ false
      → get_elem? w.cells k ≡ some c
      → (permit_of r).brand ≡ c.brand
      → borrow_mut l k w ≡ none
  unfolding borrow_mut
  phase_shared j k l r c g reads f same = refused (borrow_mut l k w) (λ u h.
      let (q, a, h1) = >>=-eq-some (permit_at l w) _ h in
      let (d, b, h2) = >>=-eq-some (get_elem? w.cells k) _ h1 in
      let (writer, brand) = &&-eq-true _ _ (guard-eq-some _ _ h2).0 in
      let at_l = permit_held l a in
      let of_brand : (permit_of r).brand ≡ q.brand =
        same ∙ ap (λ x. x.brand) (some-inj (sym f ∙ b)) ∙ ==→eq d.brand q.brand brand in
      elim (Bool-cases (j == l)) [
        | inl e ↦
            let z = some-inj (sym g ∙ ap (get_elem? w.loans) (==→eq j l e) ∙ at_l) in
            Bool-apart (sym writer ∙ sym (ap (λ x. writes (permit_of x).mode) z) ∙ reads)
        | inr ne ↦
            Bool-apart (sym writer ∙ (brand_exclusion w j l r _ v (==→ne j l ne) g at_l of_brand).1)
      ])

-- At every point of every program: while a plain access to an atomic goes on, every atomic operation
-- on it and every other plain access to it is refused, under whatever permit or view.
pub plain_phase_alone :
    {V R : Type 0} (xs : List (Action V)) (w : World (Content V)) (i k : ℕ) (x : Loan) (l : ℕ)
    (op : BrandedAtomic → R × BrandedAtomic)
    → act_all xs (empty (Content V)) ≡ some w
    → get_elem? w.loans i ≡ some x
    → is_exclusive x ≡ true
    → covers x k ≡ true
    → (operate l k op w ≡ none) × (operate_view l k op w ≡ none) × (borrow_mut l k w ≡ none)
plain_phase_alone xs w i k (held p) l op h g e reaches = cc
plain_phase_alone xs w i k (view p false s n) l op h g e reaches = cc
plain_phase_alone xs w i k (view p true s n) l op h g e reaches =
    let v = act_all-Valid xs (empty _) empty-Valid h in
    (
      operate-refused w v i s n k p g reaches l op,
      operate_view-refused w v i s n k p g reaches l op,
      borrow_mut-refused w v i s n k p g reaches l,
    )

-- At every point of every program: while a permit that does not write is in hand or in a view,
-- `borrow_mut` of a cell or an atomic of its brand is refused, under whatever permit.
pub shared_phase_unwritten :
    {V : Type 0} (xs : List (Action V)) (w : World (Content V)) (j k l : ℕ) (x : Loan)
    (c : MelinoeCell (Content V))
    → act_all xs (empty (Content V)) ≡ some w
    → get_elem? w.loans j ≡ some x
    → writes (permit_of x).mode ≡ false
    → get_elem? w.cells k ≡ some c
    → (permit_of x).brand ≡ c.brand
    → borrow_mut l k w ≡ none
shared_phase_unwritten xs w j k l x c h g reads f same =
    phase_shared w (act_all-Valid xs (empty _) empty-Valid h) j k l x c g reads f same
