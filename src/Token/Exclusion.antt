-- ===== src/Token/Exclusion.antt =====
-- src/token and src/cell: permits of one brand and views of one cell.
pub mod Cells
pub mod Frozen
use mathlib.Core.Path.{subst}
use melinoe.Prelude.{
  ℕ, zero, suc, ◌+◌, ◌<◌, ◌==◌, ==→eq, ==→ne, ==_refl, leb, ltb, leb→le, ltb→lt, ◌≡◌, ◌≢◌, refl,
  sym, ap, ap₂, ◌∙◌, Bool, true, false, not, ◌&&◌, ◌||◌, List, [], ◌∷◌, ◌++◌, map, Option, none,
  some, length, get_elem?, set, drop, inl, inr, ◌⊎◌, arith, tests, some-inj, All, All-get,
  get_elem?-lt, get_elem?-append, get_elem?-map, Bool-cases, ◌>>=◌, ◌>>◌, guard, >>=-eq-some,
  guard-eq-some,
}
use melinoe.Token.{writes, Permit, conflict}
use melinoe.Token.World.{
  MelinoeCell, Loan, held, view, permit_of, is_exclusive, covers, World, empty, lend, share_ref,
  copy, send_permit, send_token, release, borrow_slice, borrow_slice_mut, borrow, borrow_mut, store,
}
use melinoe.Token.Run.{
  Event, opens, lends, shares, copies, releases, sends_permit, sends_token, allocates,
  borrows_slice, borrows_slice_mut, borrows, borrows_mut, writes_to, replaces, gets_mut, open_scope,
  step, run,
}
use melinoe.Token.Clear.{Apart-get, &&-eq-true}
use melinoe.Token.Valid.{Sound, Valid, empty-Valid, Owned-loan, brand_at}
use melinoe.Token.Valid.Permits.{Bool-apart}
use melinoe.Token.Valid.Steps.{run-Valid}

both-false : (a b c : Bool) → a ≡ true → (a && (b || c)) ≡ false → (b ≡ false) × (c ≡ false)
both-false a b c h e = ground arith

not-true : (b : Bool) → (b ≡ true → ⊥) → b ≡ false
not-true true h = absurd (h refl)
not-true false h = refl

module _ {T : Type 0} where
  -- Of two loans of one brand neither writes.
  pub brand_exclusion :
      (w : World T) (i j : ℕ) (l r : Loan)
      → Valid w
      → i ≢ j
      → get_elem? w.loans i ≡ some l
      → get_elem? w.loans j ≡ some r
      → (permit_of l).brand ≡ (permit_of r).brand
      → (writes (permit_of l).mode ≡ false) × (writes (permit_of r).mode ≡ false)
  brand_exclusion w i j l r v n f g e =
      let p = permit_of l in
      let q = permit_of r in
      let a = Owned-loan w.tokens w.cells l (All-get _ w.loans i v.sound f) in
      let b = Owned-loan w.tokens w.cells r (All-get _ w.loans j v.sound g) in
      let same : p.owner ≡ q.owner = a.1 ∙ e ∙ sym b.1 in
      both-false (p.owner == q.owner) (writes p.mode) (writes q.mode)
        (ap (λ x. p.owner == x) (sym same) ∙ ==_refl p.owner)
        (Apart-get _ i j v.apart n (get_elem?-map permit_of w.loans i f)
          (get_elem?-map permit_of w.loans j g))

  -- Of two permits of one brand that are in hand or in a view at the same time neither writes, at every
  -- point of every program that compiles.
  pub permits_exclude :
      (es : List (Event T)) (w : World T) (i j : ℕ) (l r : Loan)
      → run es (empty T) ≡ some w
      → i ≢ j
      → get_elem? w.loans i ≡ some l
      → get_elem? w.loans j ≡ some r
      → (permit_of l).brand ≡ (permit_of r).brand
      → (writes (permit_of l).mode ≡ false) × (writes (permit_of r).mode ≡ false)
  permits_exclude es w i j l r h n f g e =
      brand_exclusion w i j l r (run-Valid es (empty T) empty-Valid h) n f g e

  pub covered_brand :
      (w : World T) (l : Loan) (k : ℕ)
      → Sound w.tokens w.cells l
      → covers l k ≡ true
      → brand_at w.cells k ≡ some (permit_of l).brand
  covered_brand w (held p) k s c = cc
  covered_brand w (view p exclusive start len) k s c = s.1 k c

  reader_shares :
      (w : World T) (l : Loan)
      → Sound w.tokens w.cells l
      → writes (permit_of l).mode ≡ false
      → is_exclusive l ≡ false
  reader_shares w (held p) s h = refl
  reader_shares w (view p exclusive start len) s h =
      not-true exclusive (λ e. Bool-apart (sym (s.2 e) ∙ h))

  pub views_shared :
      (w : World T) (i j k : ℕ) (l r : Loan)
      → Valid w
      → i ≢ j
      → get_elem? w.loans i ≡ some l
      → get_elem? w.loans j ≡ some r
      → covers l k ≡ true
      → covers r k ≡ true
      → (is_exclusive l ≡ false) × (is_exclusive r ≡ false)
  views_shared w i j k l r v n f g c d =
      let s = All-get _ w.loans i v.sound f in
      let t = All-get _ w.loans j v.sound g in
      let (a, b) =
        brand_exclusion w i j l r v n f g
          (some-inj (sym (covered_brand w l k s c) ∙ covered_brand w r k t d)) in
      (reader_shares w l s a, reader_shares w r t b)

  -- Two views that are in use at the same time and reach the same cell are both `&T`, at every point
  -- of every program that compiles.
  pub aliased_views_shared :
      (es : List (Event T)) (w : World T) (i j k : ℕ) (l r : Loan)
      → run es (empty T) ≡ some w
      → i ≢ j
      → get_elem? w.loans i ≡ some l
      → get_elem? w.loans j ≡ some r
      → covers l k ≡ true
      → covers r k ≡ true
      → (is_exclusive l ≡ false) × (is_exclusive r ≡ false)
  aliased_views_shared es w i j k l r h n f g c d =
      views_shared w i j k l r (run-Valid es (empty T) empty-Valid h) n f g c d
