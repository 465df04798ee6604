-- ===== src/Token/Valid/Permits.antt =====
-- src/token: the operations on permits and the invariant of tokens, loans and cells.
use mathlib.Core.Path.{subst}
use melinoe.Prelude.{
  ℕ, ◌≡◌, ◌≢◌, refl, sym, ap, ◌∙◌, Bool, true, false, some, get_elem?, set, some-inj, All-get,
  get_elem?-lt, get_elem?-map, >>=-eq-some, guard-eq-some,
}
use melinoe.Token.{
  Family, exclusive_family, sync_region_family, thread_local_family, share, sends, Mode, by_ref,
  by_mut, by_shared, writes, Permit, lent, shared_token, moved, permit_sends,
}
use melinoe.Token.World.{
  Loan, held, view, permit_of, as_held, permit_at, is_ref, borrow_mode, World, lend, share_ref,
  copy, send_permit, release, with_loans, send_view, view_moved,
}
use melinoe.Token.Clear.{clear-Alike, clear-again, &&-eq-true, not-eq-true}
use melinoe.Token.Valid.{Owned, Stays, Valid, Valid-add, Valid-put, Valid-remove}

pub Bool-apart : true ≢ false
Bool-apart e = cc

pub held-eq-some : (l : Loan) {p : Permit} → as_held l ≡ some p → l ≡ held p
held-eq-some (held q) h = ap held (some-inj h)
held-eq-some (view q exclusive start len) h = cc

borrow_mode-ne : (b : Bool) → borrow_mode b ≢ by_shared
borrow_mode-ne true e = cc
borrow_mode-ne false e = cc

share-sends : (f : Family) → share f ≡ true → sends f ≡ true
share-sends exclusive_family h = refl
share-sends sync_region_family h = refl
share-sends thread_local_family h = h

is_ref-writes : (m : Mode) → is_ref m ≡ true → writes m ≡ false
is_ref-writes by_ref h = refl
is_ref-writes by_mut h = cc
is_ref-writes by_shared h = refl

-- A carrier that may leave its thread is a `SharedReadToken` or has a token that may.
permit_sends-eq : (f : Family) (m : Mode) → permit_sends f m ≡ true → m ≢ by_shared → sends f ≡ true
permit_sends-eq f by_ref h n = h
permit_sends-eq f by_mut h n = h
permit_sends-eq f by_shared h n = absurd (n refl)

module _ {T : Type 0} where
  pub permit_at-held :
      (l : ℕ) (w : World T) {p : Permit}
      → permit_at l w ≡ some p
      → get_elem? w.loans l ≡ some (held p)
  permit_at-held l w h = let (loan, g, e) = >>=-eq-some _ _ h in g ∙ ap some (held-eq-some loan e)

  pub held-Sound :
      (l : ℕ) (w : World T) {p : Permit}
      → Valid w
      → permit_at l w ≡ some p
      → Owned w.tokens p × Stays w.tokens p
  held-Sound l w v h = All-get _ w.loans l v.sound (permit_at-held l w h)

  pub lend-Valid :
      (i : ℕ) (b : Bool) (w : World T) {u : World T} → Valid w → lend i b w ≡ some u → Valid u
  unfolding lend
  lend-Valid i b w v h =
      let (t, g, h') = >>=-eq-some _ _ h in
      let (c, e) = guard-eq-some _ _ h' in
      subst Valid (some-inj e) (
        Valid-add w (lent i t (borrow_mode b)) v c (
          (get_elem?-lt w.tokens i g, sym (v.numbered i t g)),
          λ r f s. (ap (λ x. x.thread) (some-inj (sym g ∙ f)), borrow_mode-ne b),
        ))

  pub share_ref-Valid :
      (l : ℕ) (w : World T) {u : World T} → Valid w → share_ref l w ≡ some u → Valid u
  unfolding share_ref shared_token
  share_ref-Valid l w v h =
      let (p, g, h1) = >>=-eq-some _ _ h in
      let (t, f, h2) = >>=-eq-some _ _ h1 in
      let (c, e) = guard-eq-some _ _ h2 in
      let (r, s) = &&-eq-true (is_ref p.mode) (share t.family) c in
      let (o, stays) = held-Sound l w v g in
      let q = is_ref-writes p.mode r in
      subst Valid (some-inj e) (
        Valid-add w (shared_token p) v
          (clear-Alike (shared_token p) p _ (refl, sym q)
            ∙ clear-again _ l p v.apart (get_elem?-map permit_of w.loans l (permit_at-held l w g))
                q)
          (
            o,
            λ x y z. absurd (
                Bool-apart (
                  sym (share-sends t.family s)
                  ∙ ap (λ a. sends a.family) (some-inj (sym f ∙ y))
                  ∙ z)),
          ))

  pub copy-Valid : (l : ℕ) (w : World T) {u : World T} → Valid w → copy l w ≡ some u → Valid u
  unfolding copy
  copy-Valid l w v h =
      let (p, g, h1) = >>=-eq-some _ _ h in
      let (c, e) = guard-eq-some _ _ h1 in
      subst Valid (some-inj e) (
        Valid-add w p v
          (clear-again _ l p v.apart (get_elem?-map permit_of w.loans l (permit_at-held l w g))
            (not-eq-true _ c))
          (held-Sound l w v g))

  pub release-Valid : (l : ℕ) (w : World T) {u : World T} → Valid w → release l w ≡ some u → Valid u
  unfolding release
  release-Valid l w v h =
      let (loan, g, e) = >>=-eq-some (get_elem? w.loans l) _ h in
      subst Valid (some-inj e) (Valid-remove w l v)

  pub send_permit-Valid :
      (l thread : ℕ) (w : World T) {u : World T}
      → Valid w
      → send_permit l thread w ≡ some u
      → Valid u
  unfolding send_permit
  send_permit-Valid l thread w v h =
      let (p, g, h1) = >>=-eq-some _ _ h in
      let (t, f, h2) = >>=-eq-some _ _ h1 in
      let (c, e) = guard-eq-some _ _ h2 in
      let (o, stays) = held-Sound l w v g in
      subst Valid (some-inj e) (
        Valid-put w l (held p) (held (moved thread p)) v (permit_at-held l w g) (refl, refl)
          (
            o,
            λ x y z.
                let k = some-inj (sym f ∙ y) in
                absurd (
                  Bool-apart (
                    sym (
                      permit_sends-eq x.family p.mode
                        (ap (λ a. permit_sends a.family p.mode) (sym k) ∙ c) (stays x y z).1)
                    ∙ z)),
          ))

  view_moved-Valid :
      (l thread : ℕ) (w : World T) (loan sent : Loan)
      → Valid w
      → get_elem? w.loans l ≡ some loan
      → view_moved thread loan ≡ some sent
      → Valid (with_loans w (set w.loans l sent))
  view_moved-Valid l thread w (held p) sent v g h = cc
  view_moved-Valid l thread w (view p exclusive start len) sent v g h =
      subst (λ x. Valid (with_loans w (set w.loans l x))) (some-inj h)
        (Valid-put w l (view p exclusive start len) (view (moved thread p) exclusive start len) v g
          (refl, refl) (All-get _ w.loans l v.sound g))

  pub send_view-Valid :
      (l thread : ℕ) (w : World T) {u : World T} → Valid w → send_view l thread w ≡ some u → Valid u
  unfolding send_view
  send_view-Valid l thread w v h =
      let (loan, g, h1) = >>=-eq-some (get_elem? w.loans l) _ h in
      let (sent, f, e) = >>=-eq-some (view_moved thread loan) _ h1 in
      subst Valid (some-inj e) (view_moved-Valid l thread w loan sent v g f)
