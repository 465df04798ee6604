-- ===== src/Token/Threads.antt =====
-- src/sync/tokens/thread_local.rs: the threads of a `ThreadLocalToken` and its borrows.
use melinoe.Prelude.{
  ℕ, ◌==◌, ==→eq, ==→ne, ◌≡◌, sym, ap, ◌∙◌, false, List, [], ◌∷◌, ◌++◌, map, ◌&&◌, some, get_elem?,
  set, inl, inr, arith, some-inj, All-get, get_elem?-lt, get_elem?-append, get_elem?-set_ne,
  Bool-cases, >>=-eq-some, guard-eq-some,
}
use melinoe.Token.{
  Family, exclusive_family, sync_region_family, thread_local_family, sends, Token, Permit, clear,
  lent, by_mut,
}
use melinoe.Token.World.{
  held, World, permit_of, with_tokens, at_thread, empty, with_fresh_brand, with_fresh_token,
  brand_scope, sync_region_scope, thread_local_scope, lend, share_ref, copy, send_permit,
  send_token, send_view, release, allocate, borrow_slice, borrow_slice_mut, borrow, borrow_mut,
  write, replace, get_mut,
}
use melinoe.Token.Run.{
  Event, opens, lends, shares, copies, releases, sends_permit, sends_token, sends_view, allocates,
  borrows_slice, borrows_slice_mut, borrows, borrows_mut, writes_to, replaces, gets_mut, open_scope,
  step, run,
}
use melinoe.Token.Clear.{&&-eq-true}
use melinoe.Token.Valid.{empty-Valid}
use melinoe.Token.Valid.Permits.{Bool-apart}
use melinoe.Token.Valid.Steps.{run-Valid}

module _ {T : Type 0} where
  open_scope-tokens :
      (f : Family) (th : ℕ) (w : World T) {u : World T}
      → open_scope f th w ≡ some u
      → (t : Token) × (w.tokens ++ (t ∷ []) ≡ u.tokens)
  unfolding open_scope brand_scope sync_region_scope thread_local_scope with_fresh_token
      with_fresh_brand
  open_scope-tokens exclusive_family th w h = (_, ap World.tokens (some-inj h))
  open_scope-tokens sync_region_family th w h = (_, ap World.tokens (some-inj h))
  open_scope-tokens thread_local_family th w h = (_, ap World.tokens (some-inj h))

  send_token-tokens :
      (j th : ℕ) (w u : World T) (i : ℕ) (t : Token)
      → get_elem? w.tokens i ≡ some t
      → sends t.family ≡ false
      → send_token j th w ≡ some u
      → get_elem? u.tokens i ≡ some t
  unfolding send_token
  send_token-tokens j th w u i t g s h =
      let (a, f, h1) = >>=-eq-some (get_elem? w.tokens j) _ h in
      let (c, e) =
        guard-eq-some (sends a.family && clear (lent j a by_mut) (map permit_of w.loans))
          (some (with_tokens w (set w.tokens j (at_thread th a)))) h1 in
      elim (Bool-cases (j == i)) [
        | inl q ↦
            let same = some-inj (sym f ∙ ap (get_elem? w.tokens) (==→eq j i q) ∙ g) in
            absurd (
              Bool-apart
                (sym (&&-eq-true (sends a.family) _ c).0 ∙ ap (λ x. sends x.family) same ∙ s))
        | inr q ↦
            ap (λ x. get_elem? x.tokens i) (sym (some-inj e))
            ∙ get_elem?-set_ne w.tokens j i (at_thread th a) (==→ne j i q)
            ∙ g
      ]

  step-tokens :
      (e : Event T) (w u : World T) (i : ℕ) (t : Token)
      → get_elem? w.tokens i ≡ some t
      → sends t.family ≡ false
      → step e w ≡ some u
      → get_elem? u.tokens i ≡ some t
  unfolding step lend share_ref copy send_permit send_view release allocate borrow_slice
      borrow_slice_mut borrow borrow_mut write replace get_mut
  step-tokens (opens f th) w u i t g s h =
      let (a, e) = open_scope-tokens f th w h in
      ap (λ x. get_elem? x i) (sym e)
      ∙ get_elem?-append w.tokens _ i (get_elem?-lt w.tokens i g)
      ∙ g
  step-tokens (lends j b) w u i t g s h = ground arith
  step-tokens (shares j) w u i t g s h = ground arith
  step-tokens (copies j) w u i t g s h = ground arith
  step-tokens (releases j) w u i t g s h = ground arith
  step-tokens (sends_permit j th) w u i t g s h = ground arith
  step-tokens (sends_token j th) w u i t g s h = send_token-tokens j th w u i t g s h
  step-tokens (sends_view j th) w u i t g s h = ground arith
  step-tokens (allocates b xs) w u i t g s h = ground arith
  step-tokens (borrows_slice j k m) w u i t g s h = ground arith
  step-tokens (borrows_slice_mut j k m) w u i t g s h = ground arith
  step-tokens (borrows j m) w u i t g s h = ground arith
  step-tokens (borrows_mut j m) w u i t g s h = ground arith
  step-tokens (writes_to j m x) w u i t g s h = ground arith
  step-tokens (replaces j m x) w u i t g s h = ground arith
  step-tokens (gets_mut m x) w u i t g s h = ground arith

  run-tokens :
      (es : List (Event T)) (w u : World T) (i : ℕ) (t : Token)
      → get_elem? w.tokens i ≡ some t
      → sends t.family ≡ false
      → run es w ≡ some u
      → get_elem? u.tokens i ≡ some t
  unfolding run
  run-tokens [] w u i t g s h = ap (λ x. get_elem? x.tokens i) (sym (some-inj h)) ∙ g
  run-tokens (e ∷ es) w u i t g s h =
      let (x, a, b) = >>=-eq-some (step e w) _ h in
      run-tokens es x u i t (step-tokens e w x i t g s a) s b

  -- A token of a family that is not `Send` is for the whole program on the thread where its scope was
  -- opened, and so is every permit in hand that borrows from it.
  pub thread_local-stays :
      (es fs : List (Event T)) (w u : World T) (i : ℕ) (t : Token)
      → run es (empty T) ≡ some w
      → get_elem? w.tokens i ≡ some t
      → sends t.family ≡ false
      → run fs w ≡ some u
      → (get_elem? u.tokens i ≡ some t)
        × ((j : ℕ) (p : Permit)
            → get_elem? u.loans j ≡ some (held p)
            → p.owner ≡ i
            → p.thread ≡ t.thread)
  thread_local-stays es fs w u i t r g s h =
      let here = run-tokens fs w u i t g s h in
      let v = run-Valid fs w (run-Valid es (empty T) empty-Valid r) h in
      (
        here,
        λ j p f o. ((All-get _ u.loans j v.sound f).1 t (ap (get_elem? u.tokens) o ∙ here) s).0,
      )
