-- ===== src/Token/Exclusion/Frozen.antt =====
-- src/cell: the cells of a view while the rest of the program runs.
use melinoe.Prelude.{
  [], ◌∷◌, ℕ, ◌==◌, ==→eq, ==→ne, ◌≡◌, ◌≢◌, sym, ap, ◌∙◌, true, List, some, get_elem?, inl, inr,
  some-inj, All-get, get_elem?-append, Bool-cases, >>=-eq-some, guard-eq-some,
}
use melinoe.Token.{Permit}
use melinoe.Token.World.{
  MelinoeCell, Loan, held, is_exclusive, covers, unviewed, World, empty, allocate, store, replace,
}
use melinoe.Token.Run.{
  Event, opens, lends, shares, copies, releases, sends_permit, sends_token, sends_view, allocates,
  borrows_slice, borrows_slice_mut, borrows, borrows_mut, writes_to, replaces, gets_mut, step, run,
}
use melinoe.Token.Valid.{Valid, empty-Valid, brand_at}
use melinoe.Token.Valid.Permits.{Bool-apart}
use melinoe.Token.Valid.Steps.{step-Valid, run-Valid}
use melinoe.Token.Exclusion.{brand_exclusion, covered_brand, views_shared}
use melinoe.Token.Exclusion.Cells.{
  unviewed-get, store_ne, brand_at-lt, open_scope-cells, lend-cells, share_ref-cells, copy-cells,
  send_permit-cells, send_token-cells, send_view-cells, release-cells, borrow_slice-cells,
  borrow_slice_mut-cells, borrow-cells, borrow_mut-cells, borrow_mut-permit, write-eq, replace-eq,
}

held-covers : (l : Loan) (p : Permit) (k : ℕ) → l ≡ held p → covers l k ≡ true → ⊥
held-covers l p k e c = Bool-apart (sym c ∙ ap (λ t. covers t k) e)

module _ {T : Type 0} where
  stored :
      (m k : ℕ) (x : T) (cs us : List (MelinoeCell T))
      → store m x cs ≡ us
      → m ≢ k
      → get_elem? us k ≡ get_elem? cs k
  stored m k x cs us e n = ap (λ t. get_elem? t k) (sym e) ∙ store_ne m k x cs n

  same_cell : (k : ℕ) (cs us : List (MelinoeCell T)) → cs ≡ us → get_elem? us k ≡ get_elem? cs k
  same_cell k cs us e = ap (λ t. get_elem? t k) (sym e)

  -- A cell that a view reaches is changed by no step of a program that compiles, unless the view is a
  -- `&mut T` and the step is a write through it.
  viewed_cell-step :
      (e : Event T) (w u : World T) (i k : ℕ) (l : Loan)
      → Valid w
      → get_elem? w.loans i ≡ some l
      → covers l k ≡ true
      → ((x : T) → is_exclusive l ≡ true → e ≢ writes_to i k x)
      → step e w ≡ some u
      → get_elem? u.cells k ≡ get_elem? w.cells k
  unfolding step allocate
  viewed_cell-step (opens f t) w u i k l v g c n h = same_cell k _ _ (open_scope-cells f t w h)
  viewed_cell-step (lends j b) w u i k l v g c n h = same_cell k _ _ (lend-cells j b w h)
  viewed_cell-step (shares j) w u i k l v g c n h = same_cell k _ _ (share_ref-cells j w h)
  viewed_cell-step (copies j) w u i k l v g c n h = same_cell k _ _ (copy-cells j w h)
  viewed_cell-step (releases j) w u i k l v g c n h = same_cell k _ _ (release-cells j w h)
  viewed_cell-step (sends_permit j t) w u i k l v g c n h =
      same_cell k _ _ (send_permit-cells j t w h)
  viewed_cell-step (sends_token j t) w u i k l v g c n h =
      same_cell k _ _ (send_token-cells j t w h)
  viewed_cell-step (sends_view j t) w u i k l v g c n h = same_cell k _ _ (send_view-cells j t w h)
  viewed_cell-step (allocates b xs) w u i k l v g c n h =
      ap (λ t. get_elem? t.cells k) (sym (some-inj h))
      ∙ get_elem?-append w.cells _ k
          (brand_at-lt w.cells k _ (covered_brand w l k (All-get _ w.loans i v.sound g) c))
  viewed_cell-step (borrows_slice j s m) w u i k l v g c n h =
      same_cell k _ _ (borrow_slice-cells j s m w h)
  viewed_cell-step (borrows_slice_mut j s m) w u i k l v g c n h =
      same_cell k _ _ (borrow_slice_mut-cells j s m w h)
  viewed_cell-step (borrows j m) w u i k l v g c n h = same_cell k _ _ (borrow-cells j m w h)
  viewed_cell-step (borrows_mut j m) w u i k l v g c n h =
      same_cell k _ _ (borrow_mut-cells j m w h)
  viewed_cell-step (writes_to j m x) w u i k l v g c n h =
      let (q, f, a, b, e) = write-eq j m x w h in
      stored m k x _ _ e (λ s. elim (Bool-cases (i == j)) [
        | inl d ↦
            let o = sym (==→eq i j d) in
            n x (ap is_exclusive (some-inj (sym g ∙ ap (get_elem? w.loans) (sym o) ∙ f)) ∙ a)
              (λ z. writes_to (o z) (s z) x)
        | inr d ↦
            Bool-apart (
              sym a
              ∙ (views_shared w i j k l q v (==→ne i j d) g f c (ap (covers q) (sym s) ∙ b)).1)
      ])
  viewed_cell-step (replaces j m x) w u i k l v g c n h =
      let (o, f, a) = >>=-eq-some (replace j m x w) _ h in
      let (b, e) = replace-eq j m x w f in
      let (p, d, y, z) = borrow_mut-permit j m w b.1 in
      stored m k x _ _ (e ∙ ap World.cells (some-inj a)) (λ s. Bool-apart (
        sym z
        ∙ (brand_exclusion w i j l (held p) v
            (λ q. held-covers l p k (some-inj (sym g ∙ ap (get_elem? w.loans) q ∙ d)) c) g d
            (some-inj (
              sym (covered_brand w l k (All-get _ w.loans i v.sound g) c)
              ∙ ap (brand_at w.cells) (sym s)
              ∙ y))).1))
  viewed_cell-step (gets_mut m x) w u i k l v g c n h =
      let (a, e) = guard-eq-some _ _ h in
      stored m k x _ _ (ap World.cells (some-inj e))
        (λ s. Bool-apart (sym c ∙ unviewed-get w.loans i k (ap (unviewed w.loans) (sym s) ∙ a) g))

  -- The view is in use at every step, and no step is a write of the cell through it.
  abbrev pub Undisturbed : Loan → ℕ → List (Event T) → World T → Type 0
  Undisturbed l k [] w = Unit {0}
  Undisturbed l k (e ∷ es) w =
      ((i : ℕ) × (get_elem? w.loans i ≡ some l)
        × ((x : T) → is_exclusive l ≡ true → e ≢ writes_to i k x))
      × ((u : World T) → step e w ≡ some u → Undisturbed l k es u)

  Undisturbed-cell :
      (fs : List (Event T)) (w u : World T) (k : ℕ) (l : Loan)
      → Valid w
      → covers l k ≡ true
      → Undisturbed l k fs w
      → run fs w ≡ some u
      → get_elem? u.cells k ≡ get_elem? w.cells k
  unfolding run
  Undisturbed-cell [] w u k l v c d h = ap (λ t. get_elem? t.cells k) (sym (some-inj h))
  Undisturbed-cell (e ∷ fs) w u k l v c d h =
      let (x, a, b) = >>=-eq-some (step e w) _ h in
      let (i, g, n) = d.0 in
      Undisturbed-cell fs x u k l (step-Valid e w v a) c (d.1 x a) b
      ∙ viewed_cell-step e w x i k l v g c n a

  -- From any point of a program that compiles on, and for as long as a view is in use, a cell that the
  -- view reaches keeps its value, whatever the rest of the program does, unless the view is a `&mut T`
  -- and the program writes the cell through it.
  pub viewed_cell-run :
      (es fs : List (Event T)) (w u : World T) (k : ℕ) (l : Loan)
      → run es (empty T) ≡ some w
      → covers l k ≡ true
      → Undisturbed l k fs w
      → run fs w ≡ some u
      → get_elem? u.cells k ≡ get_elem? w.cells k
  viewed_cell-run es fs w u k l r c d h =
      Undisturbed-cell fs w u k l (run-Valid es (empty T) empty-Valid r) c d h
