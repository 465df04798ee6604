-- ===== src/Token/Valid/Steps.antt =====
-- src/token and src/cell: steps and runs, and the invariant of tokens, loans and cells.
use mathlib.Core.Path.{subst}
use melinoe.Prelude.{ℕ, ◌≡◌, List, [], ◌∷◌, some, some-inj, >>=-eq-some}
use melinoe.Token.{Family, exclusive_family, sync_region_family, thread_local_family}
use melinoe.Token.World.{
  World, with_fresh_brand, with_fresh_token, brand_scope, sync_region_scope, thread_local_scope,
  replace,
}
use melinoe.Token.Run.{
  Event, opens, lends, shares, copies, releases, sends_permit, sends_token, sends_view, allocates,
  borrows_slice, borrows_slice_mut, borrows, borrows_mut, writes_to, replaces, gets_mut, open_scope,
  step, run,
}
use melinoe.Token.Valid.{Valid}
use melinoe.Token.Valid.Permits.{
  lend-Valid, share_ref-Valid, copy-Valid, release-Valid, send_permit-Valid, send_view-Valid,
}
use melinoe.Token.Valid.Views.{
  write-Valid, get_mut-Valid, allocate-Valid, borrow_slice-Valid, borrow_slice_mut-Valid,
  borrow-Valid, borrow_mut-Valid, replace-Valid,
}
use melinoe.Token.Valid.Scopes.{send_token-Valid, mint-Valid}

module _ {T : Type 0} where
  open_scope-Valid :
      (f : Family) (thread : ℕ) (w : World T) {u : World T}
      → Valid w
      → open_scope f thread w ≡ some u
      → Valid u
  unfolding open_scope brand_scope sync_region_scope thread_local_scope with_fresh_token
      with_fresh_brand
  open_scope-Valid exclusive_family thread w v h =
      subst Valid (some-inj h) (mint-Valid _ thread w v)
  open_scope-Valid sync_region_family thread w v h =
      subst Valid (some-inj h) (mint-Valid _ thread w v)
  open_scope-Valid thread_local_family thread w v h =
      subst Valid (some-inj h) (mint-Valid _ thread w v)

  pub step-Valid : (e : Event T) (w : World T) {u : World T} → Valid w → step e w ≡ some u → Valid u
  unfolding step
  step-Valid (opens f thread) w v h = open_scope-Valid f thread w v h
  step-Valid (lends i b) w v h = lend-Valid i b w v h
  step-Valid (shares l) w v h = share_ref-Valid l w v h
  step-Valid (copies l) w v h = copy-Valid l w v h
  step-Valid (releases l) w v h = release-Valid l w v h
  step-Valid (sends_permit l thread) w v h = send_permit-Valid l thread w v h
  step-Valid (sends_token i thread) w v h = send_token-Valid i thread w v h
  step-Valid (sends_view l thread) w v h = send_view-Valid l thread w v h
  step-Valid (allocates b xs) w v h = allocate-Valid b xs w v h
  step-Valid (borrows_slice l s n) w v h = borrow_slice-Valid l s n w v h
  step-Valid (borrows_slice_mut l s n) w v h = borrow_slice_mut-Valid l s n w v h
  step-Valid (borrows l k) w v h = borrow-Valid l k w v h
  step-Valid (borrows_mut l k) w v h = borrow_mut-Valid l k w v h
  step-Valid (writes_to l k x) w v h = write-Valid l k x w v h
  step-Valid (replaces l k x) w v h =
      let (r, e, q) = >>=-eq-some (replace l k x w) _ h in
      subst Valid (some-inj q) (replace-Valid l k x w v e)
  step-Valid (gets_mut k x) w v h = get_mut-Valid k x w v h

  pub run-Valid :
      (es : List (Event T)) (w : World T) {u : World T} → Valid w → run es w ≡ some u → Valid u
  unfolding run
  run-Valid [] w v h = subst Valid (some-inj h) v
  run-Valid (e ∷ es) w v h =
      let (x, a, b) = >>=-eq-some (step e w) _ h in run-Valid es x (step-Valid e w v a) b
