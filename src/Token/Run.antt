-- ===== src/Token/Run.antt =====
-- A run of a program on the tokens and cells of src/token and src/cell.
use melinoe.Prelude.{ℕ, Bool, List, [], ◌∷◌, Option, some, ◌>>=◌}
use melinoe.Token.{Family, exclusive_family, sync_region_family, thread_local_family}
use melinoe.Token.World.{
  World, brand_scope, sync_region_scope, thread_local_scope, keep, lend, share_ref, copy,
  send_permit, send_token, send_view, release, allocate, borrow_slice, borrow_slice_mut, borrow,
  borrow_mut, write, replace, get_mut,
}

pub data Event (T : Type 0) : Type 0 where
  opens : Family → ℕ → Event T
  lends : ℕ → Bool → Event T
  shares copies releases : ℕ → Event T
  sends_permit sends_token sends_view : ℕ → ℕ → Event T
  allocates : ℕ → List T → Event T
  borrows_slice borrows_slice_mut : ℕ → ℕ → ℕ → Event T
  borrows borrows_mut : ℕ → ℕ → Event T
  writes_to replaces : ℕ → ℕ → T → Event T
  gets_mut : ℕ → T → Event T

module _ {T : Type 0} where
  unfoldable pub open_scope : Family → ℕ → World T → Option (World T)
  unfolding brand_scope sync_region_scope thread_local_scope
  open_scope exclusive_family thread w = brand_scope thread keep w
  open_scope sync_region_family thread w = sync_region_scope thread keep w
  open_scope thread_local_family thread w = thread_local_scope thread keep w

  unfoldable pub step : Event T → World T → Option (World T)
  unfolding open_scope lend share_ref copy send_permit send_token send_view release allocate
      borrow_slice borrow_slice_mut borrow borrow_mut write replace get_mut
  step (opens family thread) w = open_scope family thread w
  step (lends i exclusive) w = lend i exclusive w
  step (shares l) w = share_ref l w
  step (copies l) w = copy l w
  step (releases l) w = release l w
  step (sends_permit l thread) w = send_permit l thread w
  step (sends_token i thread) w = send_token i thread w
  step (sends_view l thread) w = send_view l thread w
  step (allocates brand values) w = allocate brand values w
  step (borrows_slice l start len) w = borrow_slice l start len w
  step (borrows_slice_mut l start len) w = borrow_slice_mut l start len w
  step (borrows l k) w = borrow l k w
  step (borrows_mut l k) w = borrow_mut l k w
  step (writes_to l k v) w = write l k v w
  step (replaces l k v) w = replace l k v w >>= λ r. some r.1
  step (gets_mut k v) w = get_mut k v w

  -- The program's events one after another; `none` when one of them does not compile.
  unfoldable pub run : List (Event T) → World T → Option (World T)
  unfolding step
  run [] w = some w
  run (e ∷ es) w = step e w >>= run es
