-- ===== src/Types/Markers.antt =====
-- The auto traits of the crate's types, which decide what may go to another thread.
use melinoe.Prelude.{◌≡◌, refl}
use melinoe.Token.{
  Family, exclusive_family, sync_region_family, thread_local_family, sends, Mode, by_ref, by_mut,
  by_shared, permit_sends,
}
use melinoe.Types.{is_send, is_sync, token, carrier}

-- The fields of a token, of a borrow of it and of a `SharedReadToken` make each of them `Send` exactly
-- as the tables of the program model say, and a token `Sync` exactly when it is `Send`.
pub carrier-permit_sends :
    (f : Family) (m : Mode)
    → (is_send (token f) ≡ sends f)
      × (is_sync (token f) ≡ sends f)
      × (is_send (carrier f m) ≡ permit_sends f m)
unfolding is_send is_sync carrier
carrier-permit_sends exclusive_family by_ref = (refl, refl, refl)
carrier-permit_sends exclusive_family by_mut = (refl, refl, refl)
carrier-permit_sends exclusive_family by_shared = (refl, refl, refl)
carrier-permit_sends sync_region_family by_ref = (refl, refl, refl)
carrier-permit_sends sync_region_family by_mut = (refl, refl, refl)
carrier-permit_sends sync_region_family by_shared = (refl, refl, refl)
carrier-permit_sends thread_local_family by_ref = (refl, refl, refl)
carrier-permit_sends thread_local_family by_mut = (refl, refl, refl)
carrier-permit_sends thread_local_family by_shared = (refl, refl, refl)
