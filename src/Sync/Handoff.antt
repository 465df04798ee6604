-- ===== src/Sync/Handoff.antt =====
-- src/sync/scoped/mod.rs: an exclusive phase on a thread of its own.
use melinoe.Prelude.{ℕ, ◌≡◌, refl, ap}
use melinoe.Machine.{Outcome, returned, panicked}
use melinoe.Token.{sync_region_family, Token}
use melinoe.Token.World.{World, with_fresh_token, sync_region_scope}

outcome_same :
    {P R : Type 0} (o : Outcome P R)
    → (elim o [ returned result ↦ returned result | panicked payload ↦ panicked payload ]) ≡ o
outcome_same (returned r) = refl
outcome_same (panicked p) = refl

module _ {P R T : Type 0} where
  -- The closure runs on the thread `worker`; a join gives `returned` for `Ok` and `panicked` for `Err`.
  unfoldable pub scope_exclusive :
      ℕ → (Token → World T → Outcome P R × World T) → World T → Outcome P R × World T
  unfolding with_fresh_token
  scope_exclusive worker f w =
      let (joined, after) = with_fresh_token sync_region_family worker f w in
      (
        elim joined [ returned result ↦ returned result | panicked payload ↦ panicked payload ],
        after,
      )

  -- It is a region's scope on the worker thread: the caller gets the closure's result, or the panic
  -- with the payload that it had.
  pub scope_exclusive_lem :
      (worker : ℕ) (f : Token → World T → Outcome P R × World T) (w : World T)
      → scope_exclusive worker f w ≡ sync_region_scope worker f w
  unfolding scope_exclusive sync_region_scope with_fresh_token
  scope_exclusive_lem worker f w =
      ap (λ o. (o, (sync_region_scope worker f w).1))
        (outcome_same (sync_region_scope worker f w).0)
