-- ===== src/Sync/Driver/Ending.antt =====
-- The end of a call of `drive` (src/sync/scoped/partition/driver_core.rs) on the buffers and handles
-- that its tasks leave.
use melinoe.Prelude.{
  ℕ, zero, suc, ◌+◌, ◌≤◌, ◌<◌, ◌≡◌, refl, ◌⊎◌, inl, inr, Bool, true, false, none, some, List, [],
  ◌∷◌, tabulate, replicate-tabulate, arith, ◌&&◌, if◌then◌else◌,
}
use melinoe.Prelude.Orders.{contains, IsComplete}
use melinoe.Machine.{Outcome, returned, panicked}
use melinoe.Sync.OutBuffer.{
  Slot, uninit, dropped, init, fresh, take_panic_payload, drop_successful, from_raw_parts,
}
use melinoe.Sync.Driver.{results, unwound, teardown, conclude}
use melinoe.Sync.Driver.Tasks.{
  filled, spent, is_returned, first_panic, slot_at, flag_at, buffer_after, all_return,
}

module _ {P R : Type 0} where
  pub fresh-buffer_after : (out : ℕ → Outcome P R) (n : ℕ) → fresh n ≡ buffer_after out n []
  unfolding fresh
  fresh-buffer_after out n = λ t. record {
    slots = replicate-tabulate n 0 uninit t;
    successful = replicate-tabulate n 0 false t;
    panic_payload = record { payload = none; poisoned = false };
  }

module _ {R : Type 0} where
  from_raw_parts-init :
      (n b : ℕ) (f : ℕ → Slot R) (val : ℕ → R)
      → ((k : ℕ) → b ≤ k → k < b + n → f k ≡ init (val k))
      → from_raw_parts (tabulate n b f) ≡ some (tabulate n b val)
  unfolding from_raw_parts
  from_raw_parts-init zero b f val h = refl
  from_raw_parts-init (suc n) b f val h = rw (
    h b (omega arith) (omega arith),
    from_raw_parts,
    from_raw_parts-init n (suc b) f val (λ k p q. h k (omega arith) (omega arith)),
  )

  -- What a teardown does to one slot.
  abbrev pub Drops : Bool → Slot R → Slot R → Type 0
  Drops flag x y =
      ((flag ≡ true) × (v : R) × (x ≡ init v) × (y ≡ dropped)) ⊎ ((flag ≡ false) × (x ≡ y))

  pub drop_successful-Drops :
      (n b : ℕ) (flag : ℕ → Bool) (f g : ℕ → Slot R)
      → ((k : ℕ) → b ≤ k → k < b + n → Drops (flag k) (f k) (g k))
      → drop_successful (tabulate n b flag) (tabulate n b f) ≡ some (tabulate n b g)
  unfolding drop_successful
  drop_successful-Drops zero b flag f g h = refl
  drop_successful-Drops (suc n) b flag f g h =
      let rest =
        drop_successful-Drops n (suc b) flag f g (λ k p q. h k (omega arith) (omega arith)) in
      elim (h b (omega arith) (omega arith)) [
        | inl (t, v, e, d) ↦ rw (t, e, d, drop_successful, rest)
        | inr (t, e) ↦ rw (t, e, drop_successful, rest)
      ]

module _ {P R : Type 0} where
  -- What is left of a slot by the teardown after the tasks of `done`.
  abbrev pub spent_at : (ℕ → Outcome P R) → List ℕ → ℕ → Slot R
  spent_at out done i = elim (contains done i) [ true ↦ spent (out i) | false ↦ uninit ]

  slot_at-Drops :
      (out : ℕ → Outcome P R) (done : List ℕ) (k : ℕ)
      → Drops (flag_at out done k) (slot_at out done k) (spent_at out done k)
  slot_at-Drops out done k = go (contains done k) (out k)
    where
      go :
          (c : Bool) (o : Outcome P R)
          → Drops
              (c && is_returned o)
              (if c then filled o else uninit)
              (elim c [ true ↦ spent o | false ↦ uninit ])
      go true (returned v) = inl (refl, v, refl, refl)
      go true (panicked p) = inr (refl, refl)
      go false o = inr (refl, refl)

  -- The teardown drops the result of each task that returned, once, and touches no other slot.
  pub teardown-buffer_after :
      (out : ℕ → Outcome P R) (n : ℕ) (done : List ℕ) (p : P)
      → teardown p (buffer_after out n done) ≡ unwound p (tabulate n 0 (spent_at out done))
  unfolding teardown
  teardown-buffer_after out n done p = rw (
    drop_successful-Drops n 0 (flag_at out done) (slot_at out done) (spent_at out done)
        (λ k _ _. slot_at-Drops out done k),
    teardown,
  )

  pub first_panic-returned :
      (val : ℕ → R) (done : List ℕ) → first_panic {P = P} (all_return val) done ≡ none
  first_panic-returned val [] = refl
  first_panic-returned val (i ∷ done) = rw (first_panic-returned val done)

  pub conclude_returned :
      (val : ℕ → R) (n : ℕ) (done : List ℕ)
      → IsComplete n done
      → conclude {P = P} (buffer_after (all_return val) n done) ≡ results (tabulate n 0 val)
  unfolding conclude take_panic_payload
  conclude_returned val n done c = rw (
    first_panic-returned val done,
    conclude,
    from_raw_parts-init n 0 (slot_at {P = P} (all_return val) done) val
        (λ k _ h. rw (c k (omega arith))),
  )

  pub conclude_panicked :
      (out : ℕ → Outcome P R) (n : ℕ) (done : List ℕ) (p : P)
      → first_panic out done ≡ some p
      → conclude (buffer_after out n done) ≡ unwound p (tabulate n 0 (spent_at out done))
  unfolding conclude take_panic_payload
  conclude_panicked out n done p e = rw (e, conclude) (teardown-buffer_after out n done p)
