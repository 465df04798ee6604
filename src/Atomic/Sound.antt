-- ===== src/Atomic/Sound.antt =====
-- src/atomic: which orderings are refused.
use melinoe.Prelude.{
  ℕ, ◌≡◌, refl, sym, Bool, ◌∙◌, true, false, Option, none, some, ◌==◌, if◌then◌else◌,
}
use melinoe.Machine.{Outcome, returned}
use melinoe.Atomic.Order.{Ordering, AtomicOrder, relaxed_policy, acq_rel_policy, seq_cst_policy}
use melinoe.Atomic.Primitive.{Exchange, ok, err, can_load, can_store}
use melinoe.Atomic.Branded.{
  BrandedAtomic, within, load, load_with, store, store_with, compare_exchange,
  compare_exchange_with, fetch_update, fetch_update_with,
}

module _ {P : Type 0} where
  exchange_result :
      (b : Bool) (v new : ℕ)
      → within {R = Outcome P Exchange}
          (λ w. if b then (returned (ok w), new) else (returned (err w), w))
          (record { inner = v })
        ≡ (if b
            then (returned (ok v), record { inner = new })
            else (returned (err v), record { inner = v }))
  exchange_result true v new = refl
  exchange_result false v new = refl

  update_result :
      (o : Option ℕ) (v : ℕ)
      → within {R = Outcome P Exchange}
          (λ w. elim o [ none ↦ (returned (err w), w) | some next ↦ (returned (ok w), next) ])
          (record { inner = v })
        ≡ (elim o [
          | none ↦ (returned (err v), record { inner = v })
          | some next ↦ (returned (ok v), record { inner = next })
        ])
  update_result none v = refl
  update_result (some next) v = refl

module _ {P : Type 0} (bad_order : P) where
  -- No operation with a policy panics, and each does what its name says: a load gives the value, a
  -- store replaces it, an exchange replaces it exactly if it is the expected one, and an update
  -- replaces it exactly if the closure gives a value; what they return is the value before.
  pub policies_accepted :
      (order : AtomicOrder) (a : BrandedAtomic) (current new : ℕ) (f : ℕ → Option ℕ)
      → (load_with bad_order order a ≡ (returned a.inner, a))
        × (store_with bad_order new order a ≡ (returned tt, record { inner = new }))
        × (compare_exchange_with bad_order current new order a ≡ (
            if a.inner == current
            then (returned (ok a.inner), record { inner = new })
            else (returned (err a.inner), a)))
        × (fetch_update_with bad_order order f a ≡ (elim (f a.inner) [
          | none ↦ (returned (err a.inner), a)
          | some next ↦ (returned (ok a.inner), record { inner = next })
        ]))
  unfolding load_with store_with compare_exchange_with fetch_update_with
  policies_accepted relaxed_policy a current new f = (
    refl,
    refl,
    exchange_result (a.inner == current) a.inner new,
    update_result (f a.inner) a.inner,
  )
  policies_accepted acq_rel_policy a current new f = (
    refl,
    refl,
    exchange_result (a.inner == current) a.inner new,
    update_result (f a.inner) a.inner,
  )
  policies_accepted seq_cst_policy a current new f = (
    refl,
    refl,
    exchange_result (a.inner == current) a.inner new,
    update_result (f a.inner) a.inner,
  )

  -- Where the standard library takes the run-time ordering, the result is that of any policy: the
  -- orderings make no difference to what one operation after another computes.
  pub orderings_agree :
      (loads stores sets fails : Ordering) (order : AtomicOrder) (a : BrandedAtomic)
      (current new : ℕ) (f : ℕ → Option ℕ)
      → can_load loads ≡ true
      → can_store stores ≡ true
      → can_load fails ≡ true
      → (load bad_order loads a ≡ load_with bad_order order a)
        × (store bad_order new stores a ≡ store_with bad_order new order a)
        × (compare_exchange bad_order current new sets fails a
            ≡ compare_exchange_with bad_order current new order a)
        × (fetch_update bad_order sets fails f a ≡ fetch_update_with bad_order order f a)
  unfolding load store compare_exchange fetch_update
  orderings_agree loads stores sets fails order a current new f l s x =
      let (pl, ps, pc, pf) = policies_accepted order a current new f in
      (
        rw l (sym pl),
        rw s (sym ps),
        rw x (exchange_result (a.inner == current) a.inner new ∙ sym pc),
        rw x (update_result (f a.inner) a.inner ∙ sym pf),
      )
