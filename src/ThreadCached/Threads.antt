-- ===== src/ThreadCached/Threads.antt =====
-- src/thread_cached.rs: the threads' caches do not meet.
use melinoe.Prelude.{
  ℕ, ◌≡◌, refl, ap, ap₂, ◌∙◌, inl, inr, Option, none, some, List, [], ◌∷◌, map, ◌==◌, ==→eq,
  ==_refl, Bool-cases, if◌then◌else◌,
}
use melinoe.Machine.{Outcome, returned, panicked}
use melinoe.ThreadCached.{
  Call, on_get_or_init, on_set, on_get, on_clear, get_or_init, given, call, calls,
}

-- The entries of thread `t`, in order.
abbrev pub of_thread {ℓ} : {A : Type ℓ} → ℕ → List (ℕ × A) → List A
of_thread t [] = []
of_thread t ((u, x) ∷ rest) = if u == t then x ∷ of_thread t rest else of_thread t rest

module _ {P T : Type 0} where
  -- A thread alone with its cache.
  abbrev pub alone : List (Call P T) → Option T → List (Outcome P (Option T)) × Option T
  alone [] c = ([], c)
  alone (op ∷ ops) c = let (o, d) = call op c in let (os, e) = alone ops d in (o ∷ os, e)

  -- For any calls by any threads in any order, what thread `t` gets from its calls, and its cache
  -- afterwards, are what they would be if no other thread made any call.
  pub calls-alone :
      (t : ℕ) (ops : List (ℕ × Call P T)) (caches : ℕ → Option T)
      → (of_thread t (calls ops caches).0 ≡ (alone (of_thread t ops) (caches t)).0)
        × ((calls ops caches).1 t ≡ (alone (of_thread t ops) (caches t)).1)
  unfolding calls
  calls-alone t [] caches = (refl, refl)
  calls-alone t ((u, op) ∷ ops) caches =
      let d = call op (caches u) in
      let (os, c) = calls-alone t ops (λ k. if u == k then d.1 else caches k) in
      elim (Bool-cases (u == t)) [
        | inl mine ↦
            let q = ==→eq u t mine in
            let rest = of_thread t ops in
            rw mine (
              ap₂ ◌∷◌ (ap (λ k. (call op (caches k)).0) q)
                  (os ∙ rw mine (ap (λ k. (alone rest (call op (caches k)).1).0) q)),
              c ∙ rw mine (ap (λ k. (alone rest (call op (caches k)).1).1) q),
            )
        | inr other ↦ rw other (os ∙ rw other refl, c ∙ rw other refl)
      ]

  -- A call that reads the cache, or fills it if it is empty.
  abbrev pub IsRead : Call P T → Type 0
  IsRead (on_get_or_init init) = Unit {0}
  IsRead (on_set v) = ⊥
  IsRead on_get = Unit {0}
  IsRead on_clear = ⊥

  abbrev pub AllRead : List (Call P T) → Type 0
  AllRead [] = Unit {0}
  AllRead (op ∷ ops) = IsRead op × AllRead ops

  settled :
      (ops : List (Call P T)) (v : T)
      → AllRead ops
      → alone ops (some v) ≡ (map (λ _. returned (some v)) ops, some v)
  unfolding call get_or_init
  settled [] v h = refl
  settled (on_get_or_init init ∷ ops) v h =
      ap (λ r. (returned (some v) ∷ r.0, r.1)) (settled ops v h.1)
  settled (on_set w ∷ ops) v h = absurd h.0
  settled (on_get ∷ ops) v h = ap (λ r. (returned (some v) ∷ r.0, r.1)) (settled ops v h.1)
  settled (on_clear ∷ ops) v h = absurd h.0

  filled :
      (init : Option T → Outcome P T × Option T) (v : T)
      → (init none).0 ≡ returned v
      → call (on_get_or_init init) none ≡ (returned (some v), some v)
  unfolding call get_or_init
  filled init v ran =
      let store : Outcome P T → Outcome P T × Option T = λ o. elim o [
        | returned w ↦ (returned w, some w)
        | panicked p ↦ (panicked p, (init none).1)
      ] in
      ap (λ o. (given (store o).0, (store o).1)) ran

  filled_alone :
      (init : Option T → Outcome P T × Option T) (v : T) (ops : List (Call P T))
      → (init none).0 ≡ returned v
      → AllRead ops
      → alone (on_get_or_init init ∷ ops) none
        ≡ (returned (some v) ∷ map (λ _. returned (some v)) ops, some v)
  filled_alone init v ops ran reads =
      ap (λ r. (r.0 ∷ (alone ops r.1).0, (alone ops r.1).1)) (filled init v ran)
      ∙ ap (λ r. (returned (some v) ∷ r.0, r.1)) (settled ops v reads)

  -- Once an initializer has returned on a thread with an empty cache, all its later reads give that
  -- value and run no initializer, until it sets or clears its cache; what the other threads do makes
  -- no difference.
  pub get_or_init_once :
      (t : ℕ) (init : Option T → Outcome P T × Option T) (v : T) (ops : List (ℕ × Call P T))
      (caches : ℕ → Option T)
      → caches t ≡ none
      → (init none).0 ≡ returned v
      → AllRead (of_thread t ops)
      → (of_thread t (calls ((t, on_get_or_init init) ∷ ops) caches).0
          ≡ returned (some v) ∷ map (λ _. returned (some v)) (of_thread t ops))
        × ((calls ((t, on_get_or_init init) ∷ ops) caches).1 t ≡ some v)
  get_or_init_once t init v ops caches empty ran reads =
      let gi : Call P T = on_get_or_init init in
      let (os, c) = calls-alone t ((t, gi) ∷ ops) caches in
      let e : alone (of_thread t ((t, gi) ∷ ops)) (caches t)
          ≡ (returned (some v) ∷ map (λ _. returned (some v)) (of_thread t ops), some v) =
        rw (==_refl t, empty) (filled_alone init v (of_thread t ops) ran reads) in
      (os ∙ ap (λ r. r.0) e, c ∙ ap (λ r. r.1) e)
