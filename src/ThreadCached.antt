-- ===== src/ThreadCached.antt =====
-- src/thread_cached.rs: a value cached for each thread.
pub mod Threads
use mathlib.Core.Option
use melinoe.Prelude.{ℕ, Option, none, some, List, [], ◌∷◌, ◌==◌, if◌then◌else◌}
use melinoe.Machine.{Outcome, returned, panicked}

module _ {P T : Type 0} where
  -- `init` runs on the calling thread, whose cache it may use itself, and may panic.
  unfoldable pub get_or_init :
      (Option T → Outcome P T × Option T) → Option T → Outcome P T × Option T
  get_or_init init (some value) = (returned value, some value)
  get_or_init init none =
      let (o, c) = init none in
      elim o [ returned value ↦ (returned value, some value) | panicked p ↦ (panicked p, c) ]

module _ {T : Type 0} where
  unfoldable pub set : T → Option T → Option T
  set value c = some value

  unfoldable pub get : Option T → Option T
  get c = c

  unfoldable pub clear : Option T → Option T
  clear c = none

-- A call, and what it gives: `none` from `set` and `clear`.
pub data Call (P T : Type 0) : Type 0 where
  on_get_or_init : (Option T → Outcome P T × Option T) → Call P T
  on_set : T → Call P T
  on_get on_clear : Call P T

module _ {P T : Type 0} where
  abbrev pub given : Outcome P T → Outcome P (Option T)
  given o = elim o [ returned v ↦ returned (some v) | panicked p ↦ panicked p ]

  unfoldable pub call : Call P T → Option T → Outcome P (Option T) × Option T
  unfolding get_or_init set get clear
  call (on_get_or_init init) c = let (o, d) = get_or_init init c in (given o, d)
  call (on_set value) c = (returned none, set value c)
  call on_get c = (returned (get c), c)
  call on_clear c = (returned none, clear c)

  -- Calls by threads in the order in which they happen; `thread_local!` gives each thread a cell of its
  -- own, which are `caches`.
  unfoldable pub calls :
      List (ℕ × Call P T) → (ℕ → Option T) → List (ℕ × Outcome P (Option T)) × (ℕ → Option T)
  unfolding call
  calls [] caches = ([], caches)
  calls ((thread, op) ∷ ops) caches =
      let (o, c) = call op (caches thread) in
      let (os, d) = calls ops (λ t. if thread == t then c else caches t) in ((thread, o) ∷ os, d)
