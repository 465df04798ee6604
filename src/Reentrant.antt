-- ===== src/Reentrant.antt =====
-- src/reentrant: the flag that refuses a re-entrant call, and the two gates that it guards.
pub mod Program
pub mod Exclusive
use mathlib.Core.Option
use melinoe.Prelude.{ℕ, ◌+◌, ◌-◌, Bool, true, false, Option, none, some, max, if◌then◌else◌}
use melinoe.Machine.{Outcome, returned, panicked}

-- `Result<R, Reentered>`
pub data Entry (R : Type 0) : Type 0 where
  entered : R → Entry R
  reentered : Entry R

-- `Reset::acquire`: the flag armed, or `none` for `Err(Reentered)`.
unfoldable pub acquire : Bool → Option Bool
acquire active = if active then none else some true

-- `Drop for Reset`
unfoldable pub drop : Bool → Bool
drop active = false

-- The value is what a call returns; a panic goes on.
abbrev pub ok : {P R : Type 0} → Outcome P R → Outcome P (Entry R)
ok o = elim o [ returned r ↦ returned (entered r) | panicked p ↦ panicked p ]

-- `ReentrancyCell`, beside the state `S` that the closure works on, which may enter the gate again.
pub record ReentrancyCell (S : Type 0) : Type 0 where
  pub active : Bool
  pub ambient : S

module _ {P R S : Type 0} where
  unfoldable pub gate_enter :
      (ReentrancyCell S → Outcome P R × ReentrancyCell S)
      → ReentrancyCell S
      → Outcome P (Entry R) × ReentrancyCell S
  unfolding acquire drop
  gate_enter f g = elim (acquire g.active) [
    | none ↦ (returned reentered, g)
    | some armed ↦
        let (o, g') = f (record { active = armed; ambient = g.ambient }) in
        (ok o, record { active = drop g'.active; ambient = g'.ambient })
  ]

-- `GuardedCell`. `live` counts the `&mut T` that there are, and `peak` is the most that there were.
pub record GuardedCell (T : Type 0) : Type 0 where
  pub active : Bool
  pub value : T
  pub live : ℕ
  pub peak : ℕ

module _ {T : Type 0} where
  unfoldable pub new : T → GuardedCell T
  new value = record { active = false; value = value; live = 0; peak = 0 }

  unfoldable pub into_inner : GuardedCell T → T
  into_inner c = c.value

  unfoldable pub is_active : GuardedCell T → Bool
  is_active c = c.active

  -- A use of `get_mut`, which needs no flag.
  unfoldable pub get_mut : (T → T) → GuardedCell T → GuardedCell T
  get_mut g c = record { active = c.active; value = g c.value; live = c.live; peak = c.peak }

  -- `&mut *self.value.get()` is made, and given up.
  abbrev pub borrow : Bool → GuardedCell T → GuardedCell T
  borrow active c = record {
    active = active;
    value = c.value;
    live = c.live + 1;
    peak = max c.peak (c.live + 1);
  }

  abbrev pub give_up : Bool → GuardedCell T → GuardedCell T
  give_up active c = record { active = active; value = c.value; live = c.live - 1; peak = c.peak }

module _ {P R T : Type 0} where
  -- The closure may use the cell itself, as a capture.
  unfoldable pub enter :
      (GuardedCell T → Outcome P R × GuardedCell T)
      → GuardedCell T
      → Outcome P (Entry R) × GuardedCell T
  unfolding acquire drop
  enter f c = elim (acquire c.active) [
    | none ↦ (returned reentered, c)
    | some armed ↦ let (o, c') = f (borrow armed c) in (ok o, give_up (drop c'.active) c')
  ]

  unfoldable pub enter_unguarded :
      (GuardedCell T → Outcome P R × GuardedCell T)
      → GuardedCell T
      → Outcome P (Entry R) × GuardedCell T
  enter_unguarded f c =
      if c.active
      then (returned reentered, c)
      else (let (o, c') = f (borrow c.active c) in (ok o, give_up c'.active c'))
