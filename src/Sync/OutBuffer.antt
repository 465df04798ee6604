-- ===== src/Sync/OutBuffer.antt =====
-- src/sync/scoped/partition/driver_core.rs: the out-buffer of a registered executor's call, the task
-- that fills a slot of it, and its teardown.
use melinoe.Prelude.{
  ℕ, Bool, true, false, Option, none, some, List, [], ◌∷◌, replicate, set, if◌then◌else◌,
}
use mathlib.Core.Option
use melinoe.Machine.{Outcome, returned, panicked}

-- `MaybeUninit<R>`, with what the drop of a slot leaves.
pub data Slot (R : Type 0) : Type 0 where
  uninit dropped : Slot R
  init : R → Slot R

-- `std::sync::Mutex<PanicPayload>`
pub record PanicPayloadMutex (P : Type 0) : Type 0 where
  pub payload : Option P
  pub poisoned : Bool

-- What `lock` and `into_inner` return: both variants give access to the value.
pub data LockResult (A : Type 0) : Type 0 where
  locked : A → LockResult A
  poison_error : A → LockResult A

pub record Buffer (P R : Type 0) : Type 0 where
  pub slots : List (Slot R)
  pub successful : List Bool
  pub panic_payload : PanicPayloadMutex P

module _ {P : Type 0} where
  abbrev lock : PanicPayloadMutex P → LockResult (Option P)
  lock m = if m.poisoned then poison_error m.payload else locked m.payload

  into_inner_on : LockResult (Option P) → Option P
  into_inner_on (locked p) = p
  into_inner_on (poison_error p) = p

  unfoldable pub lock_panic_payload : PanicPayloadMutex P → Option P
  unfolding into_inner_on
  lock_panic_payload m = into_inner_on (lock m)

  unfoldable pub take_panic_payload : PanicPayloadMutex P → Option P
  unfolding into_inner_on
  take_panic_payload m = into_inner_on (lock m)

module _ {P R : Type 0} where
  -- The buffer of `num_chunks` slots before the executor runs.
  unfoldable pub fresh : ℕ → Buffer P R
  fresh num_chunks = record {
    slots = replicate num_chunks uninit;
    successful = replicate num_chunks false;
    panic_payload = record { payload = none; poisoned = false };
  }

  -- What the task does with its result; the first payload is kept.
  unfoldable pub settle : ℕ → Outcome P R → Buffer P R → Buffer P R
  unfolding lock_panic_payload
  settle index (returned val) b = record b {
    slots = set b.slots index (init val);
    successful = set b.successful index true;
  }
  settle index (panicked payload) b = record b {
    panic_payload = record {
      payload = elim (lock_panic_payload b.panic_payload) [ none ↦ some payload | some p ↦ some p ];
      poisoned = b.panic_payload.poisoned;
    };
  }

  -- `task_wrapper`, on the buffer and on the state `S` that the closure works on.
  unfoldable pub task_wrapper :
      {S : Type 0} → (ℕ → S → Outcome P R × S) → ℕ → Buffer P R × S → Buffer P R × S
  unfolding settle
  task_wrapper run index (b, s) = let (result, s') = run index s in (settle index result b, s')

module _ {R : Type 0} where
  -- `drop_in_place`: undefined behaviour, `none`, on a slot that holds no value.
  drop_in_place : Slot R → Option (Slot R)
  drop_in_place uninit = none
  drop_in_place dropped = none
  drop_in_place (init v) = some dropped

  -- The loop that drops each slot whose flag is set, in `Drop for ExecutorDropGuard` and in `drive`.
  unfoldable pub drop_successful : List Bool → List (Slot R) → Option (List (Slot R))
  unfolding drop_in_place
  drop_successful [] slots = some slots
  drop_successful (false ∷ bs) [] = drop_successful bs []
  drop_successful (true ∷ bs) [] = none
  drop_successful (false ∷ bs) (x ∷ xs) = Option.map (◌∷◌ x) (drop_successful bs xs)
  drop_successful (true ∷ bs) (x ∷ xs) = elim (drop_in_place x) [
    | none ↦ none
    | some y ↦ Option.map (◌∷◌ y) (drop_successful bs xs)
  ]

  -- `Vec::from_raw_parts` at `R`: undefined behaviour, `none`, unless every slot holds a value.
  unfoldable pub from_raw_parts : List (Slot R) → Option (List R)
  from_raw_parts [] = some []
  from_raw_parts (uninit ∷ xs) = none
  from_raw_parts (dropped ∷ xs) = none
  from_raw_parts (init v ∷ xs) = Option.map (◌∷◌ v) (from_raw_parts xs)
