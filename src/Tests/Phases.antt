-- ===== src/Tests/Phases.antt =====
-- src/atomic under the permits of src/token: an exclusive phase and a shared one.
use melinoe.Prelude.{ℕ, ◌+◌, ◌≡◌, refl, true, false, List, [], ◌∷◌, none, some, ◌>>=◌}
use melinoe.Machine.{Outcome}
use melinoe.Token.{exclusive_family, Token, by_mut, by_ref, lent, new_unchecked}
use melinoe.Token.World.{MelinoeCell, held, view, World, empty, borrow_mut}
use melinoe.Token.Run.{opens, lends, allocates, borrows_mut, step}
use melinoe.Atomic.Order.{acq_rel_policy}
use melinoe.Atomic.Primitive.{AtomicInt, fetch_add}
use melinoe.Atomic.Branded.{BrandedAtomic, fetch_with}
use melinoe.Atomic.Phases.{
  Content, value, atom, Action, token_event, operate, operate_view, exclusive, act_all,
}
use melinoe.Atomic.Phases.Apart.{plain_phase_alone, shared_phase_unwritten}

abbrev word : AtomicInt
word = record { bits = 64; signed = false }

abbrev adds_one : BrandedAtomic → Outcome ℕ ℕ × BrandedAtomic
adds_one a = fetch_with word fetch_add 1 acq_rel_policy a

abbrev counter : List (Action ℕ)
counter =
    token_event (opens exclusive_family 7)
    ∷ token_event (allocates 0 (atom (record { inner = 40 }) ∷ value 5 ∷ []))
    ∷ []

abbrev owner : Token
owner = new_unchecked 0 exclusive_family 7

abbrev of_owner : {T : Type 0} → T → MelinoeCell T
of_owner x = record { brand = 0; value = x }

abbrev in_plain_phase : World (Content ℕ)
in_plain_phase = record {
  next = 1;
  tokens = owner ∷ [];
  loans = view (lent 0 owner by_mut) true 0 1 ∷ [];
  cells = of_owner (atom (record { inner = 40 })) ∷ of_owner (value 5) ∷ [];
}

plain_phase_alone_example :
    (operate 0 0 adds_one in_plain_phase ≡ none)
    × (operate_view 0 0 adds_one in_plain_phase ≡ none)
    × (borrow_mut 0 0 in_plain_phase ≡ none)
unfolding act_all
plain_phase_alone_example =
    plain_phase_alone
      (token_event (opens exclusive_family 7)
        ∷ token_event (allocates 0 (atom (record { inner = 40 }) ∷ value 5 ∷ []))
        ∷ token_event (lends 0 true)
        ∷ token_event (borrows_mut 0 0)
        ∷ [])
      in_plain_phase 0 0 _ 0 adds_one refl refl refl refl

abbrev in_shared_phase : World (Content ℕ)
in_shared_phase = record {
  next = 1;
  tokens = owner ∷ [];
  loans = held (lent 0 owner by_ref) ∷ [];
  cells = of_owner (atom (record { inner = 40 })) ∷ of_owner (value 5) ∷ [];
}

shared_phase_unwritten_example : borrow_mut 0 0 in_shared_phase ≡ none
unfolding act_all
shared_phase_unwritten_example =
    shared_phase_unwritten
      (token_event (opens exclusive_family 7)
        ∷ token_event (allocates 0 (atom (record { inner = 40 }) ∷ value 5 ∷ []))
        ∷ token_event (lends 0 false)
        ∷ [])
      in_shared_phase 0 0 0 _ _ refl refl refl refl refl

-- A plain access under `&mut token`.
exclusive_run :
    (act_all counter (empty (Content ℕ)) >>= λ w.
    step (lends 0 true) w >>= exclusive 0 0 (λ v. (v, v + 2)))
    ≡ some (
      40,
      record in_plain_phase {
        loans = [];
        cells = of_owner (atom (record { inner = 42 })) ∷ of_owner (value 5) ∷ [];
      },
    )
unfolding act_all step exclusive
exclusive_run = refl
