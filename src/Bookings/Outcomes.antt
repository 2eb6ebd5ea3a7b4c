-- ===== src/Bookings/Outcomes.antt =====
-- The state machine's methods as one equation each, for the proofs that follow.
use project_atrium.Base.{
  ℕ, ◌≡◌, refl, Option, none, some, List, ◌∷◌, find_first, update_where, if◌then◌else◌,
  find_first-update_where, arith,
}
use Prim.Native.String.{String}
use project_atrium.Store.Status.{BookingStatus, is_legal_transition}
use project_atrium.Store.Tables.{Booking, Actor, Database}
use project_atrium.Store.Transaction.{Conflict, Failure, Result, ok, err}
use project_atrium.Bookings.StateMachine.{
  Patch, TransitionInput, apply_patch, has_id, is_unexpected, transition, record_side_effect,
}

-- The row that a transition writes over `b`.
abbrev pub moved : ℕ → TransitionInput → Booking → Booking
moved now input b = record (apply_patch input.patch now b) { status = input.to }

-- The database that a transition of the row `b` leaves: that row rewritten, one audit row more.
abbrev pub after_transition : ℕ → TransitionInput → Booking → Database → Database
after_transition now input b db = record db {
  bookings = update_where (has_id input.booking_id) (moved now input) db.bookings;
  audit =
      record {
        booking_id = b.id;
        actor = input.actor;
        from_state = b.status;
        to_state = input.to;
        reason = input.reason;
      }
      ∷ db.audit;
}

-- The three outcomes of a transition of a row that is there.
abbrev pub transition_outcome : ℕ → TransitionInput → Booking → Database → Result Booking × Database
transition_outcome now input b db =
    if is_unexpected input.expected_from b.status
    then (err (Failure.conflict (Conflict.unexpected_state b.status)), db)
    else if is_legal_transition b.status input.to
    then (ok (moved now input b), after_transition now input b db)
    else (err (Failure.conflict (Conflict.illegal_transition b.status input.to)), db)

module _ (now : ℕ) (input : TransitionInput) (db : Database) where
  -- A transition of a booking that is not there is a 404, and writes nothing.
  pub transition_missing :
      find_first (has_id input.booking_id) db.bookings ≡ none
      → transition now input db ≡ (err Failure.not_found, db)
  unfolding transition
  transition_missing e = ground arith

  -- A transition of a booking that is there: a 409 with nothing written where the state is not
  -- the expected one or the move is not in the table; else the row is rewritten and exactly one
  -- audit row is written, from the old state to the new.
  pub transition_found :
      (b : Booking)
      → find_first (has_id input.booking_id) db.bookings ≡ some b
      → transition now input db ≡ transition_outcome now input b db
  unfolding transition
  transition_found b e = ground (
    arith,
    find_first-update_where (has_id input.booking_id) (moved now input) db.bookings b (λ x. refl),
  )

-- The database that `record_side_effect` leaves.
abbrev pub after_side_effect : ℕ → ℕ → Actor → String → Patch → Booking → Database → Database
after_side_effect now id actor reason patch b db = record db {
  bookings = update_where (has_id id) (apply_patch patch now) db.bookings;
  audit =
      record {
        booking_id = b.id;
        actor = actor;
        from_state = b.status;
        to_state = b.status;
        reason = reason;
      }
      ∷ db.audit;
}

module _ (now id : ℕ) (actor : Actor) (reason : String) (patch : Patch)
    (expected : Option (List BookingStatus)) (db : Database) where
  pub side_effect_missing :
      find_first (has_id id) db.bookings ≡ none
      → record_side_effect now id actor reason patch expected db ≡ (err Failure.not_found, db)
  unfolding record_side_effect
  side_effect_missing e = ground arith

  pub side_effect_found :
      (b : Booking)
      → find_first (has_id id) db.bookings ≡ some b
      → record_side_effect now id actor reason patch expected db ≡ (
          if is_unexpected expected b.status
          then (err (Failure.conflict (Conflict.unexpected_state b.status)), db)
          else (ok (apply_patch patch now b), after_side_effect now id actor reason patch b db))
  unfolding record_side_effect
  side_effect_found b e =
      ground (
        arith,
        find_first-update_where (has_id id) (apply_patch patch now) db.bookings b (λ x. refl),
      )
