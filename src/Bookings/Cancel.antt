-- ===== src/Bookings/Cancel.antt =====
-- Cancellation: what it leaves in each state of the booking.
use project_atrium.Base.{
  ℕ, ◌≡◌, ◌||◌, none, some, find_first, arith, if◌then◌else◌, ==→eq, find_first-holds,
}
use Prim.Native.String.{String}
use project_atrium.Store.Status.{held, confirmed, cancelled, is_status, is_legal_transition}
use project_atrium.Store.Tables.{AuthPrincipal, Booking, Database, user_actor}
use project_atrium.Store.Transaction.{Conflict, Failure, ok, err, transaction}
use project_atrium.Bookings.StateMachine.{no_patch, TransitionInput, has_id}
use project_atrium.Bookings.Outcomes.{after_transition, transition_found}
use project_atrium.Bookings.Service.{load_owned_booking, cancel}

-- The transition that a cancellation asks for.
abbrev pub cancellation : ℕ → String → AuthPrincipal → TransitionInput
cancellation id reason p = record {
  booking_id = id;
  to = cancelled;
  actor = user_actor p;
  reason = reason;
  expected_from = none;
  patch = no_patch;
}

-- A cancellation of a booking that the principal may act on: a HELD or a CONFIRMED booking
-- becomes CANCELLED, with one audit row; one in any other state, a second cancellation among
-- them, is a 409 that changes nothing.
pub cancel_outcome :
    (now id : ℕ) (reason : String) (p : AuthPrincipal) (db : Database) (b : Booking)
    → load_owned_booking id p db ≡ (ok b, db)
    → find_first (has_id id) db.bookings ≡ some b
    → cancel now id reason p db ≡ (
        if is_status b.status held || is_status b.status confirmed
        then (
          ok (record b { status = cancelled; updated_at = now }),
          after_transition now (cancellation id reason p) b db,
        )
        else (err (Failure.conflict (Conflict.illegal_transition b.status cancelled)), db))
unfolding cancel transaction is_legal_transition
cancel_outcome now id reason p db b loaded found =
    let same : b.id ≡ id = ==→eq b.id id (find_first-holds (has_id id) db.bookings b found) in
    ground (arith, loaded, same, transition_found now (cancellation id reason p) db b found)
