-- ===== src/Bookings/Tests.antt =====
-- The theorems on bookings at concrete databases.
use project_atrium.Base.{
  Bool, true, ◌==◌, ℕ, ◌+◌, ◌*◌, ◌≤◌, ◌<◌, ◌≡◌, refl, ◌↔◌, inl, false, some, List, [], ◌∷◌,
  find_first, length, arith,
}
use project_atrium.Store.Status.{held, pending_payment, cancelled, is_legal_transition, is_active}
use project_atrium.Store.Tables.{Booking, Database, system_actor}
use project_atrium.Store.Transaction.{Conflict, Failure, ok, err, transaction}
use project_atrium.Samples.{
  ali, other_venue_admin, held_booking, with_booking, empty_database, env, two_tables, room,
  table_type,
}
use project_atrium.Bookings.StateMachine.{
  TransitionInput, no_patch, has_id, transition, record_side_effect,
}
use project_atrium.Bookings.Outcomes.{transition_outcome, transition_found, after_transition}
use project_atrium.Bookings.Trail.{state_after, IsSound, IsDistinct, ids}
use project_atrium.Bookings.Creation.{IsFresh}
use project_atrium.Bookings.Equipment.{Usage, peak}
use project_atrium.Bookings.SweepLine.{in_use_at, peak-le_iff}
use project_atrium.Bookings.Service.{
  load_owned_booking, scope_filter, select_scoped, checkout, cancel, rearm, lifetime_cap,
}
use project_atrium.Bookings.Scope.{MayActOn, IsRefused, foreign-IsRefused}
use project_atrium.Bookings.Checkout.{IsWaiting, rearmed, checkout_ok, checkout_lapsed}
use project_atrium.Bookings.Cancel.{cancellation, cancel_outcome}
use project_atrium.Bookings.Equipment.{is_due}
use project_atrium.Bookings.Hold.{hold_once, lock_equipment_types, admit_types}
use project_atrium.Bookings.Attempts.{hold, hold_decided}
use project_atrium.Bookings.Admission.{units_out, admit_types_within}

abbrev one_hold : Database
one_hold = with_booking held_booking

one_hold-IsSound : IsSound one_hold
unfolding state_after is_legal_transition
one_hold-IsSound = record { tracked = ((refl, λ e. cc), tt); unique = (refl, tt); apart = (tt, tt) }

abbrev to_payment : TransitionInput
to_payment = record {
  booking_id = 1;
  to = pending_payment;
  actor = system_actor;
  reason = "payment.initiated";
  expected_from = some (held ∷ []);
  patch = no_patch;
}

transition_found_example :
    transition 50 to_payment one_hold ≡ transition_outcome 50 to_payment held_booking one_hold
transition_found_example = transition_found 50 to_payment one_hold held_booking refl

empty-IsFresh : IsFresh 1 empty_database
empty-IsFresh = record { no_booking = refl; no_event = tt }

empty-IsSound : IsSound empty_database
empty-IsSound = record { tracked = tt; unique = tt; apart = tt }

abbrev uses : List Usage
uses =
    record { window_start = 10; window_end = 20; quantity = 3 }
    ∷ record { window_start = 15; window_end = 30; quantity = 4 }
    ∷ record { window_start = 20; window_end = 40; quantity = 5 }
    ∷ []

peak-le_iff_example : (peak uses ≤ 9) ↔ ((t : ℕ) → in_use_at t uses ≤ 9)
peak-le_iff_example = peak-le_iff uses 9 (omega arith, (omega arith, (omega arith, tt)))

one_hold-IsDistinct : IsDistinct (ids one_hold.bookings)
one_hold-IsDistinct = (refl, tt)

foreign :
    (b : Booking)
    → find_first (has_id 1) one_hold.bookings ≡ some b
    → ¬ MayActOn other_venue_admin b
foreign b e may = ground (arith, e, may)

foreign-IsRefused_example :
    IsRefused one_hold (checkout 50 env 1 other_venue_admin one_hold)
    × IsRefused one_hold (cancel 50 1 "tenant" other_venue_admin one_hold)
foreign-IsRefused_example =
    foreign-IsRefused 50 1 env "tenant" other_venue_admin one_hold one_hold-IsDistinct foreign

abbrev after_checkout : Database
after_checkout = (checkout 500000 env 1 ali one_hold).1

checkout_ok_example :
    (b : Booking) × (find_first (has_id 1) one_hold.bookings ≡ some b)
    × MayActOn ali b
    × IsWaiting b
    × (is_due b.expires_at 500000 ≡ false)
    × (b.rearm_count < 2)
    × (500000 < lifetime_cap env b)
    × (rearmed 500000 env held_booking ≡ rearmed 500000 env b)
    × (find_first (has_id 1) after_checkout.bookings ≡ some (rearmed 500000 env held_booking))
unfolding checkout transaction load_owned_booking is_active rearm record_side_effect
checkout_ok_example =
    checkout_ok 500000 env 1 ali one_hold (rearmed 500000 env held_booking) after_checkout
      one_hold-IsDistinct refl

checkout_lapsed_example :
    (checkout 700000 env 1 ali one_hold ≡ (err (Failure.conflict Conflict.hold_expired), one_hold))
    × (find_first (has_id 1) (checkout 700000 env 1 ali one_hold).1.bookings ≡ some held_booking)
unfolding load_owned_booking scope_filter select_scoped
checkout_lapsed_example =
    checkout_lapsed 700000 env 1 ali one_hold held_booking refl refl (inl refl) refl

cancel_outcome_example : cancel 50 1 "changed plans" ali one_hold ≡ (
  ok (record held_booking { status = cancelled; updated_at = 50 }),
  after_transition 50 (cancellation 1 "changed plans" ali) held_booking one_hold,
)
unfolding load_owned_booking scope_filter select_scoped
cancel_outcome_example = cancel_outcome 50 1 "changed plans" ali one_hold held_booking refl refl

-- Two tables are out with the booking that is held, and two more are asked for.
held_units : units_out 50 9 (two_tables.starts_at) one_hold.bookings one_hold.line_items ≡ 2
held_units = refl

admit_types_within_example :
    (100 * (units_out 50 9 (two_tables.starts_at) one_hold.bookings one_hold.line_items + 2)
      ≤ 5 * (100 + room.overbooking_buffer_pct))
    × (3 ≡ room.venue_id)
    × (length (lock_equipment_types ((9, 2) ∷ []) one_hold) ≡ 1)
    × (one_hold ≡ one_hold)
unfolding admit_types is_active
admit_types_within_example =
    admit_types_within 50 (two_tables.starts_at) 9 two_tables room ((9, 2) ∷ []) one_hold one_hold _
      (9, 2) table_type (omega arith) (omega arith, tt) refl refl refl (omega arith) (omega arith)

-- Postgres aborts the first attempt.
abbrev first_only : ℕ → Bool
first_only n = n == 1

first_aborted : (i : ℕ) → 0 < i → i < 2 → first_only i ≡ true
first_aborted i low high = ground (arith, low, high)

hold_decided_example :
    hold 0 env 1 two_tables room ali first_only empty_database
    ≡ hold_once 0 env 1 two_tables room ali empty_database
hold_decided_example =
    hold_decided 0 env 1 two_tables room ali first_only 2 empty_database (omega arith) (omega arith)
      first_aborted refl

abbrev always : ℕ → Bool
always n = true

always_aborted : (i : ℕ) → 0 < i → i ≤ 3 → always i ≡ true
always_aborted i low high = refl
