-- ===== src/Rooms/Tests.antt =====
-- Availability on a concrete day.
use project_atrium.Base.{
  ℕ, ◌+◌, ◌≡◌, refl, true, false, ◌⊎◌, inl, none, some, [], ◌∷◌, ltb, any_of, All, arith,
}
use project_atrium.Store.Status.{confirmed, is_active}
use project_atrium.Store.Tables.{Booking, Database}
use project_atrium.Bookings.StateMachine.{turnaround, is_excluded, clashes}
use project_atrium.Rooms.Days.{plain, mornings}
use project_atrium.Samples.{in_state, with_booking}
use project_atrium.Rooms.Hours.{OpenWindow}
use project_atrium.Rooms.Availability.{Room, Range, enumerate, free_slots}
use project_atrium.Rooms.Offered.{IsOfferIn, is_same, enumerate-IsOffer, enumerate_complete}
use project_atrium.Rooms.Advice.{in_slot, meets, free_slots-IsFree}

abbrev small_room : Room
small_room = record {
  id = 1;
  min_duration_minutes = 60;
  max_duration_minutes = 480;
  time_zone = 0;
  operating_hours = some mornings;
}

-- Ten o'clock to noon on day 3, in one window from nine to noon.
abbrev three_days : ℕ
three_days = 259200000

abbrev window : OpenWindow
window = record { opens_at = 291600000; closes_at = 302400000 }

abbrev range : Range
range = record {
  from = 295200000;
  to = 302400000;
  duration_minutes = 60;
  turnaround_minutes = 15;
  busy = record { from = 295200000; to = 297000000 } ∷ [];
  earliest = 200000000;
}

-- Booked until half past ten with the turnaround: half past ten and eleven are left.
two_slots :
    enumerate range (window ∷ [])
    ≡ record { starts_at = 297000000; ends_at = 300600000 }
      ∷ record { starts_at = 298800000; ends_at = 302400000 }
      ∷ []
unfolding enumerate
two_slots = refl

enumerate-IsOffer_example : All (IsOfferIn range (window ∷ [])) (enumerate range (window ∷ []))
enumerate-IsOffer_example = enumerate-IsOffer range (window ∷ [])

enumerate_complete_example :
    any_of
      (is_same (record { starts_at = 297000000; ends_at = 300600000 }))
      (enumerate range (window ∷ []))
    ≡ true
enumerate_complete_example =
    enumerate_complete range (window ∷ []) (record { starts_at = 297000000; ends_at = 300600000 })
      (omega arith)
      (inl (record {
        on_grid = refl;
        within = (omega arith, omega arith);
        asked = (omega arith, omega arith);
        length = refl;
        early = omega arith;
        free = refl;
      }))

abbrev room_five : Room
room_five = record small_room { id = 5 }

abbrev asks : Booking
asks = in_state confirmed none none

abbrev booked : Database
booked = with_booking (in_state confirmed none none)

-- A morning whose last hours are booked from twenty past eleven.
free_slots-IsFree_example :
    All
      (λ s.
        (ltb 302400000 (s.ends_at + turnaround) ≡ true)
        ⊎ All (λ c. meets 0 (in_slot asks 5 s) c ≡ false) booked.bookings)
      (free_slots plain 0 15 room_five mornings 291600000 302400000 60 booked)
free_slots-IsFree_example =
    free_slots-IsFree plain 0 room_five mornings 291600000 302400000 60 booked asks

three_slots :
    free_slots plain 0 15 room_five mornings 291600000 302400000 60 booked
    ≡ record { starts_at = 291600000; ends_at = 295200000 }
      ∷ record { starts_at = 293400000; ends_at = 297000000 }
      ∷ record { starts_at = 295200000; ends_at = 298800000 }
      ∷ []
unfolding free_slots is_active
three_slots = refl

-- A booking that starts where the range ends is not seen: the slot before it is offered, and the
-- constraint refuses a booking in it, whose turnaround reaches into the other.
abbrev next_booking : Booking
next_booking = record (in_state confirmed none none) { starts_at = 298800000 }

offered_up_to_a_booking :
    free_slots plain 0 15 room_five mornings 295200000 298800000 60 (with_booking next_booking)
    ≡ record { starts_at = 295200000; ends_at = 298800000 } ∷ []
unfolding free_slots is_active
offered_up_to_a_booking = refl

excluded_by_it :
    is_excluded
      (in_slot asks 5 (record { starts_at = 295200000; ends_at = 298800000 }))
      (next_booking ∷ [])
    ≡ true
unfolding is_excluded is_active clashes
excluded_by_it = refl
