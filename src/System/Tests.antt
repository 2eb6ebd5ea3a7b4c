-- ===== src/System/Tests.antt =====
-- A history of the services at a concrete database.
use project_atrium.Base.{refl}
use project_atrium.Store.Tables.{Database}
use project_atrium.Samples.{ali, env, two_tables, room, empty_database}
use project_atrium.Bookings.Trail.{IsSound}
use project_atrium.Bookings.Creation.{IsFresh}
use project_atrium.Bookings.Service.{checkout, cancel}
use project_atrium.Bookings.Hold.{hold_once}
use project_atrium.System.Step.{Reach, at_start, after, by_hold, by_checkout, by_cancel}
use project_atrium.System.Reach.{reached-IsSound}

nothing_drawn : IsFresh 1 empty_database
nothing_drawn = record { no_booking = refl; no_event = tt }

abbrev once_held : Database
once_held = (hold_once 0 env 1 two_tables room ali empty_database).1

abbrev checked_out : Database
checked_out = (checkout 500000 env 1 ali once_held).1

abbrev given_up : Database
given_up = (cancel 600000 1 "changed plans" ali checked_out).1

history : Reach empty_database given_up
history =
    after
      (after (after at_start (by_hold 0 env 1 two_tables room ali nothing_drawn))
        (by_checkout 500000 env 1 ali))
      (by_cancel 600000 1 "changed plans" ali)

reached-IsSound_example : IsSound given_up
reached-IsSound_example = reached-IsSound empty_database given_up history refl
