-- ===== src/Reports/Tests.antt =====
-- The revenue report at a concrete venue.
use project_atrium.Base.{ℕ, ◌/◌, ◌≡◌, refl, none, some, [], ◌∷◌, negsuc}
use project_atrium.Store.Status.{venue_admin, confirmed, PaymentStatus}
use project_atrium.Store.Tables.{AuthPrincipal, Booking, Payment, Database}
use project_atrium.Store.Inventory.{Venue, RoomRow, Inventory}
use project_atrium.Samples.{in_state, cancelled_booking, payment_in, with_booking}
use project_atrium.Rooms.Days.{plain, mornings}
use project_atrium.Reports.Revenue.{RoomRevenue, by_earnings}
use project_atrium.Reports.Report.{Zones, report_of, revenue}
use project_atrium.Reports.Agree.{AddsUp, revenue-AddsUp}

abbrev zones : Zones
zones = record { calendar = plain; local_day = λ zone instant. instant / 86400000 }

abbrev admin : AuthPrincipal
admin = record { user_id = 9; role = venue_admin; venue_id = some 3 }

abbrev hotel : Venue
hotel = record {
  id = 3;
  name = "hotel";
  city = "Karachi";
  timezone = 0;
  operating_hours = some mornings;
  overbooking_buffer_pct = 0;
  created_at = 0;
}

abbrev studio : RoomRow
studio = record {
  id = 5;
  venue_id = 3;
  name = "studio";
  capacity = 6;
  hourly_rate_minor = 2000;
  amenities = [];
  min_duration_minutes = 60;
  max_duration_minutes = 240;
}

abbrev inventory : Inventory
inventory = record { venues = hotel ∷ []; rooms = studio ∷ []; equipment_types = [] }

abbrev booking : Booking
booking = in_state confirmed none none

abbrev one_booking : Database
one_booking = with_booking booking

revenue-AddsUp_example :
    (admin.venue_id ≡ some hotel.id)
    × AddsUp zones 0 400000000 one_booking (report_of zones hotel 0 400000000 inventory one_booking)
unfolding report_of
revenue-AddsUp_example =
    revenue-AddsUp zones 0 400000000 inventory one_booking (refl, tt) admin
      (report_of zones hotel 0 400000000 inventory one_booking) (unfold revenue in refl)

abbrev refunded_payment : Payment
refunded_payment = record (payment_in PaymentStatus.refunded (some 77)) { refunded_minor = 4600 }

-- Nothing was kept and nothing was lost, and the net is -4600.
abbrev given_back : Database
given_back = record (with_booking cancelled_booking) { payments = refunded_payment ∷ [] }

net_below_zero : (report_of zones hotel 0 400000000 inventory given_back).net_minor ≡ negsuc 4599
unfolding report_of
net_below_zero = refl

-- `ORDER BY 5 DESC` compares texts: the room that earned 900 stands before the one with 10000.
abbrev earning : ℕ → ℕ → RoomRevenue
earning id gross = record {
  room_id = id;
  room_name = "room";
  bookings = 1;
  booked_minutes = 60;
  gross_minor = gross;
}

less_before_more :
    by_earnings (earning 1 10000 ∷ earning 2 900 ∷ []) ≡ earning 2 900 ∷ earning 1 10000 ∷ []
unfolding by_earnings
less_before_more = refl
