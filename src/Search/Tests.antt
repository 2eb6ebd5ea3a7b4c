-- ===== src/Search/Tests.antt =====
-- Searches on a concrete morning.
use project_atrium.Base.{
  ◌≡◌, refl, Bool, ◌&&◌, none, some, List, [], ◌∷◌, map, filter_by, length, All, arith, ◌==◌,
}
use text.Mathlib.Text.{◌==◌ as ◌is◌}
use project_atrium.Store.Status.{confirmed, is_active}
use project_atrium.Store.Tables.{Booking}
use project_atrium.Store.Inventory.{Venue, RoomRow, Inventory}
use project_atrium.Samples.{in_state}
use project_atrium.Rooms.Hours.{is_within_operating_hours}
use project_atrium.Rooms.Availability.{free_room_ids}
use project_atrium.Rooms.Days.{plain, mornings}
use project_atrium.Search.Query.{SearchQuery, Hit, Context, joined, search_rooms}
use project_atrium.Search.Pages.{pages_to}
use project_atrium.Search.Complete.{is_wanted, search_pages}
use project_atrium.Search.Sound.{IsShown, search_rooms-IsShown}

abbrev context : Context
context = record { now = 0; turnaround_minutes = 15; calendar = plain; same_city = λ a b. a is b }

abbrev hotel : Venue
hotel = record {
  id = 3;
  name = "hotel";
  city = "karachi";
  timezone = 0;
  operating_hours = some mornings;
  overbooking_buffer_pct = 0;
  created_at = 0;
}

abbrev studio : RoomRow
studio = record {
  id = 5;
  venue_id = 3;
  name = "studio";
  capacity = 6;
  hourly_rate_minor = 2000;
  amenities = "wifi" ∷ "piano" ∷ [];
  min_duration_minutes = 60;
  max_duration_minutes = 240;
}

abbrev inventory : Inventory
inventory = record {
  venues = hotel ∷ [];
  rooms = studio ∷ record studio { id = 6 } ∷ record studio { id = 7; capacity = 2 } ∷ [];
  equipment_types = [];
}

abbrev for_four : SearchQuery
for_four = record {
  city = some "karachi";
  min_capacity = some 4;
  amenity = "piano" ∷ [];
  max_hourly_rate_minor = none;
  window = some (295200000, 300600000);
  page = 1;
  page_size = 1;
}

-- The studio is booked from twenty past eleven on.
abbrev bookings : List Booking
bookings = in_state confirmed none none ∷ []

room_six :
    map (λ (h : Hit). h.room.id) (search_rooms context for_four inventory bookings).rows ≡ 6 ∷ []
unfolding search_rooms is_active is_within_operating_hours free_room_ids
room_six = refl

search_pages_example :
    let wanted : Hit → Bool = is_wanted context for_four for_four.window inventory bookings in
    let rows = joined inventory.venues inventory.rooms in
    ((search_rooms context for_four inventory bookings).total ≡ length (filter_by wanted rows))
    × (length (filter_by (λ h. h.room.id == 6) (pages_to context for_four inventory bookings 1))
        ≡ length (filter_by (λ h. wanted h && (h.room.id == 6)) rows))
unfolding joined search_rooms is_active is_within_operating_hours free_room_ids
search_pages_example =
    search_pages context for_four inventory bookings 1 (λ h. h.room.id == 6) (omega arith)
      (omega arith)

search_rooms-IsShown_example :
    All
      (IsShown context for_four inventory bookings (in_state confirmed none none))
      (search_rooms context for_four inventory bookings).rows
search_rooms-IsShown_example =
    search_rooms-IsShown context for_four inventory bookings (in_state confirmed none none) refl
