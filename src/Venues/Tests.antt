-- ===== src/Venues/Tests.antt =====
-- The administration of venues at concrete tables.
use project_atrium.Base.{ℕ, ◌≡◌, ◌≢◌, refl, Option, none, some, [], ◌∷◌, find_first, arith}
use project_atrium.Store.Status.{venue_admin}
use project_atrium.Store.Tables.{AuthPrincipal}
use project_atrium.Store.Transaction.{Failure, ok, err}
use project_atrium.Store.Inventory.{Venue, RoomRow, Inventory, part_of}
use project_atrium.Samples.{table_type}
use project_atrium.Venues.Rooms.{RoomPatch, update_room, write_room, is_room_of}
use project_atrium.Venues.Commands.{set_room, perform, perform-foreign}
use project_atrium.Venues.Coherent.{IsCoherent, HasCoherentRooms, perform-HasCoherentRooms}
use project_atrium.Venues.Crossed.{only_min, only_max, crossed_patches}

abbrev admin : AuthPrincipal
admin = record { user_id = 9; role = venue_admin; venue_id = some 3 }

abbrev studio : RoomRow
studio = record {
  id = 5;
  venue_id = 3;
  name = "studio";
  capacity = 6;
  hourly_rate_minor = 2000;
  amenities = [];
  min_duration_minutes = 60;
  max_duration_minutes = 240;
}

abbrev hall : RoomRow
hall = record studio { id = 6; venue_id = 4; name = "hall" }

abbrev hotel : Venue
hotel = record {
  id = 3;
  name = "hotel";
  city = "Karachi";
  timezone = 5;
  operating_hours = none;
  overbooking_buffer_pct = 0;
  created_at = 0;
}

abbrev inventory : Inventory
inventory = record {
  venues = hotel ∷ [];
  rooms = studio ∷ hall ∷ [];
  equipment_types = table_type ∷ [];
}

shortest_too_long :
    update_room admin 5 (only_min 300) inventory ≡ (err Failure.unprocessable, inventory)
unfolding update_room
shortest_too_long = refl

not_ours : update_room admin 6 (only_min 90) inventory ≡ (err Failure.not_found, inventory)
unfolding update_room
not_ours = refl

a_buffer : RoomPatch
a_buffer = record (only_min 90) { overbooking_buffer_pct = some 5 }

no_buffer_on_rooms : update_room admin 5 a_buffer inventory ≡ (err Failure.unprocessable, inventory)
unfolding update_room a_buffer
no_buffer_on_rooms = refl

perform-foreign_example :
    ((v : ℕ)
      → some 3 ≢ some v
      → part_of v (perform admin (set_room 5 (only_min 90)) inventory) ≡ part_of v inventory)
    × (◌≡◌ {A = Option ℕ} (some 3) none
        → perform admin (set_room 5 (only_min 90)) inventory ≡ inventory)
perform-foreign_example = perform-foreign admin (set_room 5 (only_min 90)) inventory

perform-HasCoherentRooms_example :
    HasCoherentRooms (perform admin (set_room 5 (only_min 90)) inventory)
perform-HasCoherentRooms_example =
    perform-HasCoherentRooms admin (set_room 5 (only_min 90)) inventory tt
      ((refl, (refl, tt)), (omega arith, (omega arith, tt)))

crossed_patches_example :
    let (first, between) = write_room 3 5 (only_min 180) studio inventory in
    let (second, after) = write_room 3 5 (only_max 90) studio between in
    let left = record studio { min_duration_minutes = 180; max_duration_minutes = 90 } in
    (first ≡ ok (record studio { min_duration_minutes = 180 }))
    × (second ≡ ok left)
    × (find_first (is_room_of 3 5) after.rooms ≡ some left)
    × (IsCoherent left → ⊥)
crossed_patches_example =
    crossed_patches 3 5 180 90 studio inventory refl (omega arith) (omega arith) (omega arith)
