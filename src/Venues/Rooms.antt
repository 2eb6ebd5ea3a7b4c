-- ===== src/Venues/Rooms.antt =====
-- apps/api/src/venues/venues-admin.service.ts: the rooms of a venue.
use project_atrium.Base.{
  ℕ, Bool, false, ◌&&◌, Option, none, some, List, ◌∷◌, ltb, ◌==◌, if◌then◌else◌, is_some, not, ◌||◌,
  find_first, update_where, sent_or,
}
use Prim.Native.String.{String}
use project_atrium.Store.Tables.{AuthPrincipal}
use project_atrium.Store.Transaction.{Failure, ok, err}
use project_atrium.Store.Inventory.{RoomRow}
use project_atrium.Venues.Settings.{Method, scoped, required}

-- `CreateRoomInput`, its defaults filled in.
pub record RoomInput : Type 0 where
  pub name : String
  pub capacity : ℕ
  pub hourly_rate_minor : ℕ
  pub amenities : List String
  pub min_duration_minutes : ℕ
  pub max_duration_minutes : ℕ
  pub overbooking_buffer_pct : Option ℕ

-- `UpdateRoomInput`; `none` was not sent.
pub record RoomPatch : Type 0 where
  pub name : Option String
  pub capacity : Option ℕ
  pub hourly_rate_minor : Option ℕ
  pub amenities : Option (List String)
  pub min_duration_minutes : Option ℕ
  pub max_duration_minutes : Option ℕ
  pub overbooking_buffer_pct : Option ℕ

-- `refuseRoomBuffer`: is it refused?
unfoldable pub refuse_room_buffer : Option ℕ → Bool
refuse_room_buffer none = false
refuse_room_buffer (some pct) = not (pct == 0)

-- `createRoom`, for the venue of the token; `id` is what the table draws.
unfoldable pub insert_room : ℕ → ℕ → RoomInput → Method RoomRow
unfolding refuse_room_buffer
insert_room v id i inv =
    let row : RoomRow = record {
      id = id;
      venue_id = v;
      name = i.name;
      capacity = i.capacity;
      hourly_rate_minor = i.hourly_rate_minor;
      amenities = i.amenities;
      min_duration_minutes = i.min_duration_minutes;
      max_duration_minutes = i.max_duration_minutes;
    } in
    if refuse_room_buffer i.overbooking_buffer_pct
    then (err Failure.unprocessable, inv)
    else (ok row, record inv { rooms = row ∷ inv.rooms })

-- `createRoom`
unfoldable pub create_room : AuthPrincipal → ℕ → RoomInput → Method RoomRow
unfolding scoped insert_room
create_room p id i = scoped p (λ v. insert_room v id i)

unfoldable pub patch_room : RoomPatch → RoomRow → RoomRow
patch_room i row = record row {
  name = sent_or i.name row.name;
  capacity = sent_or i.capacity row.capacity;
  hourly_rate_minor = sent_or i.hourly_rate_minor row.hourly_rate_minor;
  amenities = sent_or i.amenities row.amenities;
  min_duration_minutes = sent_or i.min_duration_minutes row.min_duration_minutes;
  max_duration_minutes = sent_or i.max_duration_minutes row.max_duration_minutes;
}

abbrev pub is_room_of : ℕ → ℕ → RoomRow → Bool
is_room_of v id row = (row.id == id) && (row.venue_id == v)

-- `Object.keys(patch).length > 0`: was anything sent but a buffer?
unfoldable pub names_a_column : RoomPatch → Bool
names_a_column i =
    is_some i.name
    || (is_some i.capacity
        || (is_some i.hourly_rate_minor
            || (is_some i.amenities
                || (is_some i.min_duration_minutes || is_some i.max_duration_minutes))))

-- The check of the bounds against the row that was read.
unfoldable pub breaks_durations : RoomPatch → RoomRow → Bool
breaks_durations i existing =
    ltb (sent_or i.max_duration_minutes existing.max_duration_minutes)
      (sent_or i.min_duration_minutes existing.min_duration_minutes)

-- `updateRoom` behind its read: the check against the row that was read, and the write.
unfoldable pub write_room : ℕ → ℕ → RoomPatch → RoomRow → Method RoomRow
unfolding breaks_durations names_a_column patch_room
write_room v id i existing inv =
    let rows = update_where (is_room_of v id) (patch_room i) inv.rooms in
    if breaks_durations i existing
    then (err Failure.unprocessable, inv)
    else if names_a_column i
    then required (find_first (is_room_of v id) rows) (record inv { rooms = rows })
    else (ok existing, inv)

-- Behind the read.
unfoldable pub found_room : ℕ → ℕ → RoomPatch → Option RoomRow → Method RoomRow
unfolding write_room
found_room v id i none inv = (err Failure.not_found, inv)
found_room v id i (some existing) inv = write_room v id i existing inv

-- `updateRoom`, for the venue of the token, with nothing between its read and its write.
unfoldable pub update_room_of : ℕ → ℕ → RoomPatch → Method RoomRow
unfolding refuse_room_buffer found_room
update_room_of v id i inv =
    if refuse_room_buffer i.overbooking_buffer_pct
    then (err Failure.unprocessable, inv)
    else found_room v id i (find_first (is_room_of v id) inv.rooms) inv

-- `updateRoom`
unfoldable pub update_room : AuthPrincipal → ℕ → RoomPatch → Method RoomRow
unfolding scoped update_room_of
update_room p id i = scoped p (λ v. update_room_of v id i)
