-- ===== src/Venues/Crossed.antt =====
-- apps/api/src/venues/venues-admin.service.ts: two patches of one room at the same time.
use project_atrium.Base.{
  ℕ, ◌≤◌, ◌<◌, ◌≡◌, refl, true, false, none, some, find_first, update_where, arith,
  find_first-update_where,
}
use project_atrium.Store.Transaction.{ok}
use project_atrium.Store.Inventory.{RoomRow, Inventory}
use project_atrium.Venues.Rooms.{
  RoomPatch, write_room, patch_room, is_room_of, breaks_durations, names_a_column,
}
use project_atrium.Venues.Coherent.{IsCoherent}

-- A patch that sends one bound only.
abbrev pub only_min : ℕ → RoomPatch
only_min n = record {
  name = none;
  capacity = none;
  hourly_rate_minor = none;
  amenities = none;
  min_duration_minutes = some n;
  max_duration_minutes = none;
  overbooking_buffer_pct = none;
}

abbrev pub only_max : ℕ → RoomPatch
only_max n = record (only_min n) { min_duration_minutes = none; max_duration_minutes = some n }

module _ (v id : ℕ) (i : RoomPatch) (existing current : RoomRow) (inv : Inventory) where
  -- A patch whose check passed is written to the row as it stands.
  written :
      find_first (is_room_of v id) inv.rooms ≡ some current
      → breaks_durations i existing ≡ false
      → names_a_column i ≡ true
      → ((write_room v id i existing inv).0 ≡ ok (patch_room i current))
        × (find_first (is_room_of v id) (write_room v id i existing inv).1.rooms
            ≡ some (patch_room i current))
  unfolding write_room
  written found agrees named =
      let seen : find_first (is_room_of v id)
            (update_where (is_room_of v id) (patch_room i) inv.rooms)
          ≡ some (patch_room i current) =
        find_first-update_where (is_room_of v id) (patch_room i) inv.rooms current
          (λ x. unfold patch_room in refl) found in
      (rw (agrees, named, seen) refl, rw (agrees, named, seen) seen)

-- The read and the write of a patch are two statements, with nothing that keeps the row between
-- them. Where two patches have read the same row, one sends a longer shortest booking and the
-- other a shorter longest one, each within the bounds that it read, both are answered with a
-- row, and the room that is left has a shortest booking that is longer than its longest.
pub crossed_patches :
    (v id m n : ℕ) (row : RoomRow) (inv : Inventory)
    → find_first (is_room_of v id) inv.rooms ≡ some row
    → row.min_duration_minutes ≤ n
    → n < m
    → m ≤ row.max_duration_minutes
    → let (first, between) = write_room v id (only_min m) row inv in
      let (second, after) = write_room v id (only_max n) row between in
      let left = record row { min_duration_minutes = m; max_duration_minutes = n } in
      (first ≡ ok (record row { min_duration_minutes = m }))
      × (second ≡ ok left)
      × (find_first (is_room_of v id) after.rooms ≡ some left)
      × (IsCoherent left → ⊥)
unfolding breaks_durations patch_room names_a_column
crossed_patches v id m n row inv found low cross high =
    let first = written v id (only_min m) row row inv found (ground arith) refl in
    let second =
      written v id (only_max n) row (record row { min_duration_minutes = m })
        (write_room v id (only_min m) row inv).1 first.1 (ground arith) refl in
    (first.0, second.0, second.1, λ h. absurd (omega arith))
