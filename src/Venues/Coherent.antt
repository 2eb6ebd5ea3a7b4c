-- ===== src/Venues/Coherent.antt =====
-- apps/api/src/venues/venues-admin.service.ts: the bounds of a room's duration.
use project_atrium.Base.{
  ℕ, ◌≤◌, ◌≡◌, refl, sym, subst, inl, inr, false, Option, none, some, List, [], ◌∷◌, map, ◌==◌,
  find_first, update_where, any_of, All, arith, Bool-cases, Option-cases, update_where-absent,
}
use project_atrium.Store.Tables.{AuthPrincipal}
use project_atrium.Store.Inventory.{RoomRow, Inventory}
use project_atrium.Bookings.Trail.{IsDistinct}
use project_atrium.Venues.Settings.{update_venue, insert_equipment_type, update_type_of}
use project_atrium.Venues.Rooms.{
  RoomPatch, insert_room, update_room_of, found_room, patch_room, is_room_of, refuse_room_buffer,
  breaks_durations,
}
use project_atrium.Venues.Commands.{
  Command, set_settings, add_room, set_room, add_equipment, set_equipment, perform, perform_at,
  perform-some, perform-none, write_room-tables, required-tables,
}

abbrev pub IsCoherent : RoomRow → Type 0
IsCoherent row = row.min_duration_minutes ≤ row.max_duration_minutes

abbrev pub room_ids : List RoomRow → List ℕ
room_ids rows = map (λ (row : RoomRow). row.id) rows

-- Ids are unique, and each room's shortest booking is no longer than its longest.
abbrev pub HasCoherentRooms : Inventory → Type 0
HasCoherentRooms inv = IsDistinct (room_ids inv.rooms) × All IsCoherent inv.rooms

-- What the table and `CreateRoomSchema` see to: a new id is new, and the bounds of a new room
-- agree. Of a patch nothing is asked.
abbrev pub IsAcceptable : Inventory → Command → Type 0
IsAcceptable inv (add_room id i) =
    (any_of (λ j. j == id) (room_ids inv.rooms) ≡ false)
    × (i.min_duration_minutes ≤ i.max_duration_minutes)
IsAcceptable inv (set_settings i) = Unit
IsAcceptable inv (set_room id i) = Unit
IsAcceptable inv (add_equipment id i) = Unit
IsAcceptable inv (set_equipment id i) = Unit

module _ (v id : ℕ) (i : RoomPatch) where
  ids-patched :
      (rows : List RoomRow)
      → room_ids (update_where (is_room_of v id) (patch_room i) rows) ≡ room_ids rows
  unfolding patch_room
  ids-patched [] = refl
  ids-patched (x ∷ xs) = elim (Bool-cases (is_room_of v id x)) [
    | inl hit ↦ rw (hit, ids-patched xs) refl
    | inr miss ↦ rw (miss, ids-patched xs) refl
  ]

  absent :
      (k : ℕ) (rows : List RoomRow)
      → k ≡ id
      → any_of (λ j. j == k) (room_ids rows) ≡ false
      → All (λ x. is_room_of v id x ≡ false) rows
  absent k [] e h = tt
  absent k (x ∷ xs) e h = (ground (arith, h, e), absent k xs e (ground (arith, h)))

  IsCoherent-patch :
      (rows : List RoomRow) (existing : RoomRow)
      → IsDistinct (room_ids rows)
      → find_first (is_room_of v id) rows ≡ some existing
      → breaks_durations i existing ≡ false
      → All IsCoherent rows
      → All IsCoherent (update_where (is_room_of v id) (patch_room i) rows)
  unfolding patch_room breaks_durations
  IsCoherent-patch [] existing d found agrees h = tt
  IsCoherent-patch (x ∷ xs) existing d found agrees h = elim (Bool-cases (is_room_of v id x)) [
    | inl hit ↦
        let same : x ≡ existing = ground (arith, found, hit) in
        let bounds : breaks_durations i x ≡ false =
          subst (λ e. breaks_durations i e ≡ false) (sym same) agrees in
        (
          rw hit (ground (arith, bounds)),
          subst (All IsCoherent)
              (sym (update_where-absent _ _ xs (absent x.id xs (ground (arith, hit)) d.0))) h.1,
        )
    | inr miss ↦
        (rw miss h.0, IsCoherent-patch xs existing d.1 (ground (arith, found, miss)) agrees h.1)
  ]

  coherent_found :
      (o : Option RoomRow) (inv : Inventory)
      → find_first (is_room_of v id) inv.rooms ≡ o
      → HasCoherentRooms inv
      → HasCoherentRooms (found_room v id i o inv).1
  unfolding found_room
  coherent_found none inv found h = h
  coherent_found (some existing) inv found h = elim (write_room-tables v id i existing inv) [
    | inl same ↦ subst HasCoherentRooms (sym same) h
    | inr (agrees, written) ↦ subst HasCoherentRooms (sym written) (
      subst IsDistinct (sym (ids-patched inv.rooms)) h.0,
      IsCoherent-patch inv.rooms existing h.0 found agrees h.1,
    )
  ]

coherent_command :
    (v : ℕ) (c : Command) (inv : Inventory)
    → IsAcceptable inv c
    → HasCoherentRooms inv
    → HasCoherentRooms (perform_at v c inv)
unfolding perform_at update_venue insert_room update_room_of insert_equipment_type update_type_of
coherent_command v (set_settings i) inv a h = subst HasCoherentRooms (sym (required-tables _ _)) h
coherent_command v (add_room id i) inv a h =
    elim (Bool-cases (refuse_room_buffer i.overbooking_buffer_pct)) [
      | inl refused ↦ rw (perform_at, refused) h
      | inr taken ↦ rw (perform_at, taken) ((a.0, h.0), (a.1, h.1))
    ]
coherent_command v (set_room id i) inv a h =
    elim (Bool-cases (refuse_room_buffer i.overbooking_buffer_pct)) [
      | inl refused ↦ rw (perform_at, refused) h
      | inr taken ↦
          rw (perform_at, taken)
            (coherent_found v id i (find_first (is_room_of v id) inv.rooms) inv refl h)
    ]
coherent_command v (add_equipment id i) inv a h = h
coherent_command v (set_equipment id i) inv a h =
    subst HasCoherentRooms (sym (required-tables _ _)) h

-- Where room ids are unique and each room's shortest booking is no longer than its longest, and a
-- new room comes with a new id and bounds that agree, both hold after any request of any
-- principal that runs by itself: a patch of one bound is checked against the stored other one.
pub perform-HasCoherentRooms :
    (p : AuthPrincipal) (c : Command) (inv : Inventory)
    → IsAcceptable inv c
    → HasCoherentRooms inv
    → HasCoherentRooms (perform p c inv)
perform-HasCoherentRooms p c inv a h = elim (Option-cases p.venue_id) [
  | inl homeless ↦ subst HasCoherentRooms (sym (perform-none p c inv homeless)) h
  | inr (w, e) ↦
      subst HasCoherentRooms (sym (perform-some p w c inv e)) (coherent_command w c inv a h)
]
