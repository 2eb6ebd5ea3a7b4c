-- ===== src/Rooms/Advice.antt =====
-- apps/api/src/rooms/availability.service.ts against the exclusion constraint `no_room_overlap`.
use project_atrium.Base.{
  not, ◌≤◌, ap, ℕ, ◌+◌, ◌≡◌, refl, sym, ◌∙◌, Bool, true, false, ◌&&◌, ◌⊎◌, inl, inr, List, [], ◌∷◌,
  map, ltb, any_of, filter_by, Bool-cases, All, All-map, arith,
}
use project_atrium.Store.Tables.{Booking, Database}
use project_atrium.Bookings.StateMachine.{turnaround, clashes}
use project_atrium.Bookings.Equipment.{occupies}
use project_atrium.Rooms.Zones.{Calendar, add_minutes}
use project_atrium.Rooms.Hours.{OperatingHours, OpenWindow, open_windows_between}
use project_atrium.Rooms.Availability.{
  BusyInterval, is_busy, slot_of, insert_interval, order_by_lower, busy_intervals, Range, is_clash,
  FreeSlot, is_blocked, Room, enumerate, free_slots, free_room_ids,
}
use project_atrium.Rooms.Offered.{IsOfferIn, enumerate-IsOffer}

any_of-insert :
    (p : BusyInterval → Bool) (i : BusyInterval) (js : List BusyInterval)
    → any_of p (insert_interval i js) ≡ any_of p (i ∷ js)
unfolding insert_interval
any_of-insert p i [] = refl
any_of-insert p i (j ∷ js) = ground (arith, any_of-insert p i js)

any_of-order :
    (p : BusyInterval → Bool) (is : List BusyInterval) → any_of p (order_by_lower is) ≡ any_of p is
unfolding order_by_lower
any_of-order p [] = refl
any_of-order p (i ∷ is) = ground (arith, any_of-insert p i (order_by_lower is), any_of-order p is)

All-unblocked :
    (q : Booking → Bool) (p : BusyInterval → Bool) (bs : List Booking)
    → any_of p (map slot_of (filter_by q bs)) ≡ false
    → All (λ b. (q b && p (slot_of b)) ≡ false) bs
All-unblocked q p [] h = tt
All-unblocked q p (b ∷ bs) h = elim (Bool-cases (q b)) [
  | inl hit ↦ (ground (arith, h, hit), All-unblocked q p bs (ground (arith, h, hit)))
  | inr miss ↦ (ground (arith, miss), All-unblocked q p bs (ground (arith, h, miss)))
]

-- The booking that a slot asks for.
abbrev pub in_slot : Booking → ℕ → FreeSlot → Booking
in_slot draft room_id s = record draft {
  room_id = room_id;
  starts_at = s.starts_at;
  ends_at = s.ends_at;
}

-- A booking that occupies its slot and meets another's.
abbrev pub meets : ℕ → Booking → Booking → Bool
meets now b c = occupies now c && clashes b c

module _ (now room_id : ℕ) (draft : Booking) (bookings : List Booking) (r : Range) where
  unblocked-IsFree :
      (s : FreeSlot)
      → r.busy ≡ busy_intervals now room_id r.from r.to bookings
      → r.turnaround_minutes ≡ 15
      → s.ends_at ≡ add_minutes s.starts_at r.duration_minutes
      → r.from ≤ s.starts_at
      → is_blocked r s.starts_at ≡ false
      → ltb r.to (s.ends_at + turnaround) ≡ false
      → All (λ c. meets now (in_slot draft room_id s) c ≡ false) bookings
  unfolding busy_intervals is_busy clashes
  unblocked-IsFree s busy fifteen length asked free inside =
      All-map
        (λ c.
          (is_busy now room_id r.from r.to c
            && is_clash s.starts_at
                (add_minutes (add_minutes s.starts_at r.duration_minutes) r.turnaround_minutes)
                (slot_of c))
          ≡ false)
        _ bookings (λ c h. ground (arith, h, fifteen, length, asked, inside))
        (All-unblocked _ _ bookings (
          sym (any_of-order _ (map slot_of (filter_by (is_busy now room_id r.from r.to) bookings)))
          ∙ (ap
                (any_of (
                  is_clash s.starts_at (
                    add_minutes (add_minutes s.starts_at r.duration_minutes) r.turnaround_minutes)))
                (sym busy)
              ∙ free)))

fits_inside :
    (r : Range) (now room_id : ℕ) (draft : Booking) (bookings : List Booking)
    (windows : List OpenWindow) (s : FreeSlot)
    → r.busy ≡ busy_intervals now room_id r.from r.to bookings
    → r.turnaround_minutes ≡ 15
    → IsOfferIn r windows s
    → (ltb r.to (s.ends_at + turnaround) ≡ true)
      ⊎ All (λ c. meets now (in_slot draft room_id s) c ≡ false) bookings
fits_inside r now room_id draft bookings [] s busy fifteen h = absurd h
fits_inside r now room_id draft bookings (w ∷ ws) s busy fifteen (inr h) =
    fits_inside r now room_id draft bookings ws s busy fifteen h
fits_inside r now room_id draft bookings (w ∷ ws) s busy fifteen (inl h) =
    elim (Bool-cases (ltb r.to (s.ends_at + turnaround))) [
      | inl late ↦ inl late
      | inr inside ↦ inr (
          unblocked-IsFree now room_id draft bookings r s busy fifteen h.length h.asked.0 h.free
            inside)
    ]

-- Where the turnaround of the settings is the 15 minutes of the constraint, every slot that is
-- offered for a room either ends with its turnaround after the end of the range asked for, or a
-- booking of the room in that slot would meet no booking of the table that occupies its slot.
pub free_slots-IsFree :
    (cal : Calendar) (now : ℕ) (room : Room) (hours : OperatingHours) (from to duration : ℕ)
    (db : Database) (draft : Booking)
    → All
        (λ s.
          (ltb to (s.ends_at + turnaround) ≡ true)
          ⊎ All (λ c. meets now (in_slot draft room.id s) c ≡ false) db.bookings)
        (free_slots cal now 15 room hours from to duration db)
unfolding free_slots
free_slots-IsFree cal now room hours from to duration db draft =
    let r = range in
    All-map (IsOfferIn r (open_windows_between cal hours room.time_zone from to)) _
      (enumerate r (open_windows_between cal hours room.time_zone from to))
      (λ s h.
        fits_inside r now room.id draft db.bookings
          (open_windows_between cal hours room.time_zone from to) s refl refl h)
      (enumerate-IsOffer r (open_windows_between cal hours room.time_zone from to))
  where
    range : Range
    range = record {
      from = from;
      to = to;
      duration_minutes = duration;
      turnaround_minutes = 15;
      busy = busy_intervals now room.id from to db.bookings;
      earliest = add_minutes now 60;
    }

pub any_of-is_busy :
    (now from to id : ℕ) (draft : Booking) (bookings : List Booking)
    → any_of (is_busy now id from (add_minutes to 15)) bookings
      ≡ any_of (meets now (in_slot draft id (record { starts_at = from; ends_at = to }))) bookings
unfolding is_busy clashes
any_of-is_busy now from to id draft [] = refl
any_of-is_busy now from to id draft (b ∷ bs) =
    ground (arith, any_of-is_busy now from to id draft bs)

-- Where the turnaround of the settings is the 15 minutes of the constraint, the rooms that the
-- search takes as free are, in their order, those of the list in which a booking of the period
-- would meet no booking of the table that occupies its slot.
free_room_ids-meets :
    (now from to : ℕ) (draft : Booking) (bookings : List Booking) (rooms : List ℕ)
    → free_room_ids now 15 rooms from to bookings
      ≡ filter_by
          (λ id. not (
            any_of
              (meets now (in_slot draft id (record { starts_at = from; ends_at = to })))
              bookings))
          rooms
unfolding free_room_ids
free_room_ids-meets now from to draft bookings [] = refl
free_room_ids-meets now from to draft bookings (id ∷ ids) = ground (
  arith,
  any_of-is_busy now from to id draft bookings,
  free_room_ids-meets now from to draft bookings ids,
)
