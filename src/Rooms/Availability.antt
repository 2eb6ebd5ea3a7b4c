-- ===== src/Rooms/Availability.antt =====
-- apps/api/src/rooms/availability.service.ts: the slots of a room that are offered.
use project_atrium.Base.{
  ℕ, zero, suc, ◌+◌, ◌-◌, ◌*◌, ◌/◌, Bool, not, ◌&&◌, ◌||◌, Option, none, some, List, [], ◌∷◌, ◌++◌,
  map, ltb, leb, ◌==◌, if◌then◌else◌, any_of, filter_by,
}
use project_atrium.Store.Tables.{Booking, Database}
use project_atrium.Store.Transaction.{Failure, Result, ok, err}
use project_atrium.Bookings.StateMachine.{turnaround}
use project_atrium.Bookings.Equipment.{occupies}
use project_atrium.Rooms.Zones.{Calendar, add_minutes}
use project_atrium.Rooms.Hours.{OperatingHours, OpenWindow, open_windows_between}

pub record BusyInterval : Type 0 where
  pub from : ℕ
  pub to : ℕ

pub record FreeSlot : Type 0 where
  pub starts_at : ℕ
  pub ends_at : ℕ

-- The WHERE of `busyIntervals`; `slot` is `[starts_at, ends_at + 15 minutes)`.
unfoldable pub is_busy : ℕ → ℕ → ℕ → ℕ → Booking → Bool
unfolding occupies
is_busy now room_id from to b =
    (b.room_id == room_id)
    && occupies now b
    && ltb b.starts_at to
    && ltb from (b.ends_at + turnaround)

abbrev pub slot_of : Booking → BusyInterval
slot_of b = record { from = b.starts_at; to = b.ends_at + turnaround }

-- `ORDER BY lower(slot)`
unfoldable pub insert_interval : BusyInterval → List BusyInterval → List BusyInterval
insert_interval i [] = i ∷ []
insert_interval i (j ∷ js) = if leb i.from j.from then i ∷ j ∷ js else j ∷ insert_interval i js

unfoldable pub order_by_lower : List BusyInterval → List BusyInterval
unfolding insert_interval
order_by_lower [] = []
order_by_lower (i ∷ is) = insert_interval i (order_by_lower is)

-- `busyIntervals`
unfoldable pub busy_intervals : ℕ → ℕ → ℕ → ℕ → List Booking → List BusyInterval
unfolding is_busy order_by_lower
busy_intervals now room_id from to bookings =
    order_by_lower (map slot_of (filter_by (is_busy now room_id from to) bookings))

-- `ceilToGrid`, for a step that is not 0
abbrev pub ceil_to_grid : ℕ → ℕ → ℕ
ceil_to_grid instant step_ms = ((instant + (step_ms - 1)) / step_ms) * step_ms

-- The arguments of `enumerate`, with `ROOM_TURNAROUND_MINUTES`.
pub record Range : Type 0 where
  pub from : ℕ
  pub to : ℕ
  pub duration_minutes : ℕ
  pub turnaround_minutes : ℕ
  pub busy : List BusyInterval
  pub earliest : ℕ

abbrev pub is_clash : ℕ → ℕ → BusyInterval → Bool
is_clash cursor occupied_end b = ltb b.from occupied_end && ltb cursor b.to

abbrev pub is_blocked : Range → ℕ → Bool
is_blocked r cursor =
    any_of
      (is_clash cursor (add_minutes (add_minutes cursor r.duration_minutes) r.turnaround_minutes))
      r.busy

-- `slotEnd > window.closesAt || slotEnd > to`
abbrev pub is_past : Range → OpenWindow → ℕ → Bool
is_past r w cursor =
    ltb w.closes_at (add_minutes cursor r.duration_minutes)
    || ltb r.to (add_minutes cursor r.duration_minutes)

abbrev pub free_slot : Range → ℕ → FreeSlot
free_slot r cursor = record { starts_at = cursor; ends_at = add_minutes cursor r.duration_minutes }

-- The `while` of `enumerate` in one window, on fuel.
unfoldable pub scan : ℕ → Range → OpenWindow → ℕ → List FreeSlot
scan zero r w cursor = []
scan (suc fuel) r w cursor =
    let next = scan fuel r w (add_minutes cursor 30) in
    let rest = if leb w.closes_at (add_minutes cursor 30) then [] else next in
    if is_past r w cursor
    then []
    else if not (is_blocked r cursor) && leb r.earliest cursor
    then free_slot r cursor ∷ rest
    else rest

abbrev pub first_cursor : Range → OpenWindow → ℕ
first_cursor r w = ceil_to_grid (if ltb r.from w.opens_at then w.opens_at else r.from) 1800000

-- A round for each half hour up to the close, and one more.
abbrev pub rounds : OpenWindow → ℕ → ℕ
rounds w cursor = suc ((w.closes_at - cursor) / 1800000)

unfoldable pub enumerate : Range → List OpenWindow → List FreeSlot
unfolding scan
enumerate r [] = []
enumerate r (w ∷ ws) = scan (rounds w (first_cursor r w)) r w (first_cursor r w) ++ enumerate r ws

-- The columns of the room and its venue that `forRoom` reads; `none` for hours that do not parse.
pub record Room : Type 0 where
  pub id : ℕ
  pub min_duration_minutes : ℕ
  pub max_duration_minutes : ℕ
  pub time_zone : ℕ
  pub operating_hours : Option OperatingHours

abbrev pub or_min : Option ℕ → ℕ → ℕ
or_min none n = n
or_min (some d) n = d

unfoldable pub free_slots :
    Calendar → ℕ → ℕ → Room → OperatingHours → ℕ → ℕ → ℕ → Database → List FreeSlot
unfolding busy_intervals open_windows_between enumerate
free_slots cal now turnaround_minutes room hours from to duration db =
    enumerate
      (record {
        from = from;
        to = to;
        duration_minutes = duration;
        turnaround_minutes = turnaround_minutes;
        busy = busy_intervals now room.id from to db.bookings;
        earliest = add_minutes now 60;
      })
      (open_windows_between cal hours room.time_zone from to)

-- `forRoom`, for a room that the select finds: its free slots.
unfoldable pub for_room :
    Calendar → ℕ → ℕ → Room → ℕ → ℕ → Option ℕ → Database → Result (List FreeSlot)
unfolding free_slots
for_room cal now turnaround_minutes room from to asked db = elim room.operating_hours [
  | none ↦ err Failure.unprocessable
  | some hours ↦
      if ltb room.max_duration_minutes (or_min asked room.min_duration_minutes)
      then err Failure.unprocessable
      else ok (
          free_slots cal now turnaround_minutes room hours from to
            (or_min asked room.min_duration_minutes) db)
]

-- `freeRoomIds`
unfoldable pub free_room_ids : ℕ → ℕ → List ℕ → ℕ → ℕ → List Booking → List ℕ
unfolding is_busy
free_room_ids now turnaround_minutes rooms from to bookings =
    filter_by
      (λ id. not (any_of (is_busy now id from (add_minutes to turnaround_minutes)) bookings)) rooms
