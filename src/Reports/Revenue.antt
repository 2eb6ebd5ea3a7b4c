-- ===== src/Reports/Revenue.antt =====
-- apps/api/src/reports/reports.service.ts: revenue and utilisation of one venue.
--
-- Instants are in milliseconds, so that the minutes of a booking are a sixty-thousandth of their
-- difference; the SQL rounds the sum to whole minutes, a half up. The day of an instant in a time
-- zone is what Postgres's `date_trunc … AT TIME ZONE` says, a parameter. The statements see one
-- database. The currency is left out: every booking has the same one.
use project_atrium.Base.{
  ℕ, zero, suc, ◌+◌, ◌-◌, ◌/◌, ◌%◌, Bool, true, false, ◌&&◌, ◌||◌, none, some, List, [], ◌∷◌, map,
  leb, ltb, ◌==◌, if◌then◌else◌, filter_by, find_first, length, sum_by, with_key, first_of_each,
}
use Prim.Native.String.{String}
use project_atrium.Store.Status.{BookingStatus, confirmed, completed, is_status}
use project_atrium.Store.Tables.{Booking, Payment}
use project_atrium.Store.Inventory.{RoomRow}

-- The WHERE clauses of the four aggregates, each written out in its own statement.
unfoldable pub totals_where : ℕ → ℕ → ℕ → Booking → Bool
totals_where venue_id from to b =
    (b.venue_id == venue_id) && (leb from b.starts_at && ltb b.starts_at to)

unfoldable pub refunded_where : ℕ → ℕ → ℕ → Booking → Bool
refunded_where venue_id from to b =
    (b.venue_id == venue_id) && (leb from b.starts_at && ltb b.starts_at to)

unfoldable pub by_room_where : ℕ → ℕ → ℕ → Booking → Bool
by_room_where venue_id from to b =
    (b.venue_id == venue_id) && (leb from b.starts_at && ltb b.starts_at to)

unfoldable pub by_day_where : ℕ → ℕ → ℕ → Booking → Bool
by_day_where venue_id from to b =
    (b.venue_id == venue_id) && (leb from b.starts_at && ltb b.starts_at to)

-- `status IN ('CONFIRMED','COMPLETED')`
abbrev pub is_revenue : Booking → Bool
is_revenue b = is_status b.status confirmed || is_status b.status completed

abbrev pub total_of : Booking → ℕ
total_of b = b.total_minor

abbrev pub duration_ms : Booking → ℕ
duration_ms b = b.ends_at - b.starts_at

-- `SUM(…) FILTER (WHERE …)` over the total
abbrev pub gross_of : List Booking → ℕ
gross_of bs = sum_by total_of (filter_by is_revenue bs)

-- The same over the minutes, cast to an integer.
abbrev pub booked_minutes_of : List Booking → ℕ
booked_minutes_of bs = (sum_by duration_ms (filter_by is_revenue bs) + 30000) / 60000

abbrev pub count_of : BookingStatus → List Booking → ℕ
count_of s bs = length (filter_by (λ (b : Booking). is_status b.status s) bs)

pub record RevenueTotals : Type 0 where
  pub bookings : ℕ
  pub confirmed : ℕ
  pub completed : ℕ
  pub cancelled : ℕ
  pub refunded : ℕ
  pub expired : ℕ
  pub failed : ℕ
  pub gross_minor : ℕ
  pub booked_minutes : ℕ

-- `totals`, over the rows of the WHERE clause
unfoldable pub totals : List Booking → RevenueTotals
totals bs = record {
  bookings = length bs;
  confirmed = count_of BookingStatus.confirmed bs;
  completed = count_of BookingStatus.completed bs;
  cancelled = count_of BookingStatus.cancelled bs;
  refunded = count_of BookingStatus.refunded bs;
  expired = count_of BookingStatus.expired bs;
  failed = count_of BookingStatus.failed bs;
  gross_minor = gross_of bs;
  booked_minutes = booked_minutes_of bs;
}

-- `refunded`: what the payments of the rows gave back.
unfoldable pub refunded_of : List Payment → List Booking → ℕ
refunded_of ps bs =
    sum_by
      (λ (b : Booking).
        sum_by (λ (p : Payment). p.refunded_minor)
          (filter_by (λ (p : Payment). p.booking_id == b.id) ps))
      bs

pub record RoomRevenue : Type 0 where
  pub room_id : ℕ
  pub room_name : String
  pub bookings : ℕ
  pub booked_minutes : ℕ
  pub gross_minor : ℕ

-- A row of a booking joined with its room.
abbrev pub Occupied : Type 0
Occupied = Booking × RoomRow

unfoldable pub with_rooms : List RoomRow → List Booking → List Occupied
with_rooms rooms [] = []
with_rooms rooms (b ∷ bs) = elim (find_first (λ (r : RoomRow). r.id == b.room_id) rooms) [
  | none ↦ with_rooms rooms bs
  | some r ↦ (b, r) ∷ with_rooms rooms bs
]

abbrev pub room_of : Occupied → ℕ
room_of o = o.0.room_id

abbrev pub bookings_of : List Occupied → List Booking
bookings_of os = map (λ (o : Occupied). o.0) os

abbrev pub room_revenue : List Occupied → Occupied → RoomRevenue
room_revenue os o =
    let group = bookings_of (with_key room_of (room_of o) os) in
    record {
      room_id = o.0.room_id;
      room_name = o.1.name;
      bookings = length group;
      booked_minutes = booked_minutes_of group;
      gross_minor = gross_of group;
    }

-- The digits of a number as text, before those of `behind`; the fuel is at least their number.
unfoldable pub digits_onto : ℕ → ℕ → List ℕ → List ℕ
digits_onto zero n behind = behind
digits_onto (suc fuel) n behind = elim (ltb n 10) [
  | true ↦ n ∷ behind
  | false ↦ digits_onto fuel (n / 10) (n % 10 ∷ behind)
]

-- `::text` of an amount.
unfoldable pub text_of : ℕ → List ℕ
unfolding digits_onto
text_of n = digits_onto (suc n) n []

-- Does a text of digits sort no later than another?
unfoldable pub text_leb : List ℕ → List ℕ → Bool
text_leb [] ds = true
text_leb (c ∷ cs) [] = false
text_leb (c ∷ cs) (d ∷ ds) = let rest = text_leb cs ds in if c == d then rest else ltb c d

-- Column 5 is the gross after its cast to text, so that 900 stands before 10000.
unfoldable pub comes_earlier : RoomRevenue → RoomRevenue → Bool
unfolding text_of text_leb
comes_earlier r s =
    if r.gross_minor == s.gross_minor
    then leb r.room_id s.room_id
    else text_leb (text_of s.gross_minor) (text_of r.gross_minor)

unfoldable pub insert_earner : RoomRevenue → List RoomRevenue → List RoomRevenue
unfolding comes_earlier
insert_earner r [] = r ∷ []
insert_earner r (s ∷ ss) = if comes_earlier r s then r ∷ s ∷ ss else s ∷ insert_earner r ss

-- `ORDER BY 5 DESC, b.room_id`
unfoldable pub by_earnings : List RoomRevenue → List RoomRevenue
unfolding insert_earner
by_earnings [] = []
by_earnings (r ∷ rs) = insert_earner r (by_earnings rs)

-- `byRoom`; room ids are unique, so that the group of a room has one name.
unfoldable pub by_room : List RoomRow → List Booking → List RoomRevenue
unfolding with_rooms by_earnings first_of_each
by_room rooms bs =
    let os = with_rooms rooms bs in by_earnings (map (room_revenue os) (first_of_each room_of os))

pub record DayRevenue : Type 0 where
  pub day : ℕ
  pub bookings : ℕ
  pub gross_minor : ℕ

-- The day of a booking's start.
abbrev pub day_of : (ℕ → ℕ) → Booking → ℕ
day_of local_day b = local_day b.starts_at

abbrev pub day_revenue : (ℕ → ℕ) → List Booking → Booking → DayRevenue
day_revenue local_day bs b =
    let group = with_key (day_of local_day) (day_of local_day b) bs in
    record { day = day_of local_day b; bookings = length group; gross_minor = gross_of group }

unfoldable pub insert_day : DayRevenue → List DayRevenue → List DayRevenue
insert_day d [] = d ∷ []
insert_day d (e ∷ es) = if leb d.day e.day then d ∷ e ∷ es else e ∷ insert_day d es

-- `ORDER BY 1`
unfoldable pub in_day_order : List DayRevenue → List DayRevenue
unfolding insert_day
in_day_order [] = []
in_day_order (d ∷ ds) = insert_day d (in_day_order ds)

-- `byDay`
unfoldable pub by_day : (ℕ → ℕ) → List Booking → List DayRevenue
unfolding in_day_order first_of_each
by_day local_day bs =
    in_day_order (map (day_revenue local_day bs) (first_of_each (day_of local_day) bs))
