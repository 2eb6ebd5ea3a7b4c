-- ===== src/Reports/Report.antt =====
-- apps/api/src/reports/reports.service.ts: `revenue`, the report of a venue.
--
-- The quotient of `utilisation_pct` is exact here, in tenths of a per cent, where the source's is a
-- double.
use project_atrium.Base.{
  ℕ, ◌+◌, ◌-◌, ◌*◌, ◌/◌, min, max, Option, none, some, List, ltb, ◌==◌, if◌then◌else◌, filter_by,
  find_first, length, sum_by, ℤ, sub_ℕ,
}
use project_atrium.Store.Tables.{AuthPrincipal, Database}
use project_atrium.Store.Transaction.{Failure, Result, ok, err}
use project_atrium.Store.Inventory.{Venue, Inventory}
use project_atrium.Rooms.Zones.{Calendar}
use project_atrium.Rooms.Hours.{OpenWindow, open_windows_between}
use project_atrium.Reports.Revenue.{
  RevenueTotals, RoomRevenue, DayRevenue, totals_where, refunded_where, by_room_where, by_day_where,
  totals, refunded_of, by_room, by_day,
}

-- The part of a window that lies in the range.
abbrev pub clipped_ms : ℕ → ℕ → OpenWindow → ℕ
clipped_ms from to w = min w.closes_at to - max w.opens_at from

-- `openMinutes`, behind the parse of the hours
unfoldable pub open_minutes : Calendar → Venue → ℕ → ℕ → ℕ → ℕ
unfolding open_windows_between
open_minutes cal venue from to rooms = elim venue.operating_hours [
  | none ↦ 0
  | some hours ↦
      if rooms == 0
      then 0
      else (sum_by (clipped_ms from to) (open_windows_between cal hours venue.timezone from to)
          + 30000)
        / 60000
        * rooms
]

-- In tenths of a per cent; `none` where the venue was never open.
unfoldable pub utilisation : ℕ → ℕ → Option ℕ
utilisation booked open_for =
    if ltb 0 open_for then some ((2000 * booked + open_for) / (2 * open_for)) else none

pub record RevenueReport : Type 0 where
  pub venue : Venue
  pub summary : RevenueTotals
  pub refunded_minor : ℕ
  pub net_minor : ℤ
  pub open_minutes : ℕ
  pub utilisation_pct : Option ℕ
  pub by_room : List RoomRevenue
  pub by_day : List DayRevenue

-- The time zones, and the day of an instant in each.
pub record Zones : Type 0 where
  pub calendar : Calendar
  pub local_day : ℕ → ℕ → ℕ

unfoldable pub report_of : Zones → Venue → ℕ → ℕ → Inventory → Database → RevenueReport
unfolding totals_where refunded_where by_room_where by_day_where totals refunded_of by_room by_day
    open_minutes utilisation
report_of z venue from to inv db =
    let rooms = by_room inv.rooms (filter_by (by_room_where venue.id from to) db.bookings) in
    let summed = totals (filter_by (totals_where venue.id from to) db.bookings) in
    let refunds =
      refunded_of db.payments (filter_by (refunded_where venue.id from to) db.bookings) in
    let minutes = open_minutes z.calendar venue from to (length rooms) in
    record {
      venue = venue;
      summary = summed;
      refunded_minor = refunds;
      net_minor = sub_ℕ summed.gross_minor refunds;
      open_minutes = minutes;
      utilisation_pct = utilisation summed.booked_minutes minutes;
      by_room = rooms;
      by_day =
          by_day (z.local_day venue.timezone)
            (filter_by (by_day_where venue.id from to) db.bookings);
    }

-- `revenue`, for the venue of the token.
unfoldable pub revenue_of :
    Zones → Option Venue → ℕ → ℕ → Inventory → Database → Result RevenueReport
unfolding report_of
revenue_of z none from to inv db = err Failure.not_found
revenue_of z (some venue) from to inv db = ok (report_of z venue from to inv db)

-- `revenue`
unfoldable pub revenue : Zones → AuthPrincipal → ℕ → ℕ → Inventory → Database → Result RevenueReport
unfolding revenue_of
revenue z p from to inv db = elim p.venue_id [
  | none ↦ err Failure.not_found
  | some v ↦ revenue_of z (find_first (λ (r : Venue). r.id == v) inv.venues) from to inv db
]
