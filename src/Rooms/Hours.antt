-- ===== src/Rooms/Hours.antt =====
-- apps/api/src/common/time/operating-hours.ts: the windows in which a venue is open.
use project_atrium.Base.{
  ℕ, zero, suc, ◌+◌, ◌*◌, ◌/◌, ◌%◌, Bool, false, ◌&&◌, Option, none, some, List, [], ◌∷◌, ltb, leb,
  if◌then◌else◌, any_of,
}
use project_atrium.Rooms.Zones.{
  WeekdayKey, sun, mon, tue, wed, thu, fri, sat, LocalParts, Calendar, to_local_parts,
  from_local_parts, parse_clock, add_minutes, minus_minutes,
}

-- A day that is not closed.
pub record DayHours : Type 0 where
  pub opens : List ℕ
  pub closes : List ℕ

pub record OperatingHours : Type 0 where
  pub sunday : Option DayHours
  pub monday : Option DayHours
  pub tuesday : Option DayHours
  pub wednesday : Option DayHours
  pub thursday : Option DayHours
  pub friday : Option DayHours
  pub saturday : Option DayHours

pub record OpenWindow : Type 0 where
  pub opens_at : ℕ
  pub closes_at : ℕ

-- `hours[weekday]`
abbrev pub day_hours : OperatingHours → WeekdayKey → Option DayHours
day_hours h sun = h.sunday
day_hours h mon = h.monday
day_hours h tue = h.tuesday
day_hours h wed = h.wednesday
day_hours h thu = h.thursday
day_hours h fri = h.friday
day_hours h sat = h.saturday

unfoldable pub next_local_day : Calendar → ℕ → ℕ → ℕ → ℕ → LocalParts
unfolding from_local_parts to_local_parts
next_local_day cal time_zone year month day =
    to_local_parts cal (add_minutes (from_local_parts cal year month day 12 0 time_zone) 1440)
      time_zone

-- The window of a day that opens and closes at these minutes.
unfoldable pub window_of : Calendar → ℕ → ℕ → ℕ → ℕ → ℕ → ℕ → OpenWindow
unfolding next_local_day from_local_parts
window_of cal time_zone year month day open_minutes close_minutes =
    let next = next_local_day cal time_zone year month day in
    let opens_at =
      from_local_parts cal year month day (open_minutes / 60) (open_minutes % 60) time_zone in
    let hour = (close_minutes / 60) % 24 in
    let minute = close_minutes % 60 in
    let same_day = from_local_parts cal year month day hour minute time_zone in
    if leb close_minutes open_minutes
    then record {
      opens_at = opens_at;
      closes_at = from_local_parts cal next.year next.month next.day hour minute time_zone;
    }
    else if leb same_day opens_at
    then record {
      opens_at = opens_at;
      closes_at = from_local_parts cal next.year next.month next.day 0 0 time_zone;
    }
    else record { opens_at = opens_at; closes_at = same_day }

abbrev pub both_clocks : Option ℕ → Option ℕ → (ℕ → ℕ → OpenWindow) → Option OpenWindow
both_clocks (some o) (some c) window = some (window o c)
both_clocks (some o) none window = none
both_clocks none c window = none

abbrev pub window_of_day : Calendar → ℕ → ℕ → ℕ → ℕ → Option DayHours → Option OpenWindow
window_of_day cal time_zone year month day none = none
window_of_day cal time_zone year month day (some spec) =
    both_clocks (parse_clock spec.opens) (parse_clock spec.closes)
      (window_of cal time_zone year month day)

-- `windowForLocalDate`
unfoldable pub window_for_local_date :
    Calendar → OperatingHours → ℕ → ℕ → ℕ → ℕ → WeekdayKey → Option OpenWindow
unfolding parse_clock window_of
window_for_local_date cal hours time_zone year month day weekday =
    window_of_day cal time_zone year month day (day_hours hours weekday)

-- `windowForLocalDay`
unfoldable pub window_for_local_day : Calendar → OperatingHours → ℕ → ℕ → Option OpenWindow
unfolding to_local_parts window_for_local_date
window_for_local_day cal hours time_zone anchor =
    let local = to_local_parts cal anchor time_zone in
    window_for_local_date cal hours time_zone local.year local.month local.day local.weekday

abbrev pub contains : ℕ → ℕ → Option OpenWindow → Bool
contains starts_at ends_at none = false
contains starts_at ends_at (some w) = leb w.opens_at starts_at && leb ends_at w.closes_at

-- `isWithinOperatingHours`
unfoldable pub is_within_operating_hours : Calendar → OperatingHours → ℕ → ℕ → ℕ → Bool
unfolding window_for_local_day
is_within_operating_hours cal hours time_zone starts_at ends_at =
    any_of (contains starts_at ends_at) (
      window_for_local_day cal hours time_zone starts_at
      ∷ window_for_local_day cal hours time_zone (minus_minutes starts_at 1440)
      ∷ [])

abbrev pub day_key : LocalParts → ℕ
day_key p = p.year * 10000 + p.month * 100 + p.day

-- `w && w.closesAt > from && w.opensAt < to`
abbrev pub push_window : ℕ → ℕ → Option OpenWindow → List OpenWindow → List OpenWindow
push_window from to none rest = rest
push_window from to (some w) rest =
    if ltb from w.closes_at && ltb w.opens_at to then w ∷ rest else rest

unfoldable pub next_cursor : Calendar → ℕ → LocalParts → LocalParts
unfolding next_local_day from_local_parts to_local_parts
next_cursor cal time_zone cursor =
    let next = next_local_day cal time_zone cursor.year cursor.month cursor.day in
    to_local_parts cal (from_local_parts cal next.year next.month next.day 12 0 time_zone) time_zone

-- The loop of `openWindowsBetween`, by the rounds that its guard leaves.
unfoldable pub walk_days :
    ℕ → Calendar → OperatingHours → ℕ → ℕ → ℕ → ℕ → LocalParts → List OpenWindow
unfolding window_for_local_date next_cursor
walk_days zero cal hours time_zone from to stop_key cursor = []
walk_days (suc guard) cal hours time_zone from to stop_key cursor =
    let rest =
      walk_days guard cal hours time_zone from to stop_key (next_cursor cal time_zone cursor) in
    if ltb stop_key (day_key cursor)
    then []
    else push_window from to
        (window_for_local_date cal hours time_zone cursor.year cursor.month cursor.day
          cursor.weekday)
        rest

-- `windows.sort(…)`
unfoldable pub insert_window : OpenWindow → List OpenWindow → List OpenWindow
insert_window w [] = w ∷ []
insert_window w (v ∷ vs) = if leb w.opens_at v.opens_at then w ∷ v ∷ vs else v ∷ insert_window w vs

unfoldable pub sort_windows : List OpenWindow → List OpenWindow
unfolding insert_window
sort_windows [] = []
sort_windows (w ∷ ws) = insert_window w (sort_windows ws)

-- `openWindowsBetween`
unfoldable pub open_windows_between : Calendar → OperatingHours → ℕ → ℕ → ℕ → List OpenWindow
unfolding to_local_parts walk_days sort_windows
open_windows_between cal hours time_zone from to = sort_windows (
    walk_days 800 cal hours time_zone from to
      (day_key (to_local_parts cal (add_minutes to 1440) time_zone))
      (to_local_parts cal (minus_minutes from 1440) time_zone))
