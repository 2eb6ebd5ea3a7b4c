-- ===== src/Rooms/Zones.antt =====
-- apps/api/src/common/time/zoned-time.ts: wall clocks and instants.
--
-- `Intl.DateTimeFormat` and `Date.UTC` are a parameter, a `Calendar`. Instants are milliseconds
-- from 1970 on; an offset of a zone, which may be negative, is only used in the difference
-- `target - offset`, which is written as one difference of numbers.
use project_atrium.Base.{
  ℕ, zero, suc, ◌+◌, ◌-◌, ◌*◌, ◌/◌, ◌%◌, Bool, ◌&&◌, ◌||◌, Option, none, some, List, [], ◌∷◌, ltb,
  leb, ◌==◌, if◌then◌else◌,
}

pub data WeekdayKey : Type 0 where
  sun mon tue wed thu fri sat : WeekdayKey

pub record LocalParts : Type 0 where
  pub year : ℕ
  pub month : ℕ
  pub day : ℕ
  pub hour : ℕ
  pub minute : ℕ
  pub second : ℕ
  pub weekday : WeekdayKey

-- What the runtime knows of the zones: the parts that `formatToParts` shows of an instant, and the
-- instant that `Date.UTC` gives for a year, month, day, hour, minute and second.
pub record Calendar : Type 0 where
  pub format_to_parts : ℕ → ℕ → LocalParts
  pub utc : ℕ → ℕ → ℕ → ℕ → ℕ → ℕ → ℕ

unfoldable pub to_local_parts : Calendar → ℕ → ℕ → LocalParts
to_local_parts cal instant time_zone =
    let p = cal.format_to_parts instant time_zone in record p { hour = p.hour % 24 }

-- `asIfUtc` in `zoneOffsetMs`
unfoldable pub as_if_utc : Calendar → ℕ → ℕ → ℕ
unfolding to_local_parts
as_if_utc cal instant time_zone =
    let p = to_local_parts cal instant time_zone in
    cal.utc p.year p.month p.day p.hour p.minute p.second

-- `target - zoneOffsetMs(instant)`
unfoldable pub minus_offset : Calendar → ℕ → ℕ → ℕ → ℕ
unfolding as_if_utc
minus_offset cal target instant time_zone =
    (target + (instant / 1000) * 1000) - as_if_utc cal instant time_zone

-- The loop of `fromLocalParts`, by the rounds that are left.
unfoldable pub correct : ℕ → Calendar → ℕ → ℕ → ℕ → ℕ
unfolding minus_offset
correct zero cal target time_zone utc = utc
correct (suc rounds) cal target time_zone utc =
    let next = minus_offset cal target utc time_zone in
    let rest = correct rounds cal target time_zone next in if next == utc then utc else rest

unfoldable pub from_local_parts : Calendar → ℕ → ℕ → ℕ → ℕ → ℕ → ℕ → ℕ
unfolding correct
from_local_parts cal year month day hour minute time_zone =
    let target = cal.utc year month day hour minute 0 in correct 3 cal target time_zone target

-- `\d`, of a character code
abbrev pub is_digit : ℕ → Bool
is_digit c = leb 48 c && leb c 57

abbrev pub two_digits : ℕ → ℕ → ℕ
two_digits c d = 10 * (c - 48) + (d - 48)

-- The tests of `parseClock` on the numbers.
abbrev pub clock_minutes : ℕ → ℕ → Option ℕ
clock_minutes hours minutes =
    if ltb 59 minutes
    then none
    else if ltb 24 hours || ((hours == 24) && ltb 0 minutes)
    then none
    else some (hours * 60 + minutes)

-- `parseClock`, of a string as its character codes
unfoldable pub parse_clock : List ℕ → Option ℕ
parse_clock [] = none
parse_clock (a ∷ []) = none
parse_clock (a ∷ b ∷ []) = none
parse_clock (a ∷ b ∷ c ∷ []) = none
parse_clock (a ∷ b ∷ c ∷ d ∷ []) = none
parse_clock (a ∷ b ∷ c ∷ d ∷ e ∷ []) =
    if is_digit a && is_digit b && (c == 58) && is_digit d && is_digit e
    then clock_minutes (two_digits a b) (two_digits d e)
    else none
parse_clock (a ∷ b ∷ c ∷ d ∷ e ∷ f ∷ rest) = none

abbrev pub add_minutes : ℕ → ℕ → ℕ
add_minutes instant minutes = instant + minutes * 60000

-- `addMinutes` with a negative number of minutes
abbrev pub minus_minutes : ℕ → ℕ → ℕ
minus_minutes instant minutes = instant - minutes * 60000
