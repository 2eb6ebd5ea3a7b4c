-- ===== src/Rooms/Days.antt =====
-- A calendar and opening hours, for the tests.
use project_atrium.Base.{◌+◌, ◌*◌, ◌/◌, ◌%◌, none, some}
use project_atrium.Rooms.Zones.{mon, Calendar}
use project_atrium.Rooms.Hours.{DayHours, OperatingHours}
use project_atrium.Rooms.Clock.{print_clock}

-- One zone, on the clock of UTC, whose one month never ends.
abbrev pub plain : Calendar
plain = record {
  format_to_parts = λ instant zone. record {
    year = 1970;
    month = 1;
    day = instant / 86400000;
    hour = (instant / 3600000) % 24;
    minute = (instant / 60000) % 60;
    second = (instant / 1000) % 60;
    weekday = mon;
  };
  utc = λ year month day hour minute second.
      day * 86400000 + hour * 3600000 + minute * 60000 + second * 1000;
}

-- 09:00 to 12:00
abbrev pub morning : DayHours
morning = record { opens = print_clock 9 0; closes = print_clock 12 0 }

abbrev pub mornings : OperatingHours
mornings = record {
  sunday = none;
  monday = some morning;
  tuesday = none;
  wednesday = none;
  thursday = none;
  friday = none;
  saturday = none;
}
