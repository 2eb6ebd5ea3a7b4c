-- ===== src/Store/Inventory.antt =====
-- The tables of apps/api/src/db/schema.ts that a venue administers: `venues`, `rooms` and
-- `equipment_types`.
use project_atrium.Base.{ℕ, Option, List, ◌==◌, filter_by}
use Prim.Native.String.{String}
use project_atrium.Store.Tables.{EquipmentType}
use project_atrium.Rooms.Hours.{OperatingHours}

-- `venues`; opening hours of `none` do not parse.
pub record Venue : Type 0 where
  pub id : ℕ
  pub name : String
  pub city : String
  pub timezone : ℕ
  pub operating_hours : Option OperatingHours
  pub overbooking_buffer_pct : ℕ
  pub created_at : ℕ

-- `rooms`
pub record RoomRow : Type 0 where
  pub id : ℕ
  pub venue_id : ℕ
  pub name : String
  pub capacity : ℕ
  pub hourly_rate_minor : ℕ
  pub amenities : List String
  pub min_duration_minutes : ℕ
  pub max_duration_minutes : ℕ

pub record Inventory : Type 0 where
  pub venues : List Venue
  pub rooms : List RoomRow
  pub equipment_types : List EquipmentType

-- What belongs to one venue.
abbrev pub part_of : ℕ → Inventory → Inventory
part_of v inv = record {
  venues = filter_by (λ (r : Venue). r.id == v) inv.venues;
  rooms = filter_by (λ (r : RoomRow). r.venue_id == v) inv.rooms;
  equipment_types = filter_by (λ (r : EquipmentType). r.venue_id == v) inv.equipment_types;
}
