-- ===== src/Venues/Settings.antt =====
-- apps/api/src/venues/venues-admin.service.ts: the settings of a venue and its equipment types.
--
-- The bodies are what the schemas of venues.schemas.ts parsed. Each method is one statement or a
-- read and a statement, with no transaction round them.
use project_atrium.Base.{
  ℕ, Bool, ◌&&◌, Option, none, some, ◌∷◌, ◌==◌, find_first, update_where, sent_or,
}
use Prim.Native.String.{String}
use project_atrium.Store.Tables.{AuthPrincipal, EquipmentType}
use project_atrium.Store.Transaction.{Failure, Result, ok, err}
use project_atrium.Store.Inventory.{Venue, Inventory}
use project_atrium.Rooms.Hours.{OperatingHours}

-- A method on the tables of a venue: what it answers, and the tables after it.
abbrev pub Method : Type 0 → Type 0
Method A = Inventory → Result A × Inventory

-- `scope`, and the rest of a method: the venue of the token, or a refusal.
unfoldable pub scoped : {A : Type 0} → AuthPrincipal → (ℕ → Method A) → Method A
scoped p method inv = elim p.venue_id [
  | none ↦ (err Failure.forbidden, inv)
  | some v ↦ method v inv
]

-- `if (!row) throw new NotFoundException()`
abbrev pub required : {A : Type 0} → Option A → Inventory → Result A × Inventory
required none inv = (err Failure.not_found, inv)
required (some row) inv = (ok row, inv)

-- `UpdateVenueSettingsInput`; `none` was not sent.
pub record SettingsInput : Type 0 where
  pub name : Option String
  pub city : Option String
  pub timezone : Option ℕ
  pub operating_hours : Option OperatingHours
  pub overbooking_buffer_pct : Option ℕ

abbrev pub sent_hours : Option OperatingHours → Option OperatingHours → Option OperatingHours
sent_hours none stored = stored
sent_hours (some hours) stored = some hours

unfoldable pub patch_venue : SettingsInput → Venue → Venue
patch_venue i row = record row {
  name = sent_or i.name row.name;
  city = sent_or i.city row.city;
  timezone = sent_or i.timezone row.timezone;
  operating_hours = sent_hours i.operating_hours row.operating_hours;
  overbooking_buffer_pct = sent_or i.overbooking_buffer_pct row.overbooking_buffer_pct;
}

abbrev pub is_venue : ℕ → Venue → Bool
is_venue v row = row.id == v

-- `settings`
unfoldable pub settings : AuthPrincipal → Method Venue
unfolding scoped
settings p = scoped p (λ v inv. required (find_first (is_venue v) inv.venues) inv)

-- `updateSettings`, for the venue of the token.
unfoldable pub update_venue : ℕ → SettingsInput → Method Venue
unfolding patch_venue
update_venue v i inv =
    let rows = update_where (is_venue v) (patch_venue i) inv.venues in
    required (find_first (is_venue v) rows) (record inv { venues = rows })

-- `updateSettings`
unfoldable pub update_settings : AuthPrincipal → SettingsInput → Method Venue
unfolding scoped update_venue
update_settings p i = scoped p (λ v. update_venue v i)

-- `CreateEquipmentTypeInput`
pub record EquipmentInput : Type 0 where
  pub name : String
  pub hourly_rate_minor : ℕ
  pub units_owned : ℕ

-- `UpdateEquipmentTypeInput`
pub record EquipmentPatch : Type 0 where
  pub name : Option String
  pub hourly_rate_minor : Option ℕ
  pub units_owned : Option ℕ

-- `createEquipmentType`, for the venue of the token; `id` is what the table draws.
unfoldable pub insert_equipment_type : ℕ → ℕ → EquipmentInput → Method EquipmentType
insert_equipment_type v id i inv =
    let row : EquipmentType = record {
      id = id;
      venue_id = v;
      name = i.name;
      hourly_rate_minor = i.hourly_rate_minor;
      units_owned = i.units_owned;
    } in
    (ok row, record inv { equipment_types = row ∷ inv.equipment_types })

-- `createEquipmentType`
unfoldable pub create_equipment_type : AuthPrincipal → ℕ → EquipmentInput → Method EquipmentType
unfolding scoped insert_equipment_type
create_equipment_type p id i = scoped p (λ v. insert_equipment_type v id i)

unfoldable pub patch_equipment_type : EquipmentPatch → EquipmentType → EquipmentType
patch_equipment_type i row = record row {
  name = sent_or i.name row.name;
  hourly_rate_minor = sent_or i.hourly_rate_minor row.hourly_rate_minor;
  units_owned = sent_or i.units_owned row.units_owned;
}

abbrev pub is_type_of : ℕ → ℕ → EquipmentType → Bool
is_type_of v id row = (row.id == id) && (row.venue_id == v)

-- `updateEquipmentType`, for the venue of the token.
unfoldable pub update_type_of : ℕ → ℕ → EquipmentPatch → Method EquipmentType
unfolding patch_equipment_type
update_type_of v id i inv =
    let rows = update_where (is_type_of v id) (patch_equipment_type i) inv.equipment_types in
    required (find_first (is_type_of v id) rows) (record inv { equipment_types = rows })

-- `updateEquipmentType`
unfoldable pub update_equipment_type : AuthPrincipal → ℕ → EquipmentPatch → Method EquipmentType
unfolding scoped update_type_of
update_equipment_type p id i = scoped p (λ v. update_type_of v id i)
