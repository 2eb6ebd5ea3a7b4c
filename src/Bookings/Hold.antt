-- ===== src/Bookings/Hold.antt =====
-- apps/api/src/bookings/bookings.service.ts: the hold transaction, `holdOnce`, and the admission
-- of its equipment, with `lockEquipmentTypes` of
-- apps/api/src/bookings/equipment-availability.ts.
--
-- The advisory lock writes nothing. Rows are locked in the order of the ids, which is also the
-- order in which they come back.
use project_atrium.Base.{
  ℕ, ◌+◌, ◌*◌, ◌/◌, Bool, not, ◌||◌, List, [], ◌∷◌, ◌++◌, map, ltb, leb, ◌==◌, if◌then◌else◌,
  length, any_of, filter_by, sum_by,
}
use project_atrium.Store.Tables.{AuthPrincipal, Booking, Database, EquipmentType, user_actor}
use project_atrium.Store.Transaction.{
  Conflict, Failure, Result, ok, err, Tx, pure, ◌>>=◌, ◌>>◌, transaction,
}
use project_atrium.Refunds.Policy.{LineItem, half_hours}
use project_atrium.Bookings.StateMachine.{HeldValues, create_held}
use project_atrium.Bookings.Expiry.{expire_stale_holds_for_room}
use project_atrium.Bookings.Equipment.{peak_concurrent_usage, admission_ceiling}
use project_atrium.Bookings.Service.{Env}

-- `LineItemSchema`
pub record Request : Type 0 where
  pub equipment_type_id : ℕ
  pub quantity : ℕ

-- `HoldInput`
pub record HoldInput : Type 0 where
  pub room_id : ℕ
  pub starts_at : ℕ
  pub ends_at : ℕ
  pub line_items : List Request

-- The fields of `RoomContext` that the transaction reads.
pub record RoomContext : Type 0 where
  pub venue_id : ℕ
  pub hourly_rate_minor : ℕ
  pub overbooking_buffer_pct : ℕ

-- `new Map(…)` over the line items: a later entry for a key replaces the value of an earlier one.
unfoldable pub map_set : ℕ → ℕ → List (ℕ × ℕ) → List (ℕ × ℕ)
map_set k v [] = (k, v) ∷ []
map_set k v (e ∷ m) = if e.0 == k then (k, v) ∷ m else e ∷ map_set k v m

unfoldable pub requested_from : List (ℕ × ℕ) → List Request → List (ℕ × ℕ)
unfolding map_set
requested_from m [] = m
requested_from m (r ∷ rs) = requested_from (map_set r.equipment_type_id r.quantity m) rs

-- `requested.get(id) ?? 0`
unfoldable pub quantity_of : ℕ → List (ℕ × ℕ) → ℕ
quantity_of k [] = 0
quantity_of k (e ∷ m) = if e.0 == k then e.1 else quantity_of k m

abbrev pub has_key : List (ℕ × ℕ) → ℕ → Bool
has_key m id = any_of (λ (e : ℕ × ℕ). e.0 == id) m

-- `ORDER BY id`
unfoldable pub insert_type : EquipmentType → List EquipmentType → List EquipmentType
insert_type t [] = t ∷ []
insert_type t (u ∷ us) =
    let rest = insert_type t us in if leb t.id u.id then t ∷ u ∷ us else u ∷ rest

unfoldable pub order_types : List EquipmentType → List EquipmentType
unfolding insert_type
order_types [] = []
order_types (t ∷ ts) = insert_type t (order_types ts)

-- `lockEquipmentTypes`
unfoldable pub lock_equipment_types : List (ℕ × ℕ) → Database → List EquipmentType
unfolding order_types
lock_equipment_types requested db =
    order_types (filter_by (λ (t : EquipmentType). has_key requested t.id) db.equipment_types)

-- Does a type fall short: `peak + want > ceiling`?
unfoldable pub is_short :
    ℕ → HoldInput → RoomContext → List (ℕ × ℕ) → Database → EquipmentType → Bool
unfolding peak_concurrent_usage admission_ceiling quantity_of
is_short now input ctx requested db t =
    ltb (admission_ceiling t.units_owned ctx.overbooking_buffer_pct)
      (peak_concurrent_usage now t.id input.starts_at input.ends_at db + quantity_of t.id requested)

-- What `admitEquipment` returns for one type.
pub record Priced : Type 0 where
  pub equipment_type_id : ℕ
  pub quantity : ℕ
  pub rate_minor : ℕ
  pub line_total_minor : ℕ

abbrev pub price : ℕ → List (ℕ × ℕ) → EquipmentType → Priced
price halves requested t =
    let quantity = quantity_of t.id requested in
    record {
      equipment_type_id = t.id;
      quantity = quantity;
      rate_minor = t.hourly_rate_minor;
      line_total_minor = halves * t.hourly_rate_minor * quantity / 2;
    }

-- `admitEquipment` behind its test for no line items.
unfoldable pub admit_types : ℕ → HoldInput → RoomContext → List (ℕ × ℕ) → Tx (List Priced)
unfolding lock_equipment_types is_short
admit_types now input ctx requested db =
    let locked = lock_equipment_types requested db in
    if not (length locked == length requested)
      || any_of (λ (t : EquipmentType). not (t.venue_id == ctx.venue_id)) locked
    then (err Failure.unprocessable, db)
    else if any_of (is_short now input ctx requested db) locked
    then (err (Failure.conflict Conflict.equipment_short), db)
    else (ok (map (price (half_hours input.starts_at input.ends_at) requested) locked), db)

unfoldable pub admit_equipment : ℕ → HoldInput → RoomContext → List (ℕ × ℕ) → Tx (List Priced)
unfolding admit_types
admit_equipment now input ctx [] = pure []
admit_equipment now input ctx (r ∷ rs) = admit_types now input ctx (r ∷ rs)

-- The `catch` around `createHeld`: SQLSTATE 23P01 becomes a 409.
unfoldable pub slot_taken_on_exclusion : Result Booking → Result Booking
slot_taken_on_exclusion (ok b) = ok b
slot_taken_on_exclusion (err Failure.exclusion_violation) =
    err (Failure.conflict Conflict.slot_taken)
slot_taken_on_exclusion (err e) = err e

unfoldable pub create_or_conflict : ℕ → ℕ → HeldValues → AuthPrincipal → Tx Booking
unfolding slot_taken_on_exclusion
create_or_conflict now id values p db =
    let (r, db') = create_held now id values (user_actor p) "hold.created" db in
    (slot_taken_on_exclusion r, db')

-- `tx.insert(bookingLineItems)`
abbrev pub line_item_of : ℕ → Priced → LineItem
line_item_of id item = record {
  booking_id = id;
  equipment_type_id = item.equipment_type_id;
  quantity = item.quantity;
  rate_minor = item.rate_minor;
}

unfoldable pub insert_line_items : ℕ → List Priced → Tx (Unit {0})
insert_line_items id priced db =
    (ok tt, record db { line_items = map (line_item_of id) priced ++ db.line_items })

-- `(hourlyRateMinor * halfHours) / 2n`
unfoldable pub room_total : HoldInput → RoomContext → ℕ
room_total input ctx = ctx.hourly_rate_minor * half_hours input.starts_at input.ends_at / 2

abbrev pub held_values :
    ℕ → Env → HoldInput → RoomContext → AuthPrincipal → List Priced → HeldValues
held_values now env input ctx p priced = record {
  venue_id = ctx.venue_id;
  room_id = input.room_id;
  user_id = p.user_id;
  starts_at = input.starts_at;
  ends_at = input.ends_at;
  expires_at = now + env.hold_ttl_seconds * 1000;
  total_minor = room_total input ctx + sum_by (λ (i : Priced). i.line_total_minor) priced;
}

-- The steps of `holdOnce` behind the equipment's admission.
unfoldable pub book :
    ℕ → Env → ℕ → HoldInput → RoomContext → AuthPrincipal → List Priced → Tx Booking
unfolding create_or_conflict insert_line_items
book now env id input ctx p priced = do
  booking ← create_or_conflict now id (held_values now env input ctx p priced) p
  insert_line_items booking.id priced
  pure booking

-- `holdOnce`
unfoldable pub hold_once : ℕ → Env → ℕ → HoldInput → RoomContext → AuthPrincipal → Tx Booking
unfolding book
hold_once now env id input ctx p = transaction (do
  expire_stale_holds_for_room now input.room_id
  priced ← admit_equipment now input ctx (requested_from [] input.line_items)
  book now env id input ctx p priced)
