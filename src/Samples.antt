-- ===== src/Samples.antt =====
-- Concrete rows and databases, for the tests of the other modules.
use project_atrium.Base.{ℕ, Option, none, some, List, [], ◌∷◌}
use project_atrium.Store.Status.{
  customer, venue_admin, BookingStatus, draft, held, pending_payment, cancelled, PaymentStatus,
}
use project_atrium.Store.Tables.{
  AuthPrincipal, Booking, AuditEvent, Payment, PolicyRow, Database, EquipmentType, charge_key,
  user_actor,
}
use project_atrium.Refunds.Policy.{Tier, PolicySnapshot, ResolvedFrom, LineItem}
use project_atrium.Bookings.Service.{Env}
use project_atrium.Bookings.Hold.{HoldInput, RoomContext}

abbrev pub ali : AuthPrincipal
ali = record { user_id = 7; role = customer; venue_id = none }

abbrev pub other_venue_admin : AuthPrincipal
other_venue_admin = record { user_id = 8; role = venue_admin; venue_id = some 4 }

-- 100 per cent from three days before the start on, then half, then nothing.
abbrev pub ladder : List Tier
ladder =
    record { min_hours_before = 259200000; room_refund_pct = 100; equipment_refund_pct = 100 }
    ∷ record { min_hours_before = 86400000; room_refund_pct = 50; equipment_refund_pct = 25 }
    ∷ record { min_hours_before = 0; room_refund_pct = 0; equipment_refund_pct = 0 }
    ∷ []

abbrev pub snapshot : PolicySnapshot
snapshot = record {
  tiers = ladder;
  policy_id = 2;
  resolved_from = ResolvedFrom.platform;
  snapshot_at = 100;
}

abbrev pub policy : PolicyRow
policy = record { id = 2; venue_id = none; tiers = ladder; created_at = 0 }

-- A booking of two hours in three days and a bit.
abbrev pub in_state : BookingStatus → Option ℕ → Option PolicySnapshot → Booking
in_state s expires_at frozen = record {
  id = 1;
  venue_id = 3;
  room_id = 5;
  user_id = 7;
  starts_at = 300000000;
  ends_at = 307200000;
  status = s;
  expires_at = expires_at;
  rearm_count = 0;
  policy_snapshot = frozen;
  total_minor = 4600;
  created_at = 0;
  updated_at = 0;
}

abbrev pub held_booking : Booking
held_booking = in_state held (some 600000) none

abbrev pub awaiting_booking : Booking
awaiting_booking = in_state pending_payment (some 600000) none

abbrev pub cancelled_booking : Booking
cancelled_booking = in_state cancelled none (some snapshot)

abbrev pub creation : AuditEvent
creation = record {
  booking_id = 1;
  actor = user_actor ali;
  from_state = draft;
  to_state = held;
  reason = "hold.created";
}

-- Two tables are rented for the booking, at 300 an hour each.
abbrev pub tables : LineItem
tables = record { booking_id = 1; equipment_type_id = 9; quantity = 2; rate_minor = 150 }

abbrev pub table_type : EquipmentType
table_type = record {
  id = 9;
  venue_id = 3;
  name = "table";
  hourly_rate_minor = 150;
  units_owned = 5;
}

abbrev pub payment_in : PaymentStatus → Option ℕ → Payment
payment_in s charge_id = record {
  id = 11;
  booking_id = 1;
  idempotency_key = charge_key 1;
  charge_id = charge_id;
  amount_minor = 4600;
  status = s;
  refund_id = none;
  refund_idempotency_key = none;
  refunded_minor = 0;
  failure_reason = none;
  created_at = 0;
  updated_at = 0;
}

abbrev pub empty_database : Database
empty_database = record {
  bookings = [];
  line_items = [];
  audit = [];
  payments = [];
  payment_events = [];
  deliveries = [];
  policies = policy ∷ [];
  equipment_types = table_type ∷ [];
}

abbrev pub with_booking : Booking → Database
with_booking b = record empty_database {
  bookings = b ∷ [];
  line_items = tables ∷ [];
  audit = creation ∷ [];
}

abbrev pub env : Env
env = record {
  hold_ttl_seconds = 600;
  checkout_rearm_seconds = 900;
  max_hold_rearms = 2;
  max_hold_lifetime_seconds = 1200;
  transient_retry_attempts = 3;
}

abbrev pub two_tables : HoldInput
two_tables = record {
  room_id = 5;
  starts_at = 300000000;
  ends_at = 307200000;
  line_items = record { equipment_type_id = 9; quantity = 2 } ∷ [];
}

abbrev pub room : RoomContext
room = record { venue_id = 3; hourly_rate_minor = 2000; overbooking_buffer_pct = 10 }
