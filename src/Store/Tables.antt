-- ===== src/Store/Tables.antt =====
-- The rows of apps/api/src/db/schema.ts and the Idempotency-Keys of
-- apps/api/src/payments/payments.service.ts.
--
-- An id (a uuid, or the provider's text id) is a number, since ids are only compared and sorted;
-- an instant is in milliseconds, an amount in minor units. Write-only columns are left out:
-- `audit_events.metadata`, `bookings.currency` (always PKR), the raw bytes and the correlation id
-- of a delivery.
use project_atrium.Base.{ℕ, Bool, false, Option, none, some, List, ◌==◌}
use Prim.Native.String.{String}
use project_atrium.Store.Status.{BookingStatus, PaymentStatus, ActorType, WebhookEvent, UserRole}
use project_atrium.Refunds.Policy.{PolicySnapshot, LineItem, Tier}

-- `AuthPrincipal`
pub record AuthPrincipal : Type 0 where
  pub user_id : ℕ
  pub role : UserRole
  pub venue_id : Option ℕ

pub record Actor : Type 0 where
  pub kind : ActorType
  pub id : Option ℕ

abbrev pub system_actor : Actor
system_actor = record { kind = ActorType.system; id = none }

abbrev pub paygate_actor : Actor
paygate_actor = record { kind = ActorType.paygate; id = none }

abbrev pub user_actor : AuthPrincipal → Actor
user_actor p = record { kind = ActorType.user; id = some p.user_id }

-- `bookings`
pub record Booking : Type 0 where
  pub id : ℕ
  pub venue_id : ℕ
  pub room_id : ℕ
  pub user_id : ℕ
  pub starts_at : ℕ
  pub ends_at : ℕ
  pub status : BookingStatus
  pub expires_at : Option ℕ
  pub rearm_count : ℕ
  pub policy_snapshot : Option PolicySnapshot
  pub total_minor : ℕ
  pub created_at : ℕ
  pub updated_at : ℕ

-- `audit_events`
pub record AuditEvent : Type 0 where
  pub booking_id : ℕ
  pub actor : Actor
  pub from_state : BookingStatus
  pub to_state : BookingStatus
  pub reason : String

-- An Idempotency-Key: `chargeKey(booking)` is `charge:<booking>`, `refundKey(charge)` is
-- `refund:<charge>`.
pub data IdempotencyKey : Type 0 where
  charge_key refund_key : ℕ → IdempotencyKey

abbrev pub is_key : IdempotencyKey → IdempotencyKey → Bool
is_key (IdempotencyKey.charge_key a) (IdempotencyKey.charge_key b) = a == b
is_key (IdempotencyKey.refund_key a) (IdempotencyKey.refund_key b) = a == b
is_key _ _ = false

-- `payments`
pub record Payment : Type 0 where
  pub id : ℕ
  pub booking_id : ℕ
  pub idempotency_key : IdempotencyKey
  pub charge_id : Option ℕ
  pub amount_minor : ℕ
  pub status : PaymentStatus
  pub refund_id : Option ℕ
  pub refund_idempotency_key : Option IdempotencyKey
  pub refunded_minor : ℕ
  pub failure_reason : Option String
  pub created_at : ℕ
  pub updated_at : ℕ

-- `payment_events`
pub record PaymentEvent : Type 0 where
  pub charge_id : ℕ
  pub event : WebhookEvent
  pub occurred_at : ℕ

-- The field `event` of a webhook body as the service reads it.
pub data EventName : Type 0 where
  missing unsupported : EventName
  supported : WebhookEvent → EventName

-- A webhook body as the service reads it: `none` where a field is absent or has another type.
-- The reference is `none` also where it is no uuid.
pub record WebhookBody : Type 0 where
  pub charge_id : Option ℕ
  pub reference : Option ℕ
  pub event : EventName
  pub amount_minor : Option ℕ
  pub occurred_at : Option ℕ
  pub refund_id : Option ℕ

-- `webhook_deliveries`, with the raw body parsed; `none` does not parse.
pub record Delivery : Type 0 where
  pub id : ℕ
  pub delivery_id : ℕ
  pub body : Option WebhookBody
  pub signature_valid : Bool
  pub error : Option String
  pub received_at : ℕ
  pub processed_at : Option ℕ

-- `cancellation_policies`; a venue of `none` is the platform.
pub record PolicyRow : Type 0 where
  pub id : ℕ
  pub venue_id : Option ℕ
  pub tiers : List Tier
  pub created_at : ℕ

-- `equipment_types`
pub record EquipmentType : Type 0 where
  pub id : ℕ
  pub venue_id : ℕ
  pub name : String
  pub hourly_rate_minor : ℕ
  pub units_owned : ℕ

-- The audit trail is kept newest first.
pub record Database : Type 0 where
  pub bookings : List Booking
  pub line_items : List LineItem
  pub audit : List AuditEvent
  pub payments : List Payment
  pub payment_events : List PaymentEvent
  pub deliveries : List Delivery
  pub policies : List PolicyRow
  pub equipment_types : List EquipmentType
