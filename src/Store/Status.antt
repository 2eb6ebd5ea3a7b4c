-- ===== src/Store/Status.antt =====
-- The enums of apps/api/src/db/schema.ts, and the table of legal transitions of
-- apps/api/src/bookings/booking-state-machine.service.ts.
use project_atrium.Base.{ℕ, ◌≡◌, Bool, true, List, [], ◌∷◌, ◌==◌, any_of, arith}

pub data UserRole : Type 0 where
  customer venue_staff venue_admin platform_admin : UserRole

pub data BookingStatus : Type 0 where
  draft held pending_payment confirmed completed expired failed cancelled refunded : BookingStatus

-- The place of a status in the enum, to compare by.
abbrev pub rank : BookingStatus → ℕ
rank draft = 0
rank held = 1
rank pending_payment = 2
rank confirmed = 3
rank completed = 4
rank expired = 5
rank BookingStatus.failed = 6
rank cancelled = 7
rank BookingStatus.refunded = 8

abbrev pub is_status : BookingStatus → BookingStatus → Bool
is_status s t = rank s == rank t

pub is_status_sound : (s t : BookingStatus) → is_status s t ≡ true → s ≡ t
is_status_sound s t h = ground arith

pub is_status_refl : (s : BookingStatus) → is_status s s ≡ true
is_status_refl s = ground arith

-- `Array.includes`
abbrev pub includes : List BookingStatus → BookingStatus → Bool
includes ss s = any_of (is_status s) ss

-- `LEGAL_TRANSITIONS`
unfoldable pub legal_transitions : BookingStatus → List BookingStatus
legal_transitions draft = held ∷ []
legal_transitions held = pending_payment ∷ expired ∷ cancelled ∷ []
legal_transitions pending_payment = confirmed ∷ BookingStatus.failed ∷ expired ∷ []
legal_transitions confirmed = cancelled ∷ completed ∷ []
legal_transitions completed = []
legal_transitions expired = []
legal_transitions BookingStatus.failed = []
legal_transitions cancelled = BookingStatus.refunded ∷ []
legal_transitions BookingStatus.refunded = []

-- `isLegalTransition`
unfoldable pub is_legal_transition : BookingStatus → BookingStatus → Bool
unfolding legal_transitions
is_legal_transition from to = includes (legal_transitions from) to

-- `ACTIVE` of the booking service, and the predicate of `no_room_overlap`.
unfoldable pub is_active : BookingStatus → Bool
is_active s = includes (held ∷ pending_payment ∷ confirmed ∷ []) s

pub data PaymentStatus : Type 0 where
  pending succeeded failed refunded : PaymentStatus

abbrev pub payment_rank : PaymentStatus → ℕ
payment_rank PaymentStatus.pending = 0
payment_rank PaymentStatus.succeeded = 1
payment_rank PaymentStatus.failed = 2
payment_rank PaymentStatus.refunded = 3

abbrev pub is_payment : PaymentStatus → PaymentStatus → Bool
is_payment s t = payment_rank s == payment_rank t

pub data ActorType : Type 0 where
  user system paygate : ActorType

-- The three events of a webhook, `SUPPORTED_EVENTS`.
pub data WebhookEvent : Type 0 where
  charge_succeeded charge_failed refund_succeeded : WebhookEvent

abbrev pub event_rank : WebhookEvent → ℕ
event_rank charge_succeeded = 0
event_rank charge_failed = 1
event_rank refund_succeeded = 2

abbrev pub is_event : WebhookEvent → WebhookEvent → Bool
is_event e f = event_rank e == event_rank f
