-- ===== src/Paygate/Types.antt =====
-- apps/paygate/src/types.ts, the plan of apps/paygate/src/chaos.ts, and the inputs and results of
-- apps/paygate/src/ledger/ledger.ts.
--
-- Ids, keys, references and currencies are numbers, instants are milliseconds. A fingerprint is
-- the hash of a request body, or the word that the bulk import writes in its place.
use project_atrium.Base.{ℕ, suc, Bool, true, false, ◌&&◌, Option, none, some, List, ◌==◌}
use project_atrium.Store.Status.{WebhookEvent}

pub data TimingBranch : Type 0 where
  race_on_response delayed normal : TimingBranch

pub record ChaosPlan : Type 0 where
  pub enabled : Bool
  pub transient_failure : Bool
  pub timing : TimingBranch
  pub duplicate_delivery : Bool
  pub first_delay_ms : ℕ
  pub duplicate_gap_ms : ℕ
  pub clock_skew_seconds : ℕ

-- `DeliveryRecord.branch`
pub data DeliveryBranch : Type 0 where
  timed : TimingBranch → DeliveryBranch
  duplicate forced : DeliveryBranch

pub record DeliveryRecord : Type 0 where
  pub delivery_id : ℕ
  pub charge_id : ℕ
  pub refund_id : Option ℕ
  pub event : WebhookEvent
  pub attempt : ℕ
  pub branch : DeliveryBranch
  pub signature_corrupted : Bool
  pub scheduled_delay_ms : ℕ
  pub occurred_at : ℕ
  pub sent_at : Option ℕ
  pub response_status : Option ℕ
  pub duration_ms : Option ℕ
  pub error : Option ℕ
  pub correlation_id : Option ℕ

pub data ChargeStatus : Type 0 where
  processing succeeded failed : ChargeStatus

pub data RefundStatus : Type 0 where
  processing succeeded : RefundStatus

abbrev pub is_succeeded : ChargeStatus → Bool
is_succeeded ChargeStatus.processing = false
is_succeeded ChargeStatus.succeeded = true
is_succeeded ChargeStatus.failed = false

pub record Charge : Type 0 where
  pub id : ℕ
  pub reference : ℕ
  pub amount_minor : ℕ
  pub currency : ℕ
  pub idempotency_key : ℕ
  pub correlation_id : Option ℕ
  pub status : ChargeStatus
  pub created_at : ℕ
  pub occurred_at : Option ℕ
  pub materialised : Bool
  pub refunded_minor : ℕ
  pub plan : ChaosPlan
  pub deliveries : List DeliveryRecord
  pub refund_ids : List ℕ
  pub attempts : ℕ

pub record Refund : Type 0 where
  pub id : ℕ
  pub charge_id : ℕ
  pub reference : ℕ
  pub amount_minor : ℕ
  pub idempotency_key : ℕ
  pub correlation_id : Option ℕ
  pub status : RefundStatus
  pub created_at : ℕ
  pub occurred_at : Option ℕ
  pub materialised : Bool
  pub plan : ChaosPlan

pub data Scope : Type 0 where
  charge refund : Scope

abbrev pub is_scope : Scope → Scope → Bool
is_scope Scope.charge Scope.charge = true
is_scope Scope.charge Scope.refund = false
is_scope Scope.refund Scope.charge = false
is_scope Scope.refund Scope.refund = true

pub data Fingerprint : Type 0 where
  hash : ℕ → Fingerprint
  imported : Fingerprint

abbrev pub is_fingerprint : Fingerprint → Fingerprint → Bool
is_fingerprint (hash h) (hash k) = h == k
is_fingerprint (hash h) imported = false
is_fingerprint imported (hash k) = false
is_fingerprint imported imported = true

-- `IdempotencyRecord.outcome`
pub data KeyOutcome : Type 0 where
  accepted failed_500 : KeyOutcome

pub record IdempotencyRecord : Type 0 where
  pub key : ℕ
  pub scope : Scope
  pub resource_id : ℕ
  pub fingerprint : Fingerprint
  pub outcome : KeyOutcome
  pub first_seen_at : ℕ
  pub replays : ℕ

-- The row that a scope and a key name: the slot of the map, the primary key of the table.
abbrev pub is_slot : Scope → ℕ → IdempotencyRecord → Bool
is_slot s k r = is_scope r.scope s && (r.key == k)

abbrev pub replayed_once : IdempotencyRecord → IdempotencyRecord
replayed_once r = record r { replays = suc r.replays }

abbrev pub accept : IdempotencyRecord → IdempotencyRecord
accept r = record r { outcome = accepted }

pub record OpenChargeInput : Type 0 where
  pub reference : ℕ
  pub amount_minor : ℕ
  pub currency : ℕ
  pub idempotency_key : ℕ
  pub fingerprint : Fingerprint
  pub correlation_id : Option ℕ
  pub plan : ChaosPlan

pub data OpenChargeResult : Type 0 where
  created : Charge → OpenChargeResult
  replayed : Charge → IdempotencyRecord → OpenChargeResult
  fingerprint_mismatch : OpenChargeResult

pub record OpenRefundInput : Type 0 where
  pub charge_id : ℕ
  pub amount_minor : ℕ
  pub idempotency_key : ℕ
  pub fingerprint : Fingerprint
  pub correlation_id : Option ℕ
  pub plan : ChaosPlan

pub data OpenRefundResult : Type 0 where
  created : Refund → OpenRefundResult
  replayed : Refund → IdempotencyRecord → OpenRefundResult
  fingerprint_mismatch unknown_charge : OpenRefundResult
  not_refundable : ChargeStatus → OpenRefundResult
  exceeds_charge : ℕ → ℕ → OpenRefundResult

pub record ImportedCharge : Type 0 where
  pub id : ℕ
  pub reference : ℕ
  pub amount_minor : ℕ
  pub currency : ℕ
  pub idempotency_key : ℕ
  pub status : ChargeStatus
  pub created_at : ℕ
  pub occurred_at : ℕ
  pub refunded_minor : ℕ

-- What a method answers: a value, or an exception.
pub data Answer {ℓ} (A : Type ℓ) : Type ℓ where
  returned : A → Answer A
  threw : Answer A

-- `a ?? b`
abbrev pub or_null : Option ℕ → Option ℕ → Option ℕ
or_null none b = b
or_null (some a) b = some a
