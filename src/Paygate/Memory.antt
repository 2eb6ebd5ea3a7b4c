-- ===== src/Paygate/Memory.antt =====
-- apps/paygate/src/ledger/memory.ts: `MemoryLedger`. A `Map` is the list of its values in the
-- order of insertion: `set` replaces the value of a key that is there and appends another. A
-- method that throws keeps what it wrote.
use project_atrium.Base.{
  ℕ, suc, ◌+◌, Bool, true, false, not, Option, none, some, List, [], ◌∷◌, ◌++◌, ltb, ◌==◌,
  if◌then◌else◌, any_of, find_first, update_where,
}
use project_atrium.Paygate.Types.{
  Charge, ChargeStatus, is_succeeded, RefundStatus, Refund, Scope, is_fingerprint, is_slot,
  IdempotencyRecord, replayed_once, accept, DeliveryRecord, OpenChargeInput, OpenChargeResult,
  OpenRefundInput, OpenRefundResult, Answer, returned, threw, or_null,
}
use project_atrium.Paygate.Postgres.{charge_slot, refund_slot}

pub record MemoryLedger : Type 0 where
  pub charges : List Charge
  pub refunds : List Refund
  pub idempotency : List IdempotencyRecord

abbrev pub charge_with_id : ℕ → Charge → Bool
charge_with_id id c = c.id == id

abbrev pub refund_with_id : ℕ → Refund → Bool
refund_with_id id r = r.id == id

-- `Map.set` of the key that a test finds.
abbrev pub set {ℓ} : {A : Type ℓ} → (A → Bool) → A → List A → List A
set p a xs = if any_of p xs then update_where p (λ _. a) xs else xs ++ (a ∷ [])

abbrev pub new_charge : ℕ → ℕ → OpenChargeInput → Charge
new_charge id now input = record {
  id = id;
  reference = input.reference;
  amount_minor = input.amount_minor;
  currency = input.currency;
  idempotency_key = input.idempotency_key;
  correlation_id = input.correlation_id;
  status = ChargeStatus.processing;
  created_at = now;
  occurred_at = none;
  materialised = false;
  refunded_minor = 0;
  plan = input.plan;
  deliveries = [];
  refund_ids = [];
  attempts = 0;
}

-- The slot that is there, its replay counted on a match.
abbrev pub count_replay : Scope → ℕ → MemoryLedger → MemoryLedger
count_replay s k m = record m {
  idempotency = update_where (is_slot s k) replayed_once m.idempotency;
}

abbrev pub replay_charge :
    IdempotencyRecord → Option Charge → MemoryLedger → Answer OpenChargeResult × MemoryLedger
replay_charge r none m = (threw, m)
replay_charge r (some c) m = (returned (OpenChargeResult.replayed c (replayed_once r)), m)

-- `openCharge`
unfoldable pub open_charge :
    ℕ → ℕ → OpenChargeInput → MemoryLedger → Answer OpenChargeResult × MemoryLedger
open_charge id now input m =
    elim (find_first (is_slot Scope.charge input.idempotency_key) m.idempotency) [
      | some r ↦
          if not (is_fingerprint r.fingerprint input.fingerprint)
          then (returned OpenChargeResult.fingerprint_mismatch, m)
          else replay_charge r (find_first (charge_with_id r.resource_id) m.charges)
              (count_replay Scope.charge input.idempotency_key m)
      | none ↦ (
        returned (OpenChargeResult.created (new_charge id now input)),
        record m {
          charges = set (charge_with_id id) (new_charge id now input) m.charges;
          idempotency =
              set (is_slot Scope.charge input.idempotency_key) (charge_slot id now input)
                m.idempotency;
        },
      )
    ]

abbrev pub settle : ChargeStatus → ℕ → Charge → Charge
settle status at c = record c { materialised = true; status = status; occurred_at = some at }

-- `materialiseCharge`
unfoldable pub materialise_charge :
    ℕ → ChargeStatus → ℕ → MemoryLedger → Option Charge × MemoryLedger
materialise_charge id status at m = elim (find_first (charge_with_id id) m.charges) [
  | none ↦ (none, m)
  | some c ↦ if c.materialised then (none, m) else (
    some (settle status at c),
    record m { charges = update_where (charge_with_id id) (settle status at) m.charges },
  )
]

-- `recoverFromTransientFailure`
unfoldable pub recover_from_transient_failure : ℕ → ℕ → Option ℕ → MemoryLedger → MemoryLedger
recover_from_transient_failure charge_id key correlation_id m = record m {
  idempotency = update_where (is_slot Scope.charge key) accept m.idempotency;
  charges =
      update_where (charge_with_id charge_id)
        (λ c. record c { correlation_id = or_null c.correlation_id correlation_id }) m.charges;
}

abbrev pub new_refund : ℕ → ℕ → OpenRefundInput → Charge → Refund
new_refund id now input charge = record {
  id = id;
  charge_id = charge.id;
  reference = charge.reference;
  amount_minor = input.amount_minor;
  idempotency_key = input.idempotency_key;
  correlation_id = or_null input.correlation_id charge.correlation_id;
  status = RefundStatus.processing;
  created_at = now;
  occurred_at = none;
  materialised = false;
  plan = input.plan;
}

abbrev pub reserve : ℕ → ℕ → Charge → Charge
reserve refund_id amount c = record c {
  refund_ids = c.refund_ids ++ (refund_id ∷ []);
  refunded_minor = c.refunded_minor + amount;
}

abbrev pub replay_refund :
    IdempotencyRecord → Option Refund → MemoryLedger → Answer OpenRefundResult × MemoryLedger
replay_refund r none m = (threw, m)
replay_refund r (some f) m = (returned (OpenRefundResult.replayed f (replayed_once r)), m)

abbrev pub refund_charge :
    ℕ → ℕ → OpenRefundInput → Option Charge → MemoryLedger → Answer OpenRefundResult × MemoryLedger
refund_charge id now input none m = (returned OpenRefundResult.unknown_charge, m)
refund_charge id now input (some charge) m =
    if not charge.materialised
    then (returned OpenRefundResult.unknown_charge, m)
    else if not (is_succeeded charge.status)
    then (returned (OpenRefundResult.not_refundable charge.status), m)
    else if ltb charge.amount_minor (charge.refunded_minor + input.amount_minor)
    then (returned (OpenRefundResult.exceeds_charge charge.amount_minor charge.refunded_minor), m)
    else (
      returned (OpenRefundResult.created (new_refund id now input charge)),
      record m {
        refunds = set (refund_with_id id) (new_refund id now input charge) m.refunds;
        charges = update_where (charge_with_id charge.id) (reserve id input.amount_minor) m.charges;
        idempotency =
            set (is_slot Scope.refund input.idempotency_key) (refund_slot id now input)
              m.idempotency;
      },
    )

-- `openRefund`
unfoldable pub open_refund :
    ℕ → ℕ → OpenRefundInput → MemoryLedger → Answer OpenRefundResult × MemoryLedger
open_refund id now input m =
    elim (find_first (is_slot Scope.refund input.idempotency_key) m.idempotency) [
      | some r ↦
          if not (is_fingerprint r.fingerprint input.fingerprint)
          then (returned OpenRefundResult.fingerprint_mismatch, m)
          else replay_refund r (find_first (refund_with_id r.resource_id) m.refunds)
              (count_replay Scope.refund input.idempotency_key m)
      | none ↦ refund_charge id now input (find_first (charge_with_id input.charge_id) m.charges) m
    ]

-- `materialiseRefund`
unfoldable pub materialise_refund : ℕ → ℕ → MemoryLedger → Option Refund × MemoryLedger
materialise_refund id at m = elim (find_first (refund_with_id id) m.refunds) [
  | none ↦ (none, m)
  | some r ↦
      let settled = record r {
        materialised = true;
        status = RefundStatus.succeeded;
        occurred_at = some at;
      } in
      if r.materialised then (none, m) else (
        some settled,
        record m { refunds = update_where (refund_with_id id) (λ _. settled) m.refunds },
      )
]

-- `nextAttempt`
unfoldable pub next_attempt : ℕ → MemoryLedger → ℕ × MemoryLedger
next_attempt id m = elim (find_first (charge_with_id id) m.charges) [
  | none ↦ (1, m)
  | some c ↦ (
    suc c.attempts,
    record m {
      charges =
          update_where (charge_with_id id) (λ c. record c { attempts = suc c.attempts }) m.charges;
    },
  )
]

-- `recordDelivery`
unfoldable pub record_delivery : DeliveryRecord → MemoryLedger → MemoryLedger
record_delivery d m = record m {
  charges =
      update_where (charge_with_id d.charge_id)
        (λ c. record c { deliveries = c.deliveries ++ (d ∷ []) }) m.charges;
}
