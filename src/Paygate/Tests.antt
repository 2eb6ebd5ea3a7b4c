-- ===== src/Paygate/Tests.antt =====
-- The provider's ledger on concrete calls.
use project_atrium.Base.{◌≡◌, refl, true, false, none, some, [], ◌∷◌, any_of, find_first, arith}
use project_atrium.Paygate.Types.{
  normal, ChaosPlan, ChargeStatus, Charge, hash, Scope, is_slot, IdempotencyRecord, replayed_once,
  OpenChargeInput, OpenChargeResult, OpenRefundInput, OpenRefundResult, returned, threw,
}
use project_atrium.Paygate.Tables.{ChargeRow, PostgresLedger, to_charge, transaction, with_id}
use project_atrium.Paygate.Postgres
use project_atrium.Paygate.Postgres.{materialise_charge, open_refund, new_row}
use project_atrium.Paygate.Memory
use project_atrium.Paygate.Memory.{MemoryLedger, charge_with_id, new_charge}
use project_atrium.Paygate.Deliveries.{next_attempt}
use project_atrium.Paygate.Step.{
  History, at_start, after, materialises_charge, opens_charge, opens_refund, attempts,
}
use project_atrium.Paygate.Shares.{IsCovered}
use project_atrium.Paygate.Covered.{empty_ledger, History-IsCovered}
use project_atrium.Paygate.Once.{charge_once}
use project_atrium.Paygate.Settled.{materialise_once}
use project_atrium.Paygate.Burnt.{refused_refund_burns_key}
use project_atrium.Paygate.Rng.{make_rng}
use project_atrium.Paygate.Chaos.{plan_label}
use project_atrium.Paygate.Mirror.{Agrees, open_charge-Agrees}

abbrev calm : ChaosPlan
calm = record {
  enabled = false;
  transient_failure = false;
  timing = normal;
  duplicate_delivery = false;
  first_delay_ms = 0;
  duplicate_gap_ms = 0;
  clock_skew_seconds = 0;
}

abbrev purchase : OpenChargeInput
purchase = record {
  reference = 40;
  amount_minor = 900;
  currency = 1;
  idempotency_key = 7;
  fingerprint = hash 12;
  correlation_id = none;
  plan = calm;
}

abbrev half_back : OpenRefundInput
half_back = record {
  charge_id = 1;
  amount_minor = 450;
  idempotency_key = 8;
  fingerprint = hash 13;
  correlation_id = none;
  plan = calm;
}

abbrev purchased_row : ChargeRow
purchased_row = new_row 1 100 purchase

abbrev purchased : PostgresLedger
purchased = record {
  charges = purchased_row ∷ [];
  refunds = [];
  idempotency = Postgres.charge_slot 1 100 purchase ∷ [];
  deliveries = [];
}

abbrev captured : PostgresLedger
captured = record purchased {
  charges = Postgres.settle ChargeStatus.succeeded 110 purchased_row ∷ [];
}

abbrev paid_charge : Charge
paid_charge = to_charge purchased_row [] []

opened :
    Postgres.open_charge 1 100 purchase empty_ledger
    ≡ (returned (OpenChargeResult.created paid_charge), purchased)
unfolding Postgres.open_charge transaction
opened = refl

-- A charge, its outcome, a refund of half of it, and one that asks for too much.
History-IsCovered_example :
    IsCovered
      (open_refund 3 130
        (record half_back { idempotency_key = 9; amount_minor = 451 })
        (open_refund 2 120 half_back
          (materialise_charge 1 ChargeStatus.succeeded 110
            (Postgres.open_charge 1 100 purchase empty_ledger).1).1).1).1
History-IsCovered_example = History-IsCovered _ (
    after
      (after
        (after (after at_start (opens_charge 1 100 purchase))
          (materialises_charge 1 ChargeStatus.succeeded 110))
        (opens_refund 2 120 half_back))
      (opens_refund 3 130 (record half_back { idempotency_key = 9; amount_minor = 451 })))

since_purchase : History purchased (materialise_charge 1 ChargeStatus.succeeded 110 purchased).1
since_purchase = after at_start (materialises_charge 1 ChargeStatus.succeeded 110)

-- Asked again after the charge was captured, under another id.
charge_once_example :
    (row : ChargeRow) × (r : IdempotencyRecord) × ((Postgres.open_charge 5 200 purchase
        (materialise_charge 1 ChargeStatus.succeeded 110 purchased).1).0
      ≡ returned (OpenChargeResult.replayed (to_charge row [] []) (replayed_once r)))
    × (row.id ≡ 1)
    × (row.reference ≡ 40)
    × (row.amount_minor ≡ 900)
    × ((Postgres.open_charge 5 200 purchase
          (materialise_charge 1 ChargeStatus.succeeded 110 purchased).1).1.charges
        ≡ (materialise_charge 1 ChargeStatus.succeeded 110 purchased).1.charges)
charge_once_example =
    charge_once empty_ledger purchased (materialise_charge 1 ChargeStatus.succeeded 110 purchased).1
      1 100 purchase paid_charge 5 200 purchase opened since_purchase refl refl

abbrev other_purchase : OpenChargeInput
other_purchase = record purchase { amount_minor = 901; fingerprint = hash 14 }

-- Captured, attempted once, and asked to fail.
materialise_once_example :
    (materialise_charge 1 ChargeStatus.failed 300
        (next_attempt 1 (materialise_charge 1 ChargeStatus.succeeded 110 purchased).1).1
      ≡ (
        returned none,
        (next_attempt 1 (materialise_charge 1 ChargeStatus.succeeded 110 purchased).1).1,
      ))
    × ((row : ChargeRow) × (find_first
            (with_id 1)
            (next_attempt 1 (materialise_charge 1 ChargeStatus.succeeded 110 purchased).1).1.charges
          ≡ some row)
        × (row.status ≡ ChargeStatus.succeeded)
        × (row.occurred_at ≡ some 110))
materialise_once_example =
    materialise_once purchased
      (next_attempt 1 (materialise_charge 1 ChargeStatus.succeeded 110 purchased).1).1 1 110
      ChargeStatus.succeeded purchased_row refl refl (after at_start (attempts 1))
      ChargeStatus.failed 300

abbrev refused : PostgresLedger
refused = record purchased {
  idempotency = Postgres.charge_slot 1 100 purchase ∷ Postgres.refund_slot 2 105 half_back ∷ [];
}

too_early :
    open_refund 2 105 half_back purchased ≡ (returned OpenRefundResult.unknown_charge, refused)
unfolding open_refund transaction
too_early = refl

-- A refund that is asked for before the charge has its outcome, and again after it was captured.
refused_refund_burns_key_example :
    open_refund 3 120 half_back (record refused { charges = captured.charges })
    ≡ (threw, record refused { charges = captured.charges })
refused_refund_burns_key_example =
    refused_refund_burns_key 2 105 3 120 half_back purchased refused
      (record refused { charges = captured.charges }) OpenRefundResult.unknown_charge refl refl
      too_early refl refl refl

abbrev in_memory : MemoryLedger
in_memory = record {
  charges = new_charge 1 100 purchase ∷ [];
  refunds = [];
  idempotency = Postgres.charge_slot 1 100 purchase ∷ [];
}

open_charge-Agrees_example :
    Agrees
      (Memory.open_charge 5 200 purchase in_memory)
      (Postgres.open_charge 5 200 purchase purchased)
open_charge-Agrees_example =
    open_charge-Agrees 5 200 purchase in_memory purchased
      (record { charges = refl; refunds = refl; idempotency = refl }) refl
      (λ unknown. ground (arith, unknown)) (λ r known. linked r known)
  where
    linked :
        (r : IdempotencyRecord)
        → find_first (is_slot Scope.charge 7) in_memory.idempotency ≡ some r
        → any_of (charge_with_id r.resource_id) in_memory.charges ≡ true
    linked r known = ground (arith, known)

-- The seed `atrium`, the key `k` and the label `plan`.
first_state :
    make_rng ((97 ∷ 116 ∷ 114 ∷ 105 ∷ 117 ∷ 109 ∷ []) ∷ (107 ∷ []) ∷ plan_label ∷ []) ≡ 652390157
unfolding make_rng
first_state = refl
