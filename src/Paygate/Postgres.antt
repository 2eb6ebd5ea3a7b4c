-- ===== src/Paygate/Postgres.antt =====
-- apps/paygate/src/ledger/postgres.ts: the methods of `PostgresLedger` that open and settle
-- charges and refunds. `now` is the instant that the columns default to and `id` the id that
-- `newChargeId` or `newRefundId` draws. An amount or status is converted to and from its column
-- without a change.
use mathlib.Core.Option
use project_atrium.Base.{
  ℕ, ◌+◌, Bool, true, false, not, ◌&&◌, Option, none, some, [], ltb, if◌then◌else◌, find_first,
  update_where,
}
use project_atrium.Paygate.Types.{
  ChargeStatus, is_succeeded, RefundStatus, Refund, Scope, is_fingerprint, accepted, failed_500,
  IdempotencyRecord, replayed_once, accept, OpenChargeInput, OpenChargeResult, OpenRefundInput,
  OpenRefundResult, returned, or_null,
}
use project_atrium.Paygate.Tables.{
  ChargeRow, PostgresLedger, to_charge, with_id, refund_with_id, Query, pure, ◌>>=◌, ◌>>◌,
  transaction, found, claim, select_slot, update_slot, select_charge, select_refund, insert_charge,
  insert_refund, update_charges, reserve_amount,
}

-- `getCharge`, with the ids and deliveries of the other tables left out.
unfoldable pub get_charge_row : ℕ → PostgresLedger → Option ChargeRow
get_charge_row id p = find_first (with_id id) p.charges

abbrev pub charge_slot : ℕ → ℕ → OpenChargeInput → IdempotencyRecord
charge_slot id now input = record {
  key = input.idempotency_key;
  scope = Scope.charge;
  resource_id = id;
  fingerprint = input.fingerprint;
  outcome = if input.plan.transient_failure then failed_500 else accepted;
  first_seen_at = now;
  replays = 0;
}

abbrev pub new_row : ℕ → ℕ → OpenChargeInput → ChargeRow
new_row id now input = record {
  id = id;
  reference = input.reference;
  amount_minor = input.amount_minor;
  currency = input.currency;
  idempotency_key = input.idempotency_key;
  correlation_id = input.correlation_id;
  status = ChargeStatus.processing;
  created_at = now;
  occurred_at = none;
  materialised = false;
  refunded_minor = 0;
  plan = input.plan;
  attempts = 0;
}

-- The row of a claimed key, read again, and its replay counted.
unfoldable pub replay_charge : OpenChargeInput → Query OpenChargeResult
unfolding select_slot select_charge
replay_charge input = do
  slot ← select_slot Scope.charge input.idempotency_key
  if not (is_fingerprint slot.fingerprint input.fingerprint)
      then pure OpenChargeResult.fingerprint_mismatch
      else (do
        update_slot Scope.charge input.idempotency_key replayed_once
        row ← select_charge slot.resource_id
        charge ← found row
        pure (OpenChargeResult.replayed (to_charge charge [] []) (replayed_once slot)))

-- What `openCharge` does with its claim, by whether it won the key.
unfoldable pub claimed_charge : ℕ → ℕ → OpenChargeInput → Bool → Query OpenChargeResult
unfolding replay_charge insert_charge
claimed_charge id now input false = replay_charge input
claimed_charge id now input true = do
  insert_charge (new_row id now input)
  pure (OpenChargeResult.created (to_charge (new_row id now input) [] []))

-- `openCharge`
unfoldable pub open_charge : ℕ → ℕ → OpenChargeInput → Query OpenChargeResult
unfolding claim claimed_charge
open_charge id now input =
    transaction (do claimed ← claim (charge_slot id now input); claimed_charge id now input claimed)

abbrev pub is_open : ℕ → ChargeRow → Bool
is_open id row = with_id id row && not row.materialised

abbrev pub settle : ChargeStatus → ℕ → ChargeRow → ChargeRow
settle status at row = record row { materialised = true; status = status; occurred_at = some at }

-- `materialiseCharge`
unfoldable pub materialise_charge : ℕ → ChargeStatus → ℕ → Query (Option ChargeRow)
materialise_charge id status at p = (
  returned (Option.map (settle status at) (find_first (is_open id) p.charges)),
  record p { charges = update_where (is_open id) (settle status at) p.charges },
)

abbrev pub backfill : Option ℕ → ChargeRow → ChargeRow
backfill correlation_id row = record row {
  correlation_id = or_null row.correlation_id correlation_id;
}

-- `recoverFromTransientFailure`
unfoldable pub recover_from_transient_failure : ℕ → ℕ → Option ℕ → Query (Unit {0})
recover_from_transient_failure charge_id key correlation_id = transaction (do
  update_slot Scope.charge key accept
  update_charges (with_id charge_id) (backfill correlation_id))

abbrev pub refund_slot : ℕ → ℕ → OpenRefundInput → IdempotencyRecord
refund_slot id now input = record {
  key = input.idempotency_key;
  scope = Scope.refund;
  resource_id = id;
  fingerprint = input.fingerprint;
  outcome = accepted;
  first_seen_at = now;
  replays = 0;
}

abbrev pub new_refund : ℕ → ℕ → OpenRefundInput → ChargeRow → Refund
new_refund id now input charge = record {
  id = id;
  charge_id = charge.id;
  reference = charge.reference;
  amount_minor = input.amount_minor;
  idempotency_key = input.idempotency_key;
  correlation_id = or_null input.correlation_id charge.correlation_id;
  status = RefundStatus.processing;
  created_at = now;
  occurred_at = none;
  materialised = false;
  plan = input.plan;
}

unfoldable pub replay_refund : OpenRefundInput → Query OpenRefundResult
unfolding select_slot select_refund
replay_refund input = do
  slot ← select_slot Scope.refund input.idempotency_key
  if not (is_fingerprint slot.fingerprint input.fingerprint)
      then pure OpenRefundResult.fingerprint_mismatch
      else (do
        update_slot Scope.refund input.idempotency_key replayed_once
        row ← select_refund slot.resource_id
        refund ← found row
        pure (OpenRefundResult.replayed refund (replayed_once slot)))

-- The insert of a refund and the reservation of its amount.
unfoldable pub record_refund : ℕ → ℕ → OpenRefundInput → ChargeRow → Query OpenRefundResult
unfolding insert_refund reserve_amount
record_refund id now input charge = do
  insert_refund (new_refund id now input charge)
  reserve_amount charge.id input.amount_minor
  pure (OpenRefundResult.created (new_refund id now input charge))

-- The tests of `openRefund` on the charge.
unfoldable pub refund_charge : ℕ → ℕ → OpenRefundInput → Option ChargeRow → Query OpenRefundResult
refund_charge id now input none = pure OpenRefundResult.unknown_charge
refund_charge id now input (some charge) =
    if not charge.materialised
    then pure OpenRefundResult.unknown_charge
    else if not (is_succeeded charge.status)
    then pure (OpenRefundResult.not_refundable charge.status)
    else if ltb charge.amount_minor (charge.refunded_minor + input.amount_minor)
    then pure (OpenRefundResult.exceeds_charge charge.amount_minor charge.refunded_minor)
    else record_refund id now input charge

-- What `openRefund` does with its claim, by whether it won the key.
unfoldable pub claimed_refund : ℕ → ℕ → OpenRefundInput → Bool → Query OpenRefundResult
unfolding replay_refund select_charge refund_charge
claimed_refund id now input false = replay_refund input
claimed_refund id now input true = do
  charge ← select_charge input.charge_id
  refund_charge id now input charge

-- `openRefund`
unfoldable pub open_refund : ℕ → ℕ → OpenRefundInput → Query OpenRefundResult
unfolding claim claimed_refund
open_refund id now input =
    transaction (do claimed ← claim (refund_slot id now input); claimed_refund id now input claimed)

abbrev pub is_open_refund : ℕ → Refund → Bool
is_open_refund id row = refund_with_id id row && not row.materialised

abbrev pub settle_refund : ℕ → Refund → Refund
settle_refund at row = record row {
  materialised = true;
  status = RefundStatus.succeeded;
  occurred_at = some at;
}

-- `materialiseRefund`
unfoldable pub materialise_refund : ℕ → ℕ → Query (Option Refund)
materialise_refund id at p = (
  returned (Option.map (settle_refund at) (find_first (is_open_refund id) p.refunds)),
  record p { refunds = update_where (is_open_refund id) (settle_refund at) p.refunds },
)
