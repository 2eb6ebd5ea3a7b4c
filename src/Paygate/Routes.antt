-- ===== src/Paygate/Routes.antt =====
-- apps/paygate/src/app.ts: `POST /paygate/charges` and `POST /paygate/refunds`.
use project_atrium.Base.{ℕ, Bool, true, false, Option, none, some, if◌then◌else◌}
use project_atrium.Paygate.Types.{
  ChargeStatus, hash, KeyOutcome, accepted, failed_500, Charge, IdempotencyRecord, OpenChargeInput,
  OpenChargeResult, OpenRefundInput, OpenRefundResult, Answer, returned, threw,
}
use project_atrium.Paygate.Postgres.{open_charge, recover_from_transient_failure, open_refund}
use project_atrium.Paygate.Server.{
  ChargeBody, RefundBody, PaygateConfig, Server, bring_to_life, bring_refund_to_life,
}

-- The answers: 202 with the ids, or an error by its code. `internal_error` is the 500 of an
-- exception.
pub data Reply : Type 0 where
  charge_accepted : ℕ → Reply
  refund_accepted : ℕ → ℕ → Reply
  missing_idempotency_key invalid_body idempotency_key_reuse provider_error : Reply
  unknown_charge : Reply
  charge_not_refundable : ChargeStatus → Reply
  refund_exceeds_charge : ℕ → ℕ → Reply
  internal_error : Reply

abbrev pub is_failed_500 : KeyOutcome → Bool
is_failed_500 accepted = false
is_failed_500 failed_500 = true

abbrev pub charge_input : PaygateConfig → ℕ → ChargeBody → Option ℕ → OpenChargeInput
charge_input cfg key body correlation_id = record {
  reference = body.reference;
  amount_minor = body.amount_minor;
  currency = body.currency;
  idempotency_key = key;
  fingerprint = hash (cfg.charge_fingerprint body);
  correlation_id = correlation_id;
  plan = cfg.plan_for key;
}

-- A retry that finds the key of a 500 does what the first request left out.
unfoldable pub recover :
    PaygateConfig → ℕ → ℕ → Option ℕ → Charge → IdempotencyRecord → Server → Server
unfolding recover_from_transient_failure bring_to_life
recover cfg now key correlation_id c r s =
    if is_failed_500 r.outcome
    then bring_to_life cfg now c
        (record s { ledger = (recover_from_transient_failure c.id key correlation_id s.ledger).1 })
    else s

-- The route, after the ledger has answered.
unfoldable pub answer_charge :
    PaygateConfig → ℕ → ℕ → Option ℕ → Answer OpenChargeResult → Server → Reply × Server
unfolding recover bring_to_life
answer_charge cfg now key correlation_id threw s = (internal_error, s)
answer_charge cfg now key correlation_id (returned OpenChargeResult.fingerprint_mismatch) s =
    (idempotency_key_reuse, s)
answer_charge cfg now key correlation_id (returned (OpenChargeResult.replayed c r)) s =
    (charge_accepted c.id, recover cfg now key correlation_id c r s)
answer_charge cfg now key correlation_id (returned (OpenChargeResult.created c)) s =
    if (cfg.plan_for key).transient_failure
    then (provider_error, s)
    else (charge_accepted c.id, bring_to_life cfg now c s)

-- `POST /paygate/charges`; `id` is what `newChargeId` draws.
unfoldable pub post_charge :
    PaygateConfig → ℕ → ℕ → Option ℕ → Option ChargeBody → Option ℕ → Server → Reply × Server
unfolding open_charge answer_charge
post_charge cfg id now none body correlation_id s = (missing_idempotency_key, s)
post_charge cfg id now (some key) none correlation_id s = (invalid_body, s)
post_charge cfg id now (some key) (some body) correlation_id s =
    let (answer, ledger) = open_charge id now (charge_input cfg key body correlation_id) s.ledger in
    answer_charge cfg now key correlation_id answer (record s { ledger = ledger })

abbrev pub refund_input : PaygateConfig → ℕ → RefundBody → Option ℕ → OpenRefundInput
refund_input cfg key body correlation_id = record {
  charge_id = body.charge_id;
  amount_minor = body.amount_minor;
  idempotency_key = key;
  fingerprint = hash (cfg.refund_fingerprint body);
  correlation_id = correlation_id;
  plan = cfg.plan_for key;
}

unfoldable pub answer_refund : ℕ → Answer OpenRefundResult → Server → Reply × Server
unfolding bring_refund_to_life
answer_refund now threw s = (internal_error, s)
answer_refund now (returned OpenRefundResult.fingerprint_mismatch) s = (idempotency_key_reuse, s)
answer_refund now (returned OpenRefundResult.unknown_charge) s = (unknown_charge, s)
answer_refund now (returned (OpenRefundResult.not_refundable status)) s =
    (charge_not_refundable status, s)
answer_refund now (returned (OpenRefundResult.exceeds_charge amount refunded)) s =
    (refund_exceeds_charge amount refunded, s)
answer_refund now (returned (OpenRefundResult.replayed r record_of)) s =
    (refund_accepted r.id r.charge_id, s)
answer_refund now (returned (OpenRefundResult.created r)) s =
    (refund_accepted r.id r.charge_id, bring_refund_to_life now r s)

-- `POST /paygate/refunds`; `id` is what `newRefundId` draws.
unfoldable pub post_refund :
    PaygateConfig → ℕ → ℕ → Option ℕ → Option RefundBody → Option ℕ → Server → Reply × Server
unfolding open_refund answer_refund
post_refund cfg id now none body correlation_id s = (missing_idempotency_key, s)
post_refund cfg id now (some key) none correlation_id s = (invalid_body, s)
post_refund cfg id now (some key) (some body) correlation_id s =
    let (answer, ledger) = open_refund id now (refund_input cfg key body correlation_id) s.ledger in
    answer_refund now answer (record s { ledger = ledger })
