-- ===== src/Paygate/Step.antt =====
-- The histories of the provider's ledger: the methods of `PostgresLedger`, one after the other.
-- The instants, the ids that are drawn and what the callers ask for are any.
use project_atrium.Base.{ℕ, Option, List}
use project_atrium.Paygate.Types.{
  ChargeStatus, DeliveryRecord, OpenChargeInput, OpenRefundInput, ImportedCharge,
}
use project_atrium.Paygate.Tables.{PostgresLedger}
use project_atrium.Paygate.Postgres.{
  open_charge, materialise_charge, recover_from_transient_failure, open_refund, materialise_refund,
}
use project_atrium.Paygate.Deliveries.{
  next_attempt, record_delivery, finish_delivery, import_charges,
}

-- One call, from the tables to the next.
pub data Call (p : PostgresLedger) : PostgresLedger → Type 0 where
  opens_charge : (id now : ℕ) (input : OpenChargeInput) → Call p (open_charge id now input p).1
  materialises_charge :
      (id : ℕ) (status : ChargeStatus) (at : ℕ) → Call p (materialise_charge id status at p).1
  recovers :
      (id key : ℕ) (correlation_id : Option ℕ)
      → Call p (recover_from_transient_failure id key correlation_id p).1
  opens_refund : (id now : ℕ) (input : OpenRefundInput) → Call p (open_refund id now input p).1
  materialises_refund : (id at : ℕ) → Call p (materialise_refund id at p).1
  attempts : (id : ℕ) → Call p (next_attempt id p).1
  records : (d : DeliveryRecord) → Call p (record_delivery d p).1
  finishes : (d : DeliveryRecord) → Call p (finish_delivery d p).1
  imports : (rows : List ImportedCharge) → Call p (import_charges rows p).1

-- Any number of calls, one after the other.
pub data History (start : PostgresLedger) : PostgresLedger → Type 0 where
  at_start : History start start
  after : {p q : PostgresLedger} → History start p → Call p q → History start q
