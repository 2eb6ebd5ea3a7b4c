-- ===== src/Paygate/Kept.antt =====
-- apps/paygate/src/ledger/postgres.ts: every method of `PostgresLedger` keeps a law of its tables
-- that each statement keeps.
use project_atrium.Base.{
  Bool, true, false, ℕ, ◌+◌, suc, Option, none, some, List, [], ◌∷◌, find_first, update_where,
}
use project_atrium.Paygate.Types.{
  ChargeStatus, DeliveryRecord, IdempotencyRecord, Scope, Answer, returned, replayed_once, accept,
  OpenChargeInput, OpenRefundInput, ImportedCharge,
}
use project_atrium.Paygate.Tables.{
  ChargeRow, PostgresLedger, with_id, pure, ◌>>◌, claim, select_slot, update_slot, select_charge,
  select_refund, insert_charge, update_charges,
}
use project_atrium.Paygate.Postgres.{
  claimed_charge, claimed_refund, open_charge, replay_charge, is_open, settle, materialise_charge,
  backfill, recover_from_transient_failure, replay_refund, record_refund, refund_charge,
  open_refund, is_open_refund, settle_refund, materialise_refund,
}
use project_atrium.Paygate.Deliveries.{
  imported_slot, count_attempt, next_attempt, record_delivery, finish_delivery, import_row,
  import_rows, import_slots, import_batches, chunk, import_charges,
}
use project_atrium.Paygate.Step.{
  Call, opens_charge, materialises_charge, recovers, opens_refund, materialises_refund, attempts,
  records, finishes, imports, History, at_start, after,
}
use project_atrium.Paygate.Keeps.{
  Keeps, Commits, Keeps-pure, Keeps-found, Keeps-if, Keeps-transaction, Keeps-bind, Commits-if,
  Commits-of, Commits-bind, branches,
}

-- The statements that write.
pub record IsKept (I : PostgresLedger → Type 0) : Type 0 where
  pub claims : (r : IdempotencyRecord) → Keeps I (claim r)
  pub replays : (s : Scope) (k : ℕ) → Keeps I (update_slot s k replayed_once)
  pub accepts : (s : Scope) (k : ℕ) → Keeps I (update_slot s k accept)
  pub inserts : (row : ChargeRow) → Keeps I (insert_charge row)
  pub backfills : (id : ℕ) (o : Option ℕ) → Keeps I (update_charges (with_id id) (backfill o))
  pub counts : (id : ℕ) → Keeps I (update_charges (with_id id) count_attempt)
  pub settles :
      (id : ℕ) (status : ChargeStatus) (at : ℕ)
      → Keeps I (update_charges (is_open id) (settle status at))
  pub refunds :
      (id now : ℕ) (input : OpenRefundInput) (charge : ChargeRow)
      → Commits I (record_refund id now input charge)
  pub refund_settles :
      (id at : ℕ) (p : PostgresLedger)
      → I p
      → I (record p { refunds = update_where (is_open_refund id) (settle_refund at) p.refunds })
  pub deliveries :
      (ds : List DeliveryRecord) (p : PostgresLedger) → I p → I (record p { deliveries = ds })

module _ (I : PostgresLedger → Type 0) where
  Keeps-select_slot : (s : Scope) (k : ℕ) → Keeps I (select_slot s k)
  unfolding select_slot
  Keeps-select_slot s k = record {
    keep = λ p h. (Keeps-found I (find_first _ p.idempotency)).keep p h;
  }

  Keeps-select_charge : (id : ℕ) → Keeps I (select_charge id)
  unfolding select_charge
  Keeps-select_charge id = record { keep = λ p h. h }

  Keeps-select_refund : (id : ℕ) → Keeps I (select_refund id)
  unfolding select_refund
  Keeps-select_refund id = record { keep = λ p h. h }

  ruleset statements = (
    Keeps-pure, Keeps-found, Keeps-if, Keeps-transaction, Keeps-bind, Keeps-select_slot,
    Keeps-select_charge, Keeps-select_refund, Commits-of,
  )

  module _ (kept : IsKept I) where
    Keeps-replay_charge : (input : OpenChargeInput) → Keeps I (replay_charge input)
    unfolding replay_charge
    Keeps-replay_charge input = search (statements, kept.replays) depth 8

    Keeps-claimed_charge :
        (id now : ℕ) (input : OpenChargeInput) (b : Bool) → Keeps I (claimed_charge id now input b)
    unfolding claimed_charge
    Keeps-claimed_charge id now input false = Keeps-replay_charge input
    Keeps-claimed_charge id now input true = search (statements, kept.inserts)

    Keeps-open_charge : (id now : ℕ) (input : OpenChargeInput) → Keeps I (open_charge id now input)
    unfolding open_charge
    Keeps-open_charge id now input = search (statements, kept.claims, Keeps-claimed_charge)

    Keeps-recover : (id key : ℕ) (o : Option ℕ) → Keeps I (recover_from_transient_failure id key o)
    unfolding recover_from_transient_failure
    Keeps-recover id key o = search (statements, kept.accepts, kept.backfills) depth 8

    Keeps-replay_refund : (input : OpenRefundInput) → Keeps I (replay_refund input)
    unfolding replay_refund
    Keeps-replay_refund input = search (statements, kept.replays) depth 8

    Commits-refund_charge :
        (id now : ℕ) (input : OpenRefundInput) (charge : Option ChargeRow)
        → Commits I (refund_charge id now input charge)
    unfolding refund_charge
    Commits-refund_charge id now input none = search statements
    Commits-refund_charge id now input (some charge) =
        search (Commits-if, Keeps-pure, Commits-of, kept.refunds) depth 8

    Commits-claimed_refund :
        (id now : ℕ) (input : OpenRefundInput) (b : Bool)
        → Commits I (claimed_refund id now input b)
    unfolding claimed_refund
    Commits-claimed_refund id now input false = Commits-of I _ (Keeps-replay_refund input)
    Commits-claimed_refund id now input true =
        search (Commits-bind, Commits-of, Keeps-select_charge, Commits-refund_charge)

    Keeps-open_refund : (id now : ℕ) (input : OpenRefundInput) → Keeps I (open_refund id now input)
    unfolding open_refund
    Keeps-open_refund id now input =
        search (Keeps-transaction, Commits-bind, Commits-of, kept.claims, Commits-claimed_refund)

    Keeps-next_attempt : (id : ℕ) → Keeps I (next_attempt id)
    unfolding next_attempt
    Keeps-next_attempt id = record {
      keep = λ p h. attempted p h (find_first (with_id id) p.charges);
    }
      where
        attempted :
            (p : PostgresLedger)
            → I p
            → (o : Option ChargeRow)
            → I
                (elim o as (λ x. Answer ℕ × PostgresLedger) [
                  | none ↦ (returned 1, p)
                  | some row ↦ (
                    returned (suc row.attempts),
                    record p { charges = update_where (with_id id) count_attempt p.charges },
                  )
                ]).1
        attempted p h none = h
        attempted p h (some row) = (kept.counts id).keep p h

    Keeps-record_delivery : (d : DeliveryRecord) → Keeps I (record_delivery d)
    unfolding record_delivery
    Keeps-record_delivery d = record { keep = λ p h. search (branches {0} I, kept.deliveries) }

    import_tuple :
        (row : ChargeRow) (p : PostgresLedger)
        → I p
        → I ((do insert_charge row; pure {A = ℕ} 1) p).1
    import_tuple row p h =
        (Keeps-bind I _ _ (kept.inserts row) (λ _. Keeps-pure I {A = ℕ} 1)).keep p h

    Keeps-import_row : (row : ImportedCharge) → Keeps I (import_row row)
    unfolding import_row
    Keeps-import_row row = record { keep = λ p h. search (branches {0} I, import_tuple) }

    Keeps-import_rows : (rows : List ImportedCharge) → Keeps I (import_rows rows)
    unfolding import_rows
    Keeps-import_rows [] = Keeps-pure I 0
    Keeps-import_rows (row ∷ rows) =
        Keeps-bind I _ _ (Keeps-import_row row)
          λ one. Keeps-bind I _ _ (Keeps-import_rows rows) λ others. Keeps-pure I (one + others)

    Keeps-import_slots : (rows : List ImportedCharge) → Keeps I (import_slots rows)
    unfolding import_slots
    Keeps-import_slots [] = Keeps-pure I tt
    Keeps-import_slots (row ∷ rows) =
        Keeps-bind I _ _ (kept.claims (imported_slot row)) λ _. Keeps-import_slots rows

    Keeps-import_batches : (batches : List (List ImportedCharge)) → Keeps I (import_batches batches)
    unfolding import_batches
    Keeps-import_batches [] = Keeps-pure I 0
    Keeps-import_batches (batch ∷ batches) =
        Keeps-bind I _ _ (Keeps-transaction I _ (Commits-of I _ (Keeps-import_rows batch)))
          λ written. Keeps-bind I _ _ (Keeps-import_slots batch) λ _.
            Keeps-bind I _ _ (Keeps-import_batches batches)
              λ others. Keeps-pure I (written + others)

    Call-keeps : (p q : PostgresLedger) → Call p q → I p → I q
    unfolding materialise_charge materialise_refund finish_delivery import_charges
    Call-keeps p _ (opens_charge id now input) h = (Keeps-open_charge id now input).keep p h
    Call-keeps p _ (materialises_charge id status at) h = (kept.settles id status at).keep p h
    Call-keeps p _ (recovers id key o) h = (Keeps-recover id key o).keep p h
    Call-keeps p _ (opens_refund id now input) h = (Keeps-open_refund id now input).keep p h
    Call-keeps p _ (materialises_refund id at) h = kept.refund_settles id at p h
    Call-keeps p _ (attempts id) h = (Keeps-next_attempt id).keep p h
    Call-keeps p _ (records d) h = (Keeps-record_delivery d).keep p h
    Call-keeps p _ (finishes d) h = kept.deliveries _ p h
    Call-keeps p _ (imports rows) h = (Keeps-import_batches (chunk rows 500)).keep p h

    -- What every statement keeps holds at the end of a history that it held at the start of.
    pub History-keeps : (p q : PostgresLedger) → History p q → I p → I q
    History-keeps p _ at_start h = h
    History-keeps p _ (after {p = r} {q = q} earlier call) h =
        Call-keeps r q call (History-keeps p r earlier h)
