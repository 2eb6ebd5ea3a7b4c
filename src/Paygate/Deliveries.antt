-- ===== src/Paygate/Deliveries.antt =====
-- apps/paygate/src/ledger/postgres.ts: the reads, the delivery rows and the bulk import of
-- `PostgresLedger`.
--
-- `ORDER BY created_at, id` and `ORDER BY recorded_at, delivery_id` are left out: rows are listed
-- in the order they were inserted. The columns that only the log shows (`duration_ms`, `error`)
-- are arguments.
use mathlib.Core.Option
use project_atrium.Base.{
  ℕ, zero, suc, ◌+◌, Bool, true, false, Option, none, some, List, [], ◌∷◌, ◌++◌, map, ◌==◌,
  if◌then◌else◌, take, drop, is_some, length, find_first, filter_by, update_where, any_of,
}
use project_atrium.Paygate.Types.{
  normal, ChaosPlan, Charge, DeliveryRecord, imported, accepted, IdempotencyRecord, ImportedCharge,
  Refund, Scope, returned, threw,
}
use project_atrium.Paygate.Tables.{
  ChargeRow, PostgresLedger, to_charge, with_id, Query, pure, ◌>>=◌, ◌>>◌, transaction,
  breaks_check, claim, insert_charge,
}

abbrev pub of_charge : ℕ → Refund → Bool
of_charge id row = row.charge_id == id

-- `refundsFor`
unfoldable pub refunds_for : ℕ → PostgresLedger → List Refund
refunds_for id p = filter_by (of_charge id) p.refunds

-- `refundIdsFor`
unfoldable pub refund_ids_for : ℕ → PostgresLedger → List ℕ
refund_ids_for id p = map (λ (r : Refund). r.id) (filter_by (of_charge id) p.refunds)

-- `deliveriesFor`
unfoldable pub deliveries_for : ℕ → PostgresLedger → List DeliveryRecord
deliveries_for id p = filter_by (λ (d : DeliveryRecord). d.charge_id == id) p.deliveries

-- `getCharge`
unfoldable pub get_charge : ℕ → PostgresLedger → Option Charge
get_charge id p =
    Option.map (λ row. to_charge row (refund_ids_for id p) (deliveries_for id p))
      (find_first (with_id id) p.charges)

abbrev pub count_attempt : ChargeRow → ChargeRow
count_attempt row = record row { attempts = suc row.attempts }

-- `nextAttempt`
unfoldable pub next_attempt : ℕ → Query ℕ
next_attempt id p = elim (find_first (with_id id) p.charges) [
  | none ↦ (returned 1, p)
  | some row ↦ (
    returned (suc row.attempts),
    record p { charges = update_where (with_id id) count_attempt p.charges },
  )
]

abbrev pub is_delivery : ℕ → DeliveryRecord → Bool
is_delivery id d = d.delivery_id == id

-- `recordDelivery`: the row of a charge that is not there breaks the foreign key.
unfoldable pub record_delivery : DeliveryRecord → Query (Unit {0})
record_delivery d p =
    if any_of (is_delivery d.delivery_id) p.deliveries
    then (returned tt, p)
    else if any_of (with_id d.charge_id) p.charges
    then (returned tt, record p { deliveries = p.deliveries ++ (d ∷ []) })
    else (threw, p)

abbrev pub finish : DeliveryRecord → DeliveryRecord → DeliveryRecord
finish sent d = record d {
  sent_at = sent.sent_at;
  response_status = sent.response_status;
  duration_ms = sent.duration_ms;
  error = sent.error;
}

-- `finishDelivery`
unfoldable pub finish_delivery : DeliveryRecord → Query (Unit {0})
finish_delivery sent p = (
  returned tt,
  record p { deliveries = update_where (is_delivery sent.delivery_id) (finish sent) p.deliveries },
)

-- `IMPORTED_PLAN`
abbrev pub imported_plan : ChaosPlan
imported_plan = record {
  enabled = false;
  transient_failure = false;
  timing = normal;
  duplicate_delivery = false;
  first_delay_ms = 0;
  duplicate_gap_ms = 0;
  clock_skew_seconds = 0;
}

abbrev pub imported_row : ImportedCharge → ChargeRow
imported_row row = record {
  id = row.id;
  reference = row.reference;
  amount_minor = row.amount_minor;
  currency = row.currency;
  idempotency_key = row.idempotency_key;
  correlation_id = none;
  status = row.status;
  created_at = row.created_at;
  occurred_at = some row.occurred_at;
  materialised = true;
  refunded_minor = row.refunded_minor;
  plan = imported_plan;
  attempts = 0;
}

abbrev pub imported_slot : ImportedCharge → IdempotencyRecord
imported_slot row = record {
  key = row.idempotency_key;
  scope = Scope.charge;
  resource_id = row.id;
  fingerprint = imported;
  outcome = accepted;
  first_seen_at = row.created_at;
  replays = 0;
}

-- `INSERT INTO paygate_charges … ON CONFLICT (id) DO NOTHING` of one tuple: the rows written.
unfoldable pub import_row : ImportedCharge → Query ℕ
unfolding insert_charge
import_row row p =
    if breaks_check (imported_row row)
    then (threw, p)
    else if is_some (find_first (with_id row.id) p.charges)
    then (returned 0, p)
    else (do insert_charge (imported_row row); pure 1) p

unfoldable pub import_rows : List ImportedCharge → Query ℕ
unfolding import_row
import_rows [] = pure 0
import_rows (row ∷ rows) = do one ← import_row row; others ← import_rows rows; pure (one + others)

unfoldable pub import_slots : List ImportedCharge → Query (Unit {0})
unfolding claim
import_slots [] = pure tt
import_slots (row ∷ rows) = do claim (imported_slot row); import_slots rows

-- The two statements of each batch. A statement that throws writes no row of its own; what was
-- written before stays.
unfoldable pub import_batches : List (List ImportedCharge) → Query ℕ
unfolding import_rows import_slots
import_batches [] = pure 0
import_batches (batch ∷ batches) = do
  written ← transaction (import_rows batch)
  import_slots batch
  others ← import_batches batches
  pure (written + others)

-- `chunk`, on as much fuel as there are items.
unfoldable pub chunk_on {ℓ} : {A : Type ℓ} → ℕ → List A → ℕ → List (List A)
chunk_on zero items size = []
chunk_on (suc fuel) [] size = []
chunk_on (suc fuel) (x ∷ xs) size = take size (x ∷ xs) ∷ chunk_on fuel (drop size (x ∷ xs)) size

unfoldable pub chunk {ℓ} : {A : Type ℓ} → List A → ℕ → List (List A)
unfolding chunk_on
chunk items size = chunk_on (length items) items size

-- `importCharges`
unfoldable pub import_charges : List ImportedCharge → Query ℕ
unfolding import_batches chunk
import_charges rows = import_batches (chunk rows 500)
