-- ===== src/Paygate/Imported.antt =====
-- apps/paygate/src/ledger/memory.ts: the bulk import of `MemoryLedger`.
use project_atrium.Base.{
  true, ℕ, none, some, List, [], ◌∷◌, if◌then◌else◌, is_some, length, find_first,
}
use project_atrium.Paygate.Types.{Charge, Scope, is_slot, ImportedCharge}
use project_atrium.Paygate.Deliveries.{imported_plan, imported_slot}
use project_atrium.Paygate.Memory.{MemoryLedger, charge_with_id, set}

abbrev pub imported_charge : ImportedCharge → Charge
imported_charge row = record {
  id = row.id;
  reference = row.reference;
  amount_minor = row.amount_minor;
  currency = row.currency;
  idempotency_key = row.idempotency_key;
  correlation_id = none;
  status = row.status;
  created_at = row.created_at;
  occurred_at = some row.occurred_at;
  materialised = true;
  refunded_minor = row.refunded_minor;
  plan = imported_plan;
  deliveries = [];
  refund_ids = [];
  attempts = 0;
}

unfoldable pub import_each : List ImportedCharge → MemoryLedger → MemoryLedger
import_each [] m = m
import_each (row ∷ rows) m = import_each rows (
    if is_some (find_first (charge_with_id row.id) m.charges) then m else record m {
      charges = set (charge_with_id row.id) (imported_charge row) m.charges;
      idempotency =
          set (is_slot Scope.charge row.idempotency_key) (imported_slot row) m.idempotency;
    })

-- `importCharges`
unfoldable pub import_charges : List ImportedCharge → MemoryLedger → ℕ × MemoryLedger
unfolding import_each
import_charges rows m = (length rows, import_each rows m)
