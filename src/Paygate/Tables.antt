-- ===== src/Paygate/Tables.antt =====
-- apps/paygate/src/ledger/postgres.ts and its migrations/0001_ledger.sql: the tables of the
-- provider as lists of rows, oldest first, the statements that write them with the constraints
-- that the migration declares, and the transaction of a method.
--
-- A statement that breaks a PRIMARY KEY, a UNIQUE column, a foreign key or a CHECK throws.
-- Concurrent transactions on one key, or on one charge, run one after the other: the insert on the
-- primary key and `FOR UPDATE` are there for that.
use project_atrium.Base.{
  ℕ, ◌+◌, Bool, true, false, not, ◌&&◌, ◌||◌, Option, none, some, List, [], ◌∷◌, ◌++◌, ltb, ◌==◌,
  if◌then◌else◌, is_some, find_first, update_where, any_of,
}
use project_atrium.Paygate.Types.{
  ChaosPlan, DeliveryRecord, ChargeStatus, Charge, Refund, IdempotencyRecord, Scope, is_slot,
  Answer, returned, threw,
}

pub record ChargeRow : Type 0 where
  pub id : ℕ
  pub reference : ℕ
  pub amount_minor : ℕ
  pub currency : ℕ
  pub idempotency_key : ℕ
  pub correlation_id : Option ℕ
  pub status : ChargeStatus
  pub created_at : ℕ
  pub occurred_at : Option ℕ
  pub materialised : Bool
  pub refunded_minor : ℕ
  pub plan : ChaosPlan
  pub attempts : ℕ

pub record PostgresLedger : Type 0 where
  pub charges : List ChargeRow
  pub refunds : List Refund
  pub idempotency : List IdempotencyRecord
  pub deliveries : List DeliveryRecord

-- `toCharge`
abbrev pub to_charge : ChargeRow → List ℕ → List DeliveryRecord → Charge
to_charge row refund_ids deliveries = record {
  id = row.id;
  reference = row.reference;
  amount_minor = row.amount_minor;
  currency = row.currency;
  idempotency_key = row.idempotency_key;
  correlation_id = row.correlation_id;
  status = row.status;
  created_at = row.created_at;
  occurred_at = row.occurred_at;
  materialised = row.materialised;
  refunded_minor = row.refunded_minor;
  plan = row.plan;
  deliveries = deliveries;
  refund_ids = refund_ids;
  attempts = row.attempts;
}

abbrev pub with_id : ℕ → ChargeRow → Bool
with_id id row = row.id == id

abbrev pub refund_with_id : ℕ → Refund → Bool
refund_with_id id row = row.id == id

-- A method on the tables.
abbrev pub Query {ℓ} : Type ℓ → Type ℓ
Query A = PostgresLedger → Answer A × PostgresLedger

module _ {ℓ} {A : Type ℓ} where
  abbrev pub pure : A → Query A
  pure a p = (returned a, p)

infixl 5 ◌>>=◌ ◌>>◌
abbrev pub ◌>>=◌ {ℓ κ} : {A : Type ℓ} {B : Type κ} → Query A → (A → Query B) → Query B
◌>>=◌ m f p = let (r, p') = m p in elim r [ returned a ↦ f a p' | threw ↦ (threw, p') ]

abbrev pub ◌>>◌ {ℓ κ} : {A : Type ℓ} {B : Type κ} → Query A → Query B → Query B
m >> k = m >>= λ _. k

-- `transaction`: what throws is rolled back.
unfoldable pub transaction {ℓ} : {A : Type ℓ} → Query A → Query A
transaction m p = let (r, p') = m p in elim r [ returned a ↦ (returned a, p') | threw ↦ (threw, p) ]

-- `if (!row) throw …`
abbrev pub found {ℓ} : {A : Type ℓ} → Option A → Query A
found none p = (threw, p)
found (some a) p = (returned a, p)

-- `INSERT INTO paygate_idempotency … ON CONFLICT (scope, key) DO NOTHING RETURNING`: whether a
-- row is returned.
unfoldable pub claim : IdempotencyRecord → Query Bool
claim r p =
    if is_some (find_first (is_slot r.scope r.key) p.idempotency)
    then (returned false, p)
    else (returned true, record p { idempotency = p.idempotency ++ (r ∷ []) })

-- `SELECT * FROM paygate_idempotency WHERE scope = … AND key = …`
unfoldable pub select_slot : Scope → ℕ → Query IdempotencyRecord
select_slot s k p = found (find_first (is_slot s k) p.idempotency) p

-- `UPDATE paygate_idempotency … WHERE scope = … AND key = …`
abbrev pub update_slot : Scope → ℕ → (IdempotencyRecord → IdempotencyRecord) → Query (Unit {0})
update_slot s k f p =
    (returned tt, record p { idempotency = update_where (is_slot s k) f p.idempotency })

unfoldable pub select_charge : ℕ → Query (Option ChargeRow)
select_charge id p = (returned (find_first (with_id id) p.charges), p)

unfoldable pub select_refund : ℕ → Query (Option Refund)
select_refund id p = (returned (find_first (refund_with_id id) p.refunds), p)

-- The CHECKs on the amounts of a charge.
abbrev pub breaks_check : ChargeRow → Bool
breaks_check row = (row.amount_minor == 0) || ltb row.amount_minor row.refunded_minor

-- Its columns that must be new.
abbrev pub is_taken_by : ChargeRow → ChargeRow → Bool
is_taken_by row c = (c.id == row.id) || (c.idempotency_key == row.idempotency_key)

-- `INSERT INTO paygate_charges`
unfoldable pub insert_charge : ChargeRow → Query (Unit {0})
insert_charge row p =
    if breaks_check row || any_of (is_taken_by row) p.charges
    then (threw, p)
    else (returned tt, record p { charges = p.charges ++ (row ∷ []) })

abbrev pub refund_taken_by : Refund → Refund → Bool
refund_taken_by row r = (r.id == row.id) || (r.idempotency_key == row.idempotency_key)

abbrev pub refuses_refund : Refund → PostgresLedger → Bool
refuses_refund row p =
    (row.amount_minor == 0)
    || (any_of (refund_taken_by row) p.refunds || not (any_of (with_id row.charge_id) p.charges))

-- `INSERT INTO paygate_refunds`
unfoldable pub insert_refund : Refund → Query (Unit {0})
insert_refund row p =
    if refuses_refund row p
    then (threw, p)
    else (returned tt, record p { refunds = p.refunds ++ (row ∷ []) })

-- `UPDATE paygate_charges SET … WHERE p`
abbrev pub update_charges : (ChargeRow → Bool) → (ChargeRow → ChargeRow) → Query (Unit {0})
update_charges q f p = (returned tt, record p { charges = update_where q f p.charges })

abbrev pub reserve : ℕ → ChargeRow → ChargeRow
reserve amount row = record row { refunded_minor = row.refunded_minor + amount }

abbrev pub is_over : ℕ → ℕ → ChargeRow → Bool
is_over id amount row = with_id id row && ltb row.amount_minor (row.refunded_minor + amount)

-- `UPDATE paygate_charges SET refunded_minor = refunded_minor + …`, with the CHECK
-- `paygate_charges_not_over_refunded`.
unfoldable pub reserve_amount : ℕ → ℕ → Query (Unit {0})
reserve_amount id amount p =
    if any_of (is_over id amount) p.charges
    then (threw, p)
    else update_charges (with_id id) (reserve amount) p
