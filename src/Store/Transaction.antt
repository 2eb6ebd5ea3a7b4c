-- ===== src/Store/Transaction.antt =====
-- A transaction as a state and error monad, and the exceptions of the services.
--
-- Within a transaction each statement sees what the earlier ones wrote. A transaction that throws
-- is rolled back: `transaction` is drizzle's `db.transaction`. Two transactions on the same rows
-- run one after the other, which is what the row locks and the advisory locks of the services are
-- for; `now` is one instant for the whole transaction.
use project_atrium.Base.{ℕ, Bool, true, false}
use project_atrium.Store.Status.{BookingStatus}
use project_atrium.Store.Tables.{Database}

-- The `ConflictException`s, by their message.
pub data Conflict : Type 0 where
  unexpected_state : BookingStatus → Conflict
  illegal_transition : BookingStatus → BookingStatus → Conflict
  hold_expired : Conflict
  wrong_state : BookingStatus → Conflict
  rearm_limit : ℕ → Conflict
  lifetime_over : Conflict
  slot_taken : Conflict
  contention : Conflict
  equipment_short : Conflict
  payment_not_recorded : Conflict

pub data Failure : Type 0 where
  conflict : Conflict → Failure
  not_found : Failure
  forbidden : Failure
  unprocessable : Failure
  unauthorized : Failure
  unavailable : Failure
  -- SQLSTATE 23P01
  exclusion_violation : Failure
  -- SQLSTATE class 40
  transient_rollback : Failure
  -- an error of the provider's client, or any other `Error`
  thrown : Failure

pub data Result {ℓ} (A : Type ℓ) : Type ℓ where
  ok : A → Result A
  err : Failure → Result A

abbrev pub Tx {ℓ} : Type ℓ → Type ℓ
Tx A = Database → Result A × Database

module _ {ℓ} {A : Type ℓ} where
  abbrev pub pure : A → Tx A
  pure a db = (ok a, db)

  abbrev pub throw : Failure → Tx A
  throw e db = (err e, db)

infixl 5 ◌>>=◌ ◌>>◌
abbrev pub ◌>>=◌ {ℓ κ} : {A : Type ℓ} {B : Type κ} → Tx A → (A → Tx B) → Tx B
◌>>=◌ m f db = let (r, db') = m db in elim r [ ok a ↦ f a db' | err e ↦ (err e, db') ]

abbrev pub ◌>>◌ {ℓ κ} : {A : Type ℓ} {B : Type κ} → Tx A → Tx B → Tx B
m >> k = m >>= λ _. k

abbrev pub throw_if : Bool → Failure → Tx (Unit {0})
throw_if true e db = (err e, db)
throw_if false e db = (ok tt, db)

-- `db.transaction(…)`: what is thrown undoes the writes.
unfoldable pub transaction {ℓ} : {A : Type ℓ} → Tx A → Tx A
transaction m db = let (r, db') = m db in elim r [ ok a ↦ (ok a, db') | err e ↦ (err e, db) ]
