-- ===== src/Payments/Pay.antt =====
-- apps/api/src/payments/payments.service.ts: `pay`, in its three steps. The transaction that
-- records the payment commits; then the provider is called; then the charge id is written. What
-- the provider answers is an argument of the composition, so that other transactions may also be
-- run between the steps.
use project_atrium.Base.{
  ℕ, Bool, true, false, not, ◌&&◌, Option, none, some, [], ◌∷◌, if◌then◌else◌, is_some,
}
use project_atrium.Store.Status.{
  BookingStatus, held, pending_payment, is_status, PaymentStatus, is_payment,
}
use project_atrium.Store.Tables.{
  AuthPrincipal, Booking, Payment, IdempotencyKey, charge_key, system_actor, user_actor,
}
use project_atrium.Store.Transaction.{
  Conflict, Failure, Result, ok, err, Tx, pure, throw, ◌>>=◌, ◌>>◌, throw_if, transaction,
}
use project_atrium.Bookings.StateMachine.{no_patch, TransitionInput, transition}
use project_atrium.Bookings.Equipment.{is_due}
use project_atrium.Payments.Rows.{
  load_owned, with_id, find_payment_by_key, find_payment_by_id, update_payments,
}

-- What the transaction of `pay` returns.
pub record Prepared : Type 0 where
  pub booking : Booking
  pub payment : Payment
  pub already_settled : Bool

-- The row that `pay` inserts, with the columns' defaults.
abbrev pub new_payment : ℕ → ℕ → Booking → Payment
new_payment now payment_id b = record {
  id = payment_id;
  booking_id = b.id;
  idempotency_key = charge_key b.id;
  charge_id = none;
  amount_minor = b.total_minor;
  status = PaymentStatus.pending;
  refund_id = none;
  refund_idempotency_key = none;
  refunded_minor = 0;
  failure_reason = none;
  created_at = now;
  updated_at = now;
}

-- `INSERT … ON CONFLICT (idempotency_key) DO NOTHING`
unfoldable pub insert_payment : Payment → Tx (Unit {0})
unfolding find_payment_by_key
insert_payment r db = elim (find_payment_by_key r.idempotency_key db) [
  | some old ↦ (ok tt, db)
  | none ↦ (ok tt, record db { payments = r ∷ db.payments })
]

unfoldable pub recorded_payment : IdempotencyKey → Tx Payment
unfolding find_payment_by_key
recorded_payment k db = elim (find_payment_by_key k db) [
  | some r ↦ (ok r, db)
  | none ↦ (err (Failure.conflict Conflict.payment_not_recorded), db)
]

abbrev pub expiry_on_pay : ℕ → TransitionInput
expiry_on_pay id = record {
  booking_id = id;
  to = BookingStatus.expired;
  actor = system_actor;
  reason = "hold.expired.on_pay";
  expected_from = some (held ∷ []);
  patch = no_patch;
}

abbrev pub initiation : ℕ → AuthPrincipal → TransitionInput
initiation id p = record {
  booking_id = id;
  to = pending_payment;
  actor = user_actor p;
  reason = "payment.initiated";
  expected_from = some (held ∷ []);
  patch = no_patch;
}

-- The tests of `pay` on the booking's state.
unfoldable pub check_payable : ℕ → ℕ → Booking → Tx (Unit {0})
check_payable now id booking =
    if is_status booking.status held
    then if is_due booking.expires_at now
      then (do transition now (expiry_on_pay id); throw (Failure.conflict Conflict.hold_expired))
      else pure tt
    else throw_if (not (is_status booking.status pending_payment))
        (Failure.conflict (Conflict.wrong_state booking.status))

unfoldable pub initiate : ℕ → ℕ → AuthPrincipal → Booking → Tx (Unit {0})
initiate now id p booking =
    if is_status booking.status held
    then (do transition now (initiation id p); pure tt)
    else pure tt

-- The transaction of `pay` where no settled payment is there.
unfoldable pub prepare_charge : ℕ → ℕ → ℕ → AuthPrincipal → Booking → Tx Prepared
unfolding check_payable insert_payment recorded_payment initiate
prepare_charge now payment_id id p booking = do
  check_payable now id booking
  insert_payment (record (new_payment now payment_id booking) {
    booking_id = id;
    idempotency_key = charge_key id;
  })
  payment ← recorded_payment (charge_key id)
  initiate now id p booking
  pure (record { booking = booking; payment = payment; already_settled = false })

-- `existing && existing.status !== 'PENDING'`, and what follows on either side.
unfoldable pub replay_or_prepare :
    ℕ → ℕ → ℕ → AuthPrincipal → Booking → Option Payment → Tx Prepared
unfolding prepare_charge
replay_or_prepare now payment_id id p booking none = prepare_charge now payment_id id p booking
replay_or_prepare now payment_id id p booking (some r) =
    if is_payment r.status PaymentStatus.pending
    then prepare_charge now payment_id id p booking
    else pure (record { booking = booking; payment = r; already_settled = true })

-- The transaction of `pay`.
unfoldable pub prepare_payment : ℕ → ℕ → ℕ → AuthPrincipal → Tx Prepared
unfolding load_owned find_payment_by_key replay_or_prepare
prepare_payment now payment_id id p = transaction (do
  booking ← load_owned id p
  λ db. replay_or_prepare now payment_id id p booking (find_payment_by_key (charge_key id) db) db)

-- `UPDATE payments SET charge_id … WHERE id = … AND charge_id IS NULL`
unfoldable pub record_charge : ℕ → ℕ → ℕ → Tx (Unit {0})
record_charge now payment_id charge_id =
    update_payments (λ (r : Payment). with_id payment_id r && not (is_some r.charge_id))
      (λ r. record r { charge_id = some charge_id; updated_at = now })

-- `current ?? prepared.payment`
abbrev pub or_else : Option Payment → Payment → Payment
or_else none r = r
or_else (some q) r = q

-- What the provider answers to a charge under a key, for an amount: an id, or an exception.
abbrev pub ChargeCall : Type 0
ChargeCall = IdempotencyKey → ℕ → Result ℕ

-- `pay`: the payment as it is presented.
unfoldable pub pay : ℕ → ℕ → ℕ → AuthPrincipal → ChargeCall → Tx Payment
unfolding prepare_payment record_charge find_payment_by_id
pay now payment_id id p charge = do
  prepared ← prepare_payment now payment_id id p
  if prepared.already_settled then pure prepared.payment else (do
    charge_id ← (λ db. (charge (charge_key id) prepared.payment.amount_minor, db))
    record_charge now prepared.payment.id charge_id
    λ db. (ok (or_else (find_payment_by_id prepared.payment.id db) prepared.payment), db))
