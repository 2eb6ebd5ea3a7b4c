-- ===== src/Payments/Effects.antt =====
-- apps/api/src/payments/payments.service.ts: what the three events of the provider do,
-- `onChargeSucceeded`, `onChargeFailed` and `onRefundSucceeded`.
use project_atrium.Base.{
  ℕ, Bool, not, ◌&&◌, Option, none, some, [], ◌∷◌, if◌then◌else◌, find_first, is_some,
}
use Prim.Native.String.{String}
use project_atrium.Store.Status.{
  BookingStatus, pending_payment, confirmed, cancelled, is_status, PaymentStatus,
}
use project_atrium.Store.Tables.{
  Actor, Booking, Payment, IdempotencyKey, refund_key, system_actor, paygate_actor,
}
use project_atrium.Store.Transaction.{Tx, pure, ◌>>=◌, ◌>>◌}
use project_atrium.Refunds.Policy.{PolicySnapshot}
use project_atrium.Bookings.StateMachine.{
  no_patch, TransitionInput, has_id, lock_for_update, transition, append_audit,
}
use project_atrium.Bookings.Equipment.{is_due}
use project_atrium.Payments.Rows.{with_id, update_payments, resolve_policy_snapshot}

-- `RefundInstruction`
pub record RefundInstruction : Type 0 where
  pub payment_id : ℕ
  pub charge_id : ℕ
  pub booking_id : ℕ
  pub amount_minor : ℕ
  pub idempotency_key : IdempotencyKey

-- `UPDATE payments SET refund_idempotency_key … WHERE id = … AND refund_idempotency_key IS NULL`
unfoldable pub record_refund_key : ℕ → ℕ → IdempotencyKey → Tx (Unit {0})
record_refund_key now payment_id k =
    update_payments
      (λ (r : Payment). with_id payment_id r && not (is_some r.refund_idempotency_key))
      (λ r. record r { refund_idempotency_key = some k; updated_at = now })

abbrev pub note : Actor → String → Booking → Tx (Unit {0})
note actor reason b = append_audit (record {
  booking_id = b.id;
  actor = actor;
  from_state = b.status;
  to_state = b.status;
  reason = reason;
})

abbrev pub confirmation : ℕ → PolicySnapshot → TransitionInput
confirmation id snapshot = record {
  booking_id = id;
  to = confirmed;
  actor = paygate_actor;
  reason = "payment.captured";
  expected_from = some (pending_payment ∷ []);
  patch = record {
    expires_at = some none;
    policy_snapshot = some (some snapshot);
    total_minor = none;
    rearm_count = none;
  };
}

abbrev pub late_expiry : ℕ → TransitionInput
late_expiry id = record {
  booking_id = id;
  to = BookingStatus.expired;
  actor = system_actor;
  reason = "hold.expired.payment_arrived_late";
  expected_from = some (pending_payment ∷ []);
  patch = no_patch;
}

-- `booking.status === 'PENDING_PAYMENT' && !lapsed`
abbrev pub is_confirmable : ℕ → Booking → Bool
is_confirmable now b = is_status b.status pending_payment && not (is_due b.expires_at now)

unfoldable pub confirm : ℕ → Booking → Tx (Option RefundInstruction)
confirm now b = do
  snapshot ← resolve_policy_snapshot now b.venue_id
  transition now (confirmation b.id snapshot)
  pure none

unfoldable pub expire_late : ℕ → Booking → Tx (Unit {0})
expire_late now b =
    if is_status b.status pending_payment
    then (do transition now (late_expiry b.id); pure tt)
    else pure tt

-- The branch of a booking that cannot be confirmed: the money goes back.
unfoldable pub return_money : ℕ → Payment → ℕ → Booking → Tx (Option RefundInstruction)
unfolding expire_late record_refund_key
return_money now payment charge_id b = do
  expire_late now b
  record_refund_key now payment.id (refund_key charge_id)
  note system_actor "refund.initiated.unconfirmable_hold" b
  pure (
      some (record {
        payment_id = payment.id;
        charge_id = charge_id;
        booking_id = b.id;
        amount_minor = payment.amount_minor;
        idempotency_key = refund_key charge_id;
      }))

-- `onChargeSucceeded`
unfoldable pub on_charge_succeeded : ℕ → Payment → ℕ → Tx (Option RefundInstruction)
unfolding confirm return_money lock_for_update
on_charge_succeeded now payment charge_id = do
  update_payments (with_id payment.id) (λ r. record r {
    status = PaymentStatus.succeeded;
    charge_id = some charge_id;
    updated_at = now;
  })
  booking ← lock_for_update payment.booking_id
  if is_confirmable now booking
      then confirm now booking
      else return_money now payment charge_id booking

abbrev pub failure_of : ℕ → TransitionInput
failure_of id = record {
  booking_id = id;
  to = BookingStatus.failed;
  actor = paygate_actor;
  reason = "payment.declined";
  expected_from = some (pending_payment ∷ []);
  patch = no_patch;
}

unfoldable pub fail_booking : ℕ → Option Booking → Tx (Unit {0})
fail_booking now none = pure tt
fail_booking now (some b) =
    if is_status b.status pending_payment
    then (do transition now (failure_of b.id); pure tt)
    else pure tt

-- `onChargeFailed`
unfoldable pub on_charge_failed : ℕ → Payment → Tx (Unit {0})
unfolding fail_booking
on_charge_failed now payment = do
  update_payments (with_id payment.id) (λ r. record r {
    status = PaymentStatus.failed;
    failure_reason = some "provider_declined";
    updated_at = now;
  })
  λ db. fail_booking now (find_first (has_id payment.booking_id) db.bookings) db

abbrev pub settled_refund : ℕ → TransitionInput
settled_refund id = record {
  booking_id = id;
  to = BookingStatus.refunded;
  actor = paygate_actor;
  reason = "refund.settled";
  expected_from = some (cancelled ∷ []);
  patch = no_patch;
}

unfoldable pub refund_booking : ℕ → Option Booking → Tx (Unit {0})
refund_booking now none = pure tt
refund_booking now (some b) =
    if is_status b.status cancelled
    then (do transition now (settled_refund b.id); pure tt)
    else note paygate_actor "refund.settled.terminal_booking" b

-- `typeof amountMinor === 'number' ? … : payment.amountMinor`, and `refundId ?? payment.refundId`
abbrev pub given {ℓ} : {A : Type ℓ} → Option A → A → A
given none old = old
given (some new) old = new

abbrev pub or_old : Option ℕ → Option ℕ → Option ℕ
or_old none old = old
or_old (some new) old = some new

-- `onRefundSucceeded`
unfoldable pub on_refund_succeeded : ℕ → Payment → Option ℕ → Option ℕ → Tx (Unit {0})
unfolding refund_booking
on_refund_succeeded now payment refund_id amount_minor = do
  update_payments (with_id payment.id) (λ r. record r {
    status = PaymentStatus.refunded;
    refund_id = or_old refund_id payment.refund_id;
    refunded_minor = given amount_minor payment.amount_minor;
    updated_at = now;
  })
  λ db. refund_booking now (find_first (has_id payment.booking_id) db.bookings) db
