-- ===== src/Reconcile/Waived.antt =====
-- A cancellation with nothing to give back: apps/api/src/payments/payments.service.ts against
-- apps/api/src/admin/reconciliation.service.ts.
use project_atrium.Base.{
  ℕ, ◌≡◌, ◌≢◌, none, some, find_first, arith, All-find_first, inl, inr, find_first-holds, ◌==◌,
  ◌&&◌,
}
use project_atrium.Store.Status.{cancelled, PaymentStatus, is_payment, BookingStatus}
use project_atrium.Store.Tables.{Booking, Payment, Database}
use project_atrium.Store.Transaction.{Result, ok}
use project_atrium.Refunds.Policy.{PolicySnapshot, RefundBreakdown, compute_refund, parse_snapshot}
use project_atrium.Bookings.StateMachine.{has_id}
use project_atrium.Payments.Rows.{find_captured_payment}
use project_atrium.Payments.Settlement.{
  Cancelled, refund_input_of, settle_cancellation, settle_refund,
}
use project_atrium.Payments.Once.{keyed, asks_for}
use project_atrium.Reconcile.Checks.{Scope}
use project_atrium.Reconcile.Accounted.{IsOld, IsUsed, IsAccounted}
use project_atrium.Reconcile.Joined.{InWindow}
use project_atrium.Reconcile.Report.{run}
use project_atrium.Reconcile.Clean.{IsReconciled, run-IsReconciled}

cancelled-unused : (t : BookingStatus) → t ≡ cancelled → IsUsed t → ⊥
cancelled-unused t e (inl u) = cc
cancelled-unused t e (inr u) = cc

-- A captured payment of a cancelled booking is out of place once the grace period is over.
captured-ne-reconciled :
    (s : Scope) (later id : ℕ) (db : Database) (b : Booking) (r : Payment)
    → find_first (has_id id) db.bookings ≡ some b
    → find_captured_payment id db ≡ some r
    → b.status ≡ cancelled
    → InWindow s r.created_at
    → IsOld s later r.updated_at
    → IsReconciled s later db
    → ⊥
unfolding find_captured_payment
captured-ne-reconciled s later id db b r booked paid gone w old a =
    let captured =
      find_first-holds
        (λ (q : Payment). q.booking_id == id && is_payment q.status PaymentStatus.succeeded)
        db.payments r paid in
    let joined = All-find_first _ _ db.payments r a.payments_accounted paid w in
    let accounted : IsAccounted s later db.payment_events
        (record { payment = r; booking_status = b.status }) =
      All-find_first _ _ db.bookings b joined booked
        (ground (arith, captured, find_first-holds (has_id id) db.bookings b booked)) in
    cancelled-unused b.status gone (accounted.capture_is_used (ground (arith, captured)) old)

-- A cancellation whose refund comes to nothing leaves a discrepancy for good. Where the charge of
-- a cancelled booking was captured, no refund is open, and the frozen policy grants nothing at
-- that instant, the settlement gives an instruction of 0, the call for the refund returns without
-- a write, and every report whose window holds the payment, once the grace period is over, counts
-- a discrepancy.
pub waived_refund-IsReported :
    (s : Scope) (now later limit id : ℕ) (db : Database) (b : Booking) (r : Payment) (charge_id : ℕ)
    (snapshot : PolicySnapshot) (breakdown : RefundBreakdown) (answer : Result ℕ)
    → find_first (has_id id) db.bookings ≡ some b
    → find_captured_payment id db ≡ some r
    → r.charge_id ≡ some charge_id
    → r.refund_idempotency_key ≡ none
    → parse_snapshot b.policy_snapshot ≡ some snapshot
    → compute_refund (refund_input_of now b snapshot db) ≡ some breakdown
    → breakdown.total_refund_minor ≡ 0
    → b.status ≡ cancelled
    → InWindow s r.created_at
    → IsOld s later now
    → let after = (settle_cancellation now id db).1 in
      (c : Cancelled) × ((settle_cancellation now id db).0 ≡ ok (some c))
      × (c.instruction.amount_minor ≡ 0)
      × (settle_refund later c.instruction answer after ≡ (ok tt, after))
      × ((run s later limit after).discrepancy_count ≢ 0)
unfolding settle_refund
waived_refund-IsReported s now later limit id db b r charge_id snapshot breakdown answer booked paid
      charged open_refund frozen computed waived gone w old =
    let (given, row, payment) =
      asks_for now id db b r charge_id snapshot breakdown booked paid charged open_refund frozen
        computed in
    let after = (settle_cancellation now id db).1 in
    (
      _,
      given,
      waived,
      ground (arith, waived),
      λ clean.
          captured-ne-reconciled s later id after b (keyed now charge_id r) row payment gone w old
            ((run-IsReconciled s later limit after).0 clean),
    )
