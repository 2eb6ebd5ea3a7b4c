-- ===== src/Payments/Settled.antt =====
-- The payment of a hold, the money of a cancellation and the polling of what no webhook settled
-- keep the laws of the table `bookings`.
use project_atrium.Base.{ℕ, Option, none, some, find_first, arith}
use project_atrium.Store.Status.{WebhookEvent, charge_succeeded, charge_failed, refund_succeeded}
use project_atrium.Store.Tables.{AuthPrincipal, Booking, Payment, IdempotencyKey, charge_key}
use project_atrium.Store.Transaction.{Result, ok, err}
use project_atrium.Refunds.Policy.{PolicySnapshot, RefundBreakdown, compute_refund, parse_snapshot}
use project_atrium.Bookings.StateMachine.{has_id}
use project_atrium.Bookings.Keeps.{Keeps, Keeps-pure, Keeps-if, Keeps-bind, Keeps-transaction}
use project_atrium.Bookings.Sound.{Keeps-select_scoped}
use project_atrium.Payments.Rows.{
  find_captured_payment, find_payment_by_key, load_owned, payment_scope_of,
}
use project_atrium.Payments.Effects.{RefundInstruction}
use project_atrium.Payments.Pay.{
  insert_payment, recorded_payment, check_payable, initiate, prepare_charge, replay_or_prepare,
  prepare_payment, record_charge,
}
use project_atrium.Payments.Settlement.{
  has_refund, refund_for, cancel_with, cancel_captured, cancel_found, settle_cancellation,
  settle_refund, ProviderState, settle_outcome, poll_charge, poll_refund, refund_input_of,
}
use project_atrium.Payments.Sound.{
  Keeps-aside, Keeps-read, Keeps-option, keeps_rules, Keeps-on_charge_succeeded,
  Keeps-on_charge_failed, Keeps-on_refund_succeeded,
}
use project_atrium.Payments.Delivered.{Keeps-claim}

Keeps-refund_for :
    (now id : ℕ) (b : Booking) (payment : Payment) (charge_id : ℕ) (r : Option RefundBreakdown)
    → Keeps (refund_for now id b payment charge_id r)
unfolding refund_for
Keeps-refund_for now id b payment charge_id none = search keeps_rules
Keeps-refund_for now id b payment charge_id (some r) = search keeps_rules

Keeps-cancel_with :
    (now id : ℕ) (b : Booking) (payment : Payment) (charge_id : ℕ)
    (snapshot : Option PolicySnapshot)
    → Keeps (cancel_with now id b payment charge_id snapshot)
unfolding cancel_with
Keeps-cancel_with now id b payment charge_id none = search keeps_rules
Keeps-cancel_with now id b payment charge_id (some snapshot) =
    Keeps-read
      (λ db.
        refund_for now id b payment charge_id (compute_refund (refund_input_of now b snapshot db)))
      (λ db.
        Keeps-refund_for now id b payment charge_id
          (compute_refund (refund_input_of now b snapshot db)))

Keeps-cancel_captured :
    (now id : ℕ) (b : Booking) (r : Option Payment) → Keeps (cancel_captured now id b r)
unfolding cancel_captured
Keeps-cancel_captured now id b none = search keeps_rules
Keeps-cancel_captured now id b (some payment) =
    Keeps-option payment.charge_id _ _ (Keeps-pure _) λ charge_id.
      Keeps-if (has_refund payment) _ _ (Keeps-pure _)
        (Keeps-cancel_with now id b payment charge_id (parse_snapshot b.policy_snapshot))

Keeps-cancel_found : (now id : ℕ) (b : Option Booking) → Keeps (cancel_found now id b)
unfolding cancel_found
Keeps-cancel_found now id none = search keeps_rules
Keeps-cancel_found now id (some b) =
    Keeps-read (λ db. cancel_captured now id b (find_captured_payment id db))
      (λ db. Keeps-cancel_captured now id b (find_captured_payment id db))

-- The money of a cancellation.
pub Keeps-settle_cancellation : (now id : ℕ) → Keeps (settle_cancellation now id)
unfolding settle_cancellation
Keeps-settle_cancellation now id = Keeps-transaction _ (
    Keeps-read (λ db. cancel_found now id (find_first (has_id id) db.bookings))
      (λ db. Keeps-cancel_found now id (find_first (has_id id) db.bookings)))

-- The provider's answer to a refund.
pub Keeps-settle_refund :
    (now : ℕ) (i : RefundInstruction) (answer : Result ℕ) → Keeps (settle_refund now i answer)
unfolding settle_refund
Keeps-settle_refund now i (ok refund_id) = search keeps_rules
Keeps-settle_refund now i (err e) = search keeps_rules

ruleset poll_rules = (
  keeps_rules, Keeps-transaction, Keeps-claim, Keeps-on_charge_succeeded, Keeps-on_charge_failed,
  Keeps-on_refund_succeeded,
)

Keeps-settle_outcome :
    (now : ℕ) (payment : Payment) (charge_id : ℕ) (event : WebhookEvent)
    → Keeps (settle_outcome now payment charge_id event)
unfolding settle_outcome
Keeps-settle_outcome now payment charge_id charge_succeeded = search poll_rules
Keeps-settle_outcome now payment charge_id charge_failed = search poll_rules
Keeps-settle_outcome now payment charge_id refund_succeeded = search poll_rules

-- One polled charge.
pub Keeps-poll_charge :
    (now : ℕ) (payment : Payment) (charge_id : ℕ) (state : ProviderState)
    → Keeps (poll_charge now payment charge_id state)
unfolding poll_charge
Keeps-poll_charge now payment charge_id ProviderState.unknown = search poll_rules
Keeps-poll_charge now payment charge_id ProviderState.processing = search poll_rules
Keeps-poll_charge now payment charge_id ProviderState.succeeded =
    Keeps-settle_outcome now payment charge_id charge_succeeded
Keeps-poll_charge now payment charge_id ProviderState.failed =
    Keeps-settle_outcome now payment charge_id charge_failed

-- One polled refund.
pub Keeps-poll_refund :
    (now : ℕ) (payment : Payment) (charge_id refund_id amount : ℕ) (state : ProviderState)
    → Keeps (poll_refund now payment charge_id refund_id amount state)
unfolding poll_refund
Keeps-poll_refund now payment charge_id refund_id amount ProviderState.unknown = search poll_rules
Keeps-poll_refund now payment charge_id refund_id amount ProviderState.processing =
    search poll_rules
Keeps-poll_refund now payment charge_id refund_id amount ProviderState.succeeded = search poll_rules
Keeps-poll_refund now payment charge_id refund_id amount ProviderState.failed = search poll_rules

Keeps-insert_payment : (r : Payment) → Keeps (insert_payment r)
unfolding insert_payment
Keeps-insert_payment r = Keeps-aside (insert_payment r) λ db. (ground arith, ground arith)

Keeps-recorded_payment : (k : IdempotencyKey) → Keeps (recorded_payment k)
unfolding recorded_payment
Keeps-recorded_payment k = Keeps-aside (recorded_payment k) λ db. (ground arith, ground arith)

Keeps-load_owned : (id : ℕ) (p : AuthPrincipal) → Keeps (load_owned id p)
unfolding load_owned
Keeps-load_owned id p = Keeps-select_scoped id (ok (payment_scope_of p.role p.venue_id p.user_id))

Keeps-check_payable : (now id : ℕ) (b : Booking) → Keeps (check_payable now id b)
unfolding check_payable
Keeps-check_payable now id b = search keeps_rules

Keeps-initiate : (now id : ℕ) (p : AuthPrincipal) (b : Booking) → Keeps (initiate now id p b)
unfolding initiate
Keeps-initiate now id p b = search keeps_rules

Keeps-prepare_charge :
    (now payment_id id : ℕ) (p : AuthPrincipal) (b : Booking)
    → Keeps (prepare_charge now payment_id id p b)
unfolding prepare_charge
Keeps-prepare_charge now payment_id id p b =
    search (
      keeps_rules, Keeps-check_payable, Keeps-insert_payment, Keeps-recorded_payment,
      Keeps-initiate,
    )

Keeps-replay_or_prepare :
    (now payment_id id : ℕ) (p : AuthPrincipal) (b : Booking) (r : Option Payment)
    → Keeps (replay_or_prepare now payment_id id p b r)
unfolding replay_or_prepare
Keeps-replay_or_prepare now payment_id id p b none = Keeps-prepare_charge now payment_id id p b
Keeps-replay_or_prepare now payment_id id p b (some r) = search (keeps_rules, Keeps-prepare_charge)

-- The transaction that records the payment of a hold.
pub Keeps-prepare_payment :
    (now payment_id id : ℕ) (p : AuthPrincipal) → Keeps (prepare_payment now payment_id id p)
unfolding prepare_payment
Keeps-prepare_payment now payment_id id p = Keeps-transaction _ (
    Keeps-bind _ _ (Keeps-load_owned id p) λ b.
      Keeps-read
        (λ db. replay_or_prepare now payment_id id p b (find_payment_by_key (charge_key id) db))
        (λ db.
          Keeps-replay_or_prepare now payment_id id p b (find_payment_by_key (charge_key id) db)))

-- The charge id that the provider gave.
pub Keeps-record_charge :
    (now payment_id charge_id : ℕ) → Keeps (record_charge now payment_id charge_id)
unfolding record_charge
Keeps-record_charge now payment_id charge_id = search keeps_rules
