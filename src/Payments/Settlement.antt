-- ===== src/Payments/Settlement.antt =====
-- apps/api/src/payments/payments.service.ts: the money of a cancellation, the call of the
-- provider for a refund, and the polling of charges and refunds that no webhook settled.
--
-- What the provider answers is an argument. The polled rows are taken one at a time; a poll of
-- one row runs its own transaction, as in the source.
use project_atrium.Base.{
  ℕ, ◌-◌, ◌*◌, Bool, true, false, not, ◌&&◌, Option, none, some, leb, ltb, ◌==◌, if◌then◌else◌,
  find_first, filter_by, is_some,
}
use Prim.Native.String.{String}
use project_atrium.Store.Status.{
  PaymentStatus, is_payment, WebhookEvent, charge_succeeded, charge_failed, refund_succeeded,
}
use project_atrium.Store.Tables.{Booking, Payment, refund_key, Database, system_actor}
use project_atrium.Store.Transaction.{
  Failure, Result, ok, err, Tx, pure, throw, ◌>>=◌, ◌>>◌, transaction,
}
use project_atrium.Refunds.Policy.{
  LineItem, PolicySnapshot, RefundBreakdown, RefundInput, parse_snapshot, compute_refund,
  split_totals,
}
use project_atrium.Bookings.StateMachine.{has_id}
use project_atrium.Payments.Rows.{with_id, find_captured_payment, update_payments}
use project_atrium.Payments.Effects.{
  RefundInstruction, record_refund_key, note, on_charge_succeeded, on_charge_failed,
  on_refund_succeeded,
}
use project_atrium.Payments.Webhook.{claim}

-- `splitTotals` of the booking, over its line items.
unfoldable pub shares_of : Booking → Database → ℕ × ℕ
shares_of b db =
    split_totals b.total_minor b.starts_at b.ends_at
      (filter_by (λ (li : LineItem). li.booking_id == b.id) db.line_items)

-- What `computeRefund` is given.
unfoldable pub refund_input_of : ℕ → Booking → PolicySnapshot → Database → RefundInput
unfolding shares_of
refund_input_of now b snapshot db =
    let (room_minor, equipment_minor) = shares_of b db in
    record {
      room_minor = room_minor;
      equipment_minor = equipment_minor;
      tiers = snapshot.tiers;
      starts_at = b.starts_at;
      at = now;
    }

-- The instruction and the breakdown of a cancellation that moves money.
pub record Cancelled : Type 0 where
  pub instruction : RefundInstruction
  pub breakdown : RefundBreakdown

abbrev pub has_refund : Payment → Bool
has_refund r =
    if is_payment r.status PaymentStatus.refunded then true else is_some r.refund_idempotency_key

unfoldable pub refund_for :
    ℕ → ℕ → Booking → Payment → ℕ → Option RefundBreakdown → Tx (Option Cancelled)
refund_for now id b payment charge_id none = throw Failure.thrown
refund_for now id b payment charge_id (some breakdown) = do
  record_refund_key now payment.id (refund_key charge_id)
  note system_actor "refund.initiated.cancellation" b
  pure (
      some (record {
        instruction = record {
          payment_id = payment.id;
          charge_id = charge_id;
          booking_id = id;
          amount_minor = breakdown.total_refund_minor;
          idempotency_key = refund_key charge_id;
        };
        breakdown = breakdown;
      }))

-- Behind the lookup of the snapshot.
unfoldable pub cancel_with :
    ℕ → ℕ → Booking → Payment → ℕ → Option PolicySnapshot → Tx (Option Cancelled)
unfolding refund_for refund_input_of
cancel_with now id b payment charge_id none = pure none
cancel_with now id b payment charge_id (some snapshot) = λ db.
    refund_for now id b payment charge_id (compute_refund (refund_input_of now b snapshot db)) db

-- Behind the lookup of the captured payment and its charge.
unfoldable pub cancel_captured : ℕ → ℕ → Booking → Option Payment → Tx (Option Cancelled)
unfolding cancel_with
cancel_captured now id b none = pure none
cancel_captured now id b (some payment) = elim payment.charge_id [
  | none ↦ pure none
  | some charge_id ↦
      if has_refund payment
      then pure none
      else cancel_with now id b payment charge_id (parse_snapshot b.policy_snapshot)
]

unfoldable pub cancel_found : ℕ → ℕ → Option Booking → Tx (Option Cancelled)
unfolding cancel_captured
cancel_found now id none = pure none
cancel_found now id (some b) = λ db. cancel_captured now id b (find_captured_payment id db) db

-- The transaction of `settleCancellation`.
unfoldable pub settle_cancellation : ℕ → ℕ → Tx (Option Cancelled)
unfolding cancel_found
settle_cancellation now id =
    transaction (λ db. cancel_found now id (find_first (has_id id) db.bookings) db)

-- `settleRefund`, behind the provider's answer: a refund id, or an exception.
unfoldable pub settle_refund : ℕ → RefundInstruction → Result ℕ → Tx (Unit {0})
settle_refund now i answer = if leb i.amount_minor 0 then pure tt else (elim answer [
  | ok refund_id ↦
      update_payments (λ (r : Payment). with_id i.payment_id r && not (is_some r.refund_id))
        (λ r. record r { refund_id = some refund_id; updated_at = now })
  | err e ↦
      update_payments (with_id i.payment_id)
        (λ r. record r { failure_reason = some "refund rejected"; updated_at = now })
])

-- The state of a charge or a refund as the provider reports it; `unknown` is its null.
pub data ProviderState : Type 0 where
  unknown processing succeeded failed : ProviderState

-- The rows that `settleAcceptedCharges` polls.
unfoldable pub is_stale_charge : ℕ → ℕ → Payment → Bool
is_stale_charge now older_than_seconds r =
    is_payment r.status PaymentStatus.pending
    && (is_some r.charge_id && ltb r.created_at (now - older_than_seconds * 1000))

-- Did the poll apply an effect, and what is left to do?
pub record Polled : Type 0 where
  pub applied : Bool
  pub instruction : Option RefundInstruction

abbrev pub not_applied : Polled
not_applied = record { applied = false; instruction = none }

unfoldable pub settle_outcome : ℕ → Payment → ℕ → WebhookEvent → Tx Polled
settle_outcome now payment charge_id event = transaction (do
  claimed ← claim charge_id event now
  if claimed
      then (elim event [
        | charge_failed ↦ (do
          on_charge_failed now payment
          pure (record { applied = true; instruction = none }))
        | _ ↦ (do
          instruction ← on_charge_succeeded now payment charge_id
          pure (record { applied = true; instruction = instruction }))
      ])
      else pure not_applied)

-- The text that marks a charge the provider does not know.
abbrev pub unknown_charge : String
unknown_charge =
    "provider does not recognise this charge id. It was issued by the provider, so this is unexplained rather than absent — reconciliation reports it as charge_accepted_not_settled."

-- The loop body of `settleAcceptedCharges`, behind the provider's answer.
unfoldable pub poll_charge : ℕ → Payment → ℕ → ProviderState → Tx Polled
unfolding settle_outcome
poll_charge now payment charge_id ProviderState.unknown = do
  update_payments (with_id payment.id)
      (λ r. record r { failure_reason = some unknown_charge; updated_at = now })
  pure not_applied
poll_charge now payment charge_id ProviderState.processing = pure not_applied
poll_charge now payment charge_id ProviderState.succeeded =
    settle_outcome now payment charge_id charge_succeeded
poll_charge now payment charge_id ProviderState.failed =
    settle_outcome now payment charge_id charge_failed

-- The loop body of `settleAcceptedRefunds`, behind the provider's answer: was an effect applied?
unfoldable pub poll_refund : ℕ → Payment → ℕ → ℕ → ℕ → ProviderState → Tx Bool
poll_refund now payment charge_id refund_id amount ProviderState.succeeded = transaction (do
  claimed ← claim charge_id refund_succeeded now
  if claimed
      then (do on_refund_succeeded now payment (some refund_id) (some amount); pure true)
      else pure false)
poll_refund now payment charge_id refund_id amount _ = pure false
