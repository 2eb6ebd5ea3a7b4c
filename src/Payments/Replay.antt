-- ===== src/Payments/Replay.antt =====
-- At-least-once delivery: an effect that was claimed is not applied again (INV-3).
use project_atrium.Base.{◌≢◌, ℕ, ◌≡◌, true, none, some, any_of, find_first, update_where, arith}
use project_atrium.Store.Status.{PaymentStatus, WebhookEvent}
use project_atrium.Store.Tables.{
  AuthPrincipal, Booking, charge_key, Payment, Database, Delivery, WebhookBody, supported,
}
use project_atrium.Store.Transaction.{ok, transaction}
use project_atrium.Payments.Rows.{load_owned, find_payment_by_key, find_payment_by_charge_id}
use project_atrium.Payments.Pay.{ChargeCall, prepare_payment, replay_or_prepare, pay}
use project_atrium.Payments.Webhook.{
  is_delivery, is_claim, finish_delivery, claim, find_or_adopt, apply_to_payment, apply_supported,
  apply_named, apply_body, apply_found, apply_delivery,
}

-- A delivery of an event that was claimed for its charge leaves a mark on its own row, and on
-- nothing else.
abbrev pub after_duplicate : ℕ → ℕ → Database → Database
after_duplicate now row db = record db {
  deliveries =
      update_where (is_delivery row)
        (λ d. record d { processed_at = some now; error = some "duplicate_effect" }) db.deliveries;
}

-- A delivery, not processed before, of an event that has already been applied to a known charge
-- has no effect: no booking, payment, audit row or claim is written and no refund is asked for.
-- Only the row of the delivery is marked as processed.
pub apply_delivery-duplicate :
    (now row charge_id : ℕ) (event : WebhookEvent) (db : Database) (d : Delivery)
    (body : WebhookBody) (payment : Payment)
    → find_first (is_delivery row) db.deliveries ≡ some d
    → d.processed_at ≡ none
    → d.body ≡ some body
    → body.charge_id ≡ some charge_id
    → body.event ≡ supported event
    → find_payment_by_charge_id charge_id db ≡ some payment
    → any_of (is_claim charge_id event) db.payment_events ≡ true
    → apply_delivery now row db ≡ (ok none, after_duplicate now row db)
unfolding apply_delivery transaction apply_found apply_body apply_named apply_supported
    find_or_adopt apply_to_payment claim finish_delivery
apply_delivery-duplicate now row charge_id event db d body payment found fresh parsed charge named
      known claimed =
    ground arith

-- A payment is made once: paying for a booking whose payment has left PENDING answers with that
-- payment, whatever the provider would say, and writes nothing.
pay_settled :
    (now payment_id id : ℕ) (p : AuthPrincipal) (charge : ChargeCall) (db : Database) (b : Booking)
    (r : Payment)
    → load_owned id p db ≡ (ok b, db)
    → find_payment_by_key (charge_key id) db ≡ some r
    → r.status ≢ PaymentStatus.pending
    → pay now payment_id id p charge db ≡ (ok r, db)
unfolding pay prepare_payment transaction replay_or_prepare
pay_settled now payment_id id p charge db b r loaded found settled =
    ground (arith, loaded, found, settled)
