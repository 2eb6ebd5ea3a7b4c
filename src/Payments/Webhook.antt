-- ===== src/Payments/Webhook.antt =====
-- apps/api/src/payments/payments.service.ts: the inbound webhook, `ingest`, and the worker's
-- transaction, `applyInTransaction`.
--
-- Whether a signature verifies (an HMAC of node:crypto) and what JSON.parse returns are arguments:
-- a body of `none` does not parse.
use project_atrium.Base.{
  ℕ, Bool, true, false, not, ◌&&◌, Option, none, some, ◌∷◌, ◌==◌, if◌then◌else◌, find_first,
  update_where, any_of, is_some,
}
use Prim.Native.String.{String}
use project_atrium.Store.Status.{
  WebhookEvent, charge_succeeded, charge_failed, refund_succeeded, is_event,
}
use project_atrium.Store.Tables.{
  Payment, PaymentEvent, Delivery, EventName, unsupported, supported, WebhookBody, charge_key,
}
use project_atrium.Store.Transaction.{Failure, ok, Tx, pure, throw, ◌>>=◌, ◌>>◌, transaction}
use project_atrium.Payments.Rows.{with_id, with_key, find_payment_by_charge_id, update_payments}
use project_atrium.Payments.Effects.{
  RefundInstruction, given, on_charge_succeeded, on_charge_failed, on_refund_succeeded,
}

abbrev pub has_delivery_id : ℕ → Delivery → Bool
has_delivery_id id d = d.delivery_id == id

abbrev pub is_delivery : ℕ → Delivery → Bool
is_delivery row d = d.id == row

-- `recordDelivery`: `INSERT … ON CONFLICT (delivery_id) DO NOTHING RETURNING id`.
unfoldable pub record_delivery : Delivery → Tx (Option ℕ)
record_delivery d db =
    if any_of (has_delivery_id d.delivery_id) db.deliveries
    then (ok none, db)
    else (ok (some d.id), record db { deliveries = d ∷ db.deliveries })

pub data IngestStatus : Type 0 where
  accepted duplicate : IngestStatus

-- The row of the recorded delivery, if it is to be applied, and the status.
pub record Ingested : Type 0 where
  pub delivery_row : Option ℕ
  pub status : IngestStatus

abbrev pub is_unsupported : EventName → Bool
is_unsupported unsupported = true
is_unsupported _ = false

-- `row === null` is a repeated delivery id.
abbrev pub ingested : Option ℕ → Ingested
ingested none = record { delivery_row = none; status = duplicate }
ingested (some row) = record { delivery_row = some row; status = accepted }

abbrev pub delivery_of : ℕ → ℕ → ℕ → Option WebhookBody → Bool → Option String → Option ℕ → Delivery
delivery_of now row delivery_id body valid error processed_at = record {
  id = row;
  delivery_id = delivery_id;
  body = body;
  signature_valid = valid;
  error = error;
  received_at = now;
  processed_at = processed_at;
}

-- A signed body, behind the parse.
unfoldable pub ingest_signed : ℕ → ℕ → ℕ → Option WebhookBody → Tx Ingested
unfolding record_delivery
ingest_signed now row delivery_id none = do
  record_delivery (delivery_of now row delivery_id none true (some "unparseable_body") (some now))
  pure (record { delivery_row = none; status = accepted })
ingest_signed now row delivery_id (some body) = do
  recorded ← record_delivery (
      if is_unsupported body.event
      then delivery_of now row delivery_id (some body) true (some "unsupported_event") (some now)
      else delivery_of now row delivery_id (some body) true none none)
  pure (ingested recorded)

-- `ingest`. It runs in no transaction: the row of a refused delivery stays.
unfoldable pub ingest : Bool → ℕ → ℕ → ℕ → Bool → Option WebhookBody → Tx Ingested
unfolding ingest_signed
ingest false now row delivery_id valid body = throw Failure.unavailable
ingest true now row delivery_id false body = do
  record_delivery (delivery_of now row delivery_id body false (some "invalid_signature") (some now))
  throw Failure.unauthorized
ingest true now row delivery_id true body = ingest_signed now row delivery_id body

-- `finishDelivery`
unfoldable pub finish_delivery : ℕ → ℕ → Option String → Tx (Unit {0})
finish_delivery now row error db = (
  ok tt,
  record db {
    deliveries =
        update_where (is_delivery row) (λ d. record d { processed_at = some now; error = error })
          db.deliveries;
  },
)

-- The update of a delivery whose charge is not known: it stays unprocessed.
unfoldable pub mark_unknown : ℕ → Tx (Unit {0})
mark_unknown row db = (
  ok tt,
  record db {
    deliveries =
        update_where (is_delivery row) (λ d. record d { error = some "unknown_charge" })
          db.deliveries;
  },
)

-- `adoptChargeByReference`
unfoldable pub adopt_row : ℕ → ℕ → Option Payment → Tx (Option Payment)
adopt_row now charge_id none = pure none
adopt_row now charge_id (some r) = elim r.charge_id [
  | none ↦ do
    update_payments (λ (q : Payment). with_id r.id q && not (is_some q.charge_id))
        (λ q. record q { charge_id = some charge_id; updated_at = now })
    pure (some (record r { charge_id = some charge_id; updated_at = now }))
  | some c ↦ pure (if c == charge_id then some r else none)
]

unfoldable pub adopt_charge_by_reference : ℕ → ℕ → ℕ → Tx (Option Payment)
unfolding adopt_row
adopt_charge_by_reference now reference charge_id db =
    adopt_row now charge_id
      (find_first (λ (r : Payment). r.booking_id == reference && with_key (charge_key reference) r)
        db.payments)
      db

-- `charge_id` first, `reference` second.
unfoldable pub find_or_adopt : ℕ → ℕ → Option ℕ → Option Payment → Tx (Option Payment)
unfolding adopt_charge_by_reference
find_or_adopt now charge_id reference (some r) = pure (some r)
find_or_adopt now charge_id none none = pure none
find_or_adopt now charge_id (some reference) none =
    adopt_charge_by_reference now reference charge_id

abbrev pub is_claim : ℕ → WebhookEvent → PaymentEvent → Bool
is_claim charge_id event e = e.charge_id == charge_id && is_event e.event event

-- `INSERT INTO payment_events … ON CONFLICT (charge_id, event) DO NOTHING RETURNING id`: did this
-- insert win?
unfoldable pub claim : ℕ → WebhookEvent → ℕ → Tx Bool
claim charge_id event occurred_at db =
    if any_of (is_claim charge_id event) db.payment_events then (ok false, db) else (
      ok true,
      record db {
        payment_events =
            record { charge_id = charge_id; event = event; occurred_at = occurred_at }
            ∷ db.payment_events;
      },
    )

-- The `switch` on the event.
unfoldable pub apply_event :
    ℕ → WebhookEvent → Payment → ℕ → WebhookBody → Tx (Option RefundInstruction)
apply_event now charge_succeeded payment charge_id body = on_charge_succeeded now payment charge_id
apply_event now charge_failed payment charge_id body = do on_charge_failed now payment; pure none
apply_event now refund_succeeded payment charge_id body = do
  on_refund_succeeded now payment body.refund_id body.amount_minor
  pure none

-- Behind the lookup of the payment.
unfoldable pub apply_to_payment :
    ℕ → ℕ → WebhookEvent → ℕ → WebhookBody → Option Payment → Tx (Option RefundInstruction)
unfolding mark_unknown claim finish_delivery apply_event
apply_to_payment now row event charge_id body none = do mark_unknown row; pure none
apply_to_payment now row event charge_id body (some payment) = do
  claimed ← claim charge_id event (given body.occurred_at now)
  if claimed
      then (do
        instruction ← apply_event now event payment charge_id body
        finish_delivery now row none
        pure instruction)
      else (do finish_delivery now row (some "duplicate_effect"); pure none)

unfoldable pub apply_supported :
    ℕ → ℕ → WebhookEvent → ℕ → WebhookBody → Tx (Option RefundInstruction)
unfolding find_payment_by_charge_id find_or_adopt apply_to_payment
apply_supported now row event charge_id body = do
  payment ←
      (λ db. find_or_adopt now charge_id body.reference (find_payment_by_charge_id charge_id db) db)
  apply_to_payment now row event charge_id body payment

-- The tests on the charge and the event.
unfoldable pub apply_named :
    ℕ → ℕ → WebhookBody → Option ℕ → EventName → Tx (Option RefundInstruction)
unfolding apply_supported finish_delivery
apply_named now row body (some charge_id) (supported event) =
    apply_supported now row event charge_id body
apply_named now row body _ _ = do finish_delivery now row (some "unsupported_event"); pure none

unfoldable pub apply_body : ℕ → ℕ → Option WebhookBody → Tx (Option RefundInstruction)
unfolding apply_named
apply_body now row none = throw Failure.thrown
apply_body now row (some body) = apply_named now row body body.charge_id body.event

unfoldable pub apply_found : ℕ → ℕ → Option Delivery → Tx (Option RefundInstruction)
unfolding apply_body
apply_found now row none = pure none
apply_found now row (some d) =
    if is_some d.processed_at then pure none else apply_body now row d.body

-- `applyInTransaction`, within its transaction.
unfoldable pub apply_delivery : ℕ → ℕ → Tx (Option RefundInstruction)
unfolding apply_found
apply_delivery now row =
    transaction (λ db. apply_found now row (find_first (is_delivery row) db.deliveries) db)
