-- ===== src/Payments/Delivered.antt =====
-- The worker's transaction, the polling of charges and refunds, the payment of a hold and the
-- money of a cancellation keep the laws of the table `bookings`.
use project_atrium.Base.{ℕ, refl, Bool, true, false, Option, none, some, is_some, find_first, arith}
use Prim.Native.String.{String}
use project_atrium.Store.Status.{WebhookEvent, charge_succeeded, charge_failed, refund_succeeded}
use project_atrium.Store.Tables.{
  Payment, Delivery, WebhookBody, EventName, missing, unsupported, supported,
}
use project_atrium.Bookings.Keeps.{Keeps, Keeps-pure, Keeps-if, Keeps-bind, Keeps-transaction}
use project_atrium.Payments.Rows.{find_payment_by_charge_id}
use project_atrium.Payments.Webhook.{
  record_delivery, ingest, ingest_signed, finish_delivery, mark_unknown, adopt_row,
  adopt_charge_by_reference, find_or_adopt, claim, apply_event, apply_to_payment, apply_supported,
  apply_named, apply_body, apply_found, apply_delivery, is_delivery,
}
use project_atrium.Payments.Sound.{
  Keeps-aside, Keeps-read, Keeps-option, keeps_rules, Keeps-on_charge_succeeded,
  Keeps-on_charge_failed, Keeps-on_refund_succeeded,
}

Keeps-record_delivery : (d : Delivery) → Keeps (record_delivery d)
unfolding record_delivery
Keeps-record_delivery d = Keeps-aside (record_delivery d) λ db. (ground arith, ground arith)

Keeps-finish_delivery :
    (now row : ℕ) (error : Option String) → Keeps (finish_delivery now row error)
unfolding finish_delivery
Keeps-finish_delivery now row error = Keeps-aside (finish_delivery now row error) λ db. (refl, refl)

Keeps-mark_unknown : (row : ℕ) → Keeps (mark_unknown row)
unfolding mark_unknown
Keeps-mark_unknown row = Keeps-aside (mark_unknown row) λ db. (refl, refl)

pub Keeps-claim :
    (charge_id : ℕ) (event : WebhookEvent) (occurred_at : ℕ)
    → Keeps (claim charge_id event occurred_at)
unfolding claim
Keeps-claim charge_id event occurred_at =
    Keeps-aside (claim charge_id event occurred_at) λ db. (ground arith, ground arith)

ruleset webhook_rules = (
  keeps_rules, Keeps-record_delivery, Keeps-finish_delivery, Keeps-mark_unknown, Keeps-claim,
  Keeps-on_charge_succeeded, Keeps-on_charge_failed, Keeps-on_refund_succeeded,
)

Keeps-ingest_signed :
    (now row delivery_id : ℕ) (body : Option WebhookBody)
    → Keeps (ingest_signed now row delivery_id body)
unfolding ingest_signed
Keeps-ingest_signed now row delivery_id none = search webhook_rules
Keeps-ingest_signed now row delivery_id (some body) = search webhook_rules

-- The webhook's request handler keeps them.
pub Keeps-ingest :
    (known : Bool) (now row delivery_id : ℕ) (valid : Bool) (body : Option WebhookBody)
    → Keeps (ingest known now row delivery_id valid body)
unfolding ingest
Keeps-ingest false now row delivery_id valid body = search webhook_rules
Keeps-ingest true now row delivery_id false body = search webhook_rules
Keeps-ingest true now row delivery_id true body = Keeps-ingest_signed now row delivery_id body

Keeps-adopt_row : (now charge_id : ℕ) (r : Option Payment) → Keeps (adopt_row now charge_id r)
unfolding adopt_row
Keeps-adopt_row now charge_id none = search webhook_rules
Keeps-adopt_row now charge_id (some r) =
    Keeps-option r.charge_id _ _ (search webhook_rules) (λ c. search webhook_rules)

Keeps-adopt_by_reference :
    (now reference charge_id : ℕ) → Keeps (adopt_charge_by_reference now reference charge_id)
unfolding adopt_charge_by_reference
Keeps-adopt_by_reference now reference charge_id =
    Keeps-read _ λ db. Keeps-adopt_row now charge_id _

Keeps-find_or_adopt :
    (now charge_id : ℕ) (reference : Option ℕ) (r : Option Payment)
    → Keeps (find_or_adopt now charge_id reference r)
unfolding find_or_adopt
Keeps-find_or_adopt now charge_id reference (some r) = search webhook_rules
Keeps-find_or_adopt now charge_id none none = search webhook_rules
Keeps-find_or_adopt now charge_id (some reference) none =
    Keeps-adopt_by_reference now reference charge_id

Keeps-apply_event :
    (now : ℕ) (event : WebhookEvent) (payment : Payment) (charge_id : ℕ) (body : WebhookBody)
    → Keeps (apply_event now event payment charge_id body)
unfolding apply_event
Keeps-apply_event now charge_succeeded payment charge_id body = search webhook_rules
Keeps-apply_event now charge_failed payment charge_id body = search webhook_rules
Keeps-apply_event now refund_succeeded payment charge_id body = search webhook_rules

Keeps-apply_to_payment :
    (now row : ℕ) (event : WebhookEvent) (charge_id : ℕ) (body : WebhookBody) (r : Option Payment)
    → Keeps (apply_to_payment now row event charge_id body r)
unfolding apply_to_payment
Keeps-apply_to_payment now row event charge_id body none = search webhook_rules
Keeps-apply_to_payment now row event charge_id body (some payment) =
    search (webhook_rules, Keeps-apply_event)

Keeps-apply_supported :
    (now row : ℕ) (event : WebhookEvent) (charge_id : ℕ) (body : WebhookBody)
    → Keeps (apply_supported now row event charge_id body)
unfolding apply_supported
Keeps-apply_supported now row event charge_id body =
    Keeps-bind _ _
      (Keeps-read
        (λ db. find_or_adopt now charge_id body.reference (find_payment_by_charge_id charge_id db))
        (λ db.
          Keeps-find_or_adopt now charge_id body.reference
            (find_payment_by_charge_id charge_id db)))
      (λ r. Keeps-apply_to_payment now row event charge_id body r)

Keeps-apply_named :
    (now row : ℕ) (body : WebhookBody) (charge_id : Option ℕ) (name : EventName)
    → Keeps (apply_named now row body charge_id name)
unfolding apply_named
Keeps-apply_named now row body (some charge_id) (supported event) =
    Keeps-apply_supported now row event charge_id body
Keeps-apply_named now row body (some charge_id) missing = search webhook_rules
Keeps-apply_named now row body (some charge_id) unsupported = search webhook_rules
Keeps-apply_named now row body none name = search webhook_rules

Keeps-apply_body : (now row : ℕ) (body : Option WebhookBody) → Keeps (apply_body now row body)
unfolding apply_body
Keeps-apply_body now row none = search webhook_rules
Keeps-apply_body now row (some body) = Keeps-apply_named now row body body.charge_id body.event

Keeps-apply_found : (now row : ℕ) (d : Option Delivery) → Keeps (apply_found now row d)
unfolding apply_found
Keeps-apply_found now row none = search webhook_rules
Keeps-apply_found now row (some d) =
    Keeps-if (is_some d.processed_at) _ _ (Keeps-pure _) (Keeps-apply_body now row d.body)

-- So does the worker's transaction, whatever the delivery says and whenever it is run.
pub Keeps-apply_delivery : (now row : ℕ) → Keeps (apply_delivery now row)
unfolding apply_delivery
Keeps-apply_delivery now row = Keeps-transaction _ (
    Keeps-read (λ db. apply_found now row (find_first (is_delivery row) db.deliveries))
      (λ db. Keeps-apply_found now row (find_first (is_delivery row) db.deliveries)))
