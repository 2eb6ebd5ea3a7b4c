-- ===== src/Workers/Queue.antt =====
-- apps/api/src/payments/webhook-processor.service.ts: the half of a tick that drains the queue of
-- recorded deliveries.
--
-- What the provider answers to a refund is an argument. The retries of the transaction, the polls
-- behind the queue, the timer and the log are left out.
use project_atrium.Base.{
  ℕ, suc, Bool, true, false, not, ◌&&◌, Option, none, some, is_some, List, [], ◌∷◌, map, take,
  filter_by, leb, if◌then◌else◌,
}
use project_atrium.Store.Tables.{Delivery, Database}
use project_atrium.Store.Transaction.{Result, ok, err}
use project_atrium.Payments.Effects.{RefundInstruction}
use project_atrium.Payments.Webhook.{apply_delivery}
use project_atrium.Payments.Settlement.{settle_refund}

-- `BATCH_SIZE`
abbrev pub drain_size : ℕ
drain_size = 100

-- A signed delivery that was not processed.
unfoldable pub is_waiting : Delivery → Bool
is_waiting d = not (is_some d.processed_at) && d.signature_valid

-- `ORDER BY received_at`
unfoldable pub insert_received : Delivery → List Delivery → List Delivery
insert_received d [] = d ∷ []
insert_received d (e ∷ es) =
    let rest = insert_received d es in
    if leb d.received_at e.received_at then d ∷ e ∷ es else e ∷ rest

unfoldable pub by_received : List Delivery → List Delivery
unfolding insert_received
by_received [] = []
by_received (d ∷ ds) = insert_received d (by_received ds)

-- `elected`
unfoldable pub elected : List Delivery → List ℕ
unfolding is_waiting by_received
elected ds = map (λ (d : Delivery). d.id) (take drain_size (by_received (filter_by is_waiting ds)))

-- `applyDelivery`, behind its transaction.
abbrev pub refunded_by :
    (RefundInstruction → Result ℕ) → ℕ → Option RefundInstruction → Database → Database
refunded_by answers now none db = db
refunded_by answers now (some i) db = (settle_refund now i (answers i) db).1

-- `applyDelivery` in the loop, where what is thrown is caught: was it applied?
unfoldable pub apply_row : (RefundInstruction → Result ℕ) → ℕ → ℕ → Database → Bool × Database
unfolding apply_delivery
apply_row answers now row db =
    let (r, after) = apply_delivery now row db in
    elim r [ ok i ↦ (true, refunded_by answers now i after) | err e ↦ (false, after) ]

unfoldable pub drain_rows : (RefundInstruction → Result ℕ) → ℕ → List ℕ → Database → ℕ × Database
unfolding apply_row
drain_rows answers now [] db = (0, db)
drain_rows answers now (row ∷ rows) db =
    let (applied, between) = apply_row answers now row db in
    let (n, after) = drain_rows answers now rows between in (if applied then suc n else n, after)

-- The queue of one tick.
unfoldable pub drain : (RefundInstruction → Result ℕ) → ℕ → Database → ℕ × Database
unfolding elected drain_rows
drain answers now db = drain_rows answers now (elected db.deliveries) db
