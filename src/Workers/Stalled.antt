-- ===== src/Workers/Stalled.antt =====
-- apps/api/src/payments/webhook-processor.service.ts: a batch of deliveries whose charges are not
-- known here.
use project_atrium.Base.{
  ℕ, zero, suc, ◌≡◌, refl, ap, sym, ◌∙◌, subst, Bool, true, ◌&&◌, none, some, List, [], ◌∷◌, map,
  take, ◌==◌, filter_by, find_first, update_where, if◌then◌else◌, All, All-map, length, arith,
  Option-cases, inl, inr, find_first-update_where_if,
}
use project_atrium.Store.Status.{WebhookEvent}
use project_atrium.Store.Tables.{Payment, Delivery, WebhookBody, Database, supported, charge_key}
use project_atrium.Store.Transaction.{Result, ok, transaction}
use project_atrium.Payments.Rows.{with_key, find_payment_by_charge_id}
use project_atrium.Payments.Effects.{RefundInstruction}
use project_atrium.Payments.Webhook.{
  is_delivery, mark_unknown, find_or_adopt, adopt_row, adopt_charge_by_reference, apply_to_payment,
  apply_supported, apply_named, apply_body, apply_found, apply_delivery,
}
use project_atrium.Workers.Queue.{
  drain_size, is_waiting, insert_received, by_received, elected, apply_row, drain_rows, drain,
}

-- The delivery of that id, not processed, tells of a charge that no payment has, and its
-- reference, where it has one, is of no payment either.
pub record IsStuck (db : Database) (id : ℕ) : Type 0 where
  pub row : Delivery
  pub body : WebhookBody
  pub charge_id : ℕ
  pub event : WebhookEvent
  pub found : find_first (is_delivery id) db.deliveries ≡ some row
  pub unprocessed : row.processed_at ≡ none
  pub parsed : row.body ≡ some body
  pub charged : body.charge_id ≡ some charge_id
  pub named : body.event ≡ supported event
  pub unknown : find_payment_by_charge_id charge_id db ≡ none
  pub unreferred :
      (reference : ℕ)
      → body.reference ≡ some reference
      → find_first
          (λ (r : Payment). r.booking_id == reference && with_key (charge_key reference) r)
          db.payments
        ≡ none

abbrev noted : Delivery → Delivery
noted d = record d { error = some "unknown_charge" }

abbrev marked : ℕ → Database → Database
marked id db = record db { deliveries = update_where (is_delivery id) noted db.deliveries }

-- A stuck delivery is noted as such and waits on.
apply_delivery-stuck :
    (now id : ℕ) (db : Database)
    → IsStuck db id
    → apply_delivery now id db ≡ (ok none, marked id db)
unfolding apply_delivery transaction apply_found apply_body apply_named apply_supported
    find_or_adopt adopt_charge_by_reference adopt_row apply_to_payment mark_unknown
apply_delivery-stuck now id db s = elim (Option-cases s.body.reference) [
  | inl e ↦ ground (arith, s.found, s.unprocessed, s.parsed, s.charged, s.named, s.unknown, e)
  | inr (reference, e) ↦ ground (
    arith,
    s.found,
    s.unprocessed,
    s.parsed,
    s.charged,
    s.named,
    s.unknown,
    e,
    s.unreferred reference e,
  )
]

module _ (p : Delivery → Bool) where
  waiting-noted :
      (ds : List Delivery)
      → filter_by is_waiting (update_where p noted ds)
        ≡ update_where p noted (filter_by is_waiting ds)
  unfolding is_waiting
  waiting-noted [] = refl
  waiting-noted (d ∷ ds) = ground (arith, waiting-noted ds)

  insert_received-noted :
      (d : Delivery) (ds : List Delivery)
      → insert_received (if p d then noted d else d) (update_where p noted ds)
        ≡ update_where p noted (insert_received d ds)
  unfolding insert_received
  insert_received-noted d [] = refl
  insert_received-noted d (e ∷ es) = ground (arith, insert_received-noted d es)

  by_received-noted :
      (ds : List Delivery)
      → by_received (update_where p noted ds) ≡ update_where p noted (by_received ds)
  unfolding by_received
  by_received-noted [] = refl
  by_received-noted (d ∷ ds) =
      ap (insert_received (if p d then noted d else d)) (by_received-noted ds)
      ∙ insert_received-noted d (by_received ds)

  ids-noted :
      (n : ℕ) (ds : List Delivery)
      → map (λ (d : Delivery). d.id) (take n (update_where p noted ds))
        ≡ map (λ (d : Delivery). d.id) (take n ds)
  ids-noted zero ds = refl
  ids-noted (suc n) [] = refl
  ids-noted (suc n) (d ∷ ds) = ground (arith, ids-noted n ds)

  -- A note changes nothing of who is elected.
  elected-noted : (ds : List Delivery) → elected (update_where p noted ds) ≡ elected ds
  unfolding elected
  elected-noted ds =
      ap (λ ws. map (λ (d : Delivery). d.id) (take drain_size (by_received ws))) (waiting-noted ds)
      ∙ (ap (λ ws. map (λ (d : Delivery). d.id) (take drain_size ws))
            (by_received-noted (filter_by is_waiting ds))
          ∙ ids-noted drain_size (by_received (filter_by is_waiting ds)))

-- A stuck delivery stays so when another, or it, is noted.
IsStuck-marked : (id k : ℕ) (db : Database) → IsStuck db k → IsStuck (marked id db) k
unfolding find_payment_by_charge_id
IsStuck-marked id k db s =
    let seen =
      find_first-update_where_if (is_delivery id) (is_delivery k) noted db.deliveries s.row
        (λ d. refl) s.found in
    record {
      row = if is_delivery id s.row then noted s.row else s.row;
      body = s.body;
      charge_id = s.charge_id;
      event = s.event;
      found = seen;
      unprocessed = ground (arith, s.unprocessed);
      parsed = ground (arith, s.parsed);
      charged = s.charged;
      named = s.named;
      unknown = s.unknown;
      unreferred = s.unreferred;
    }

-- The same rows are elected next, those of `watched` stay stuck, and no payment, booking or claim
-- is touched.
record IsStalledAfter (watched : List ℕ) (db after : Database) : Type 0 where
  elects : elected after.deliveries ≡ elected db.deliveries
  payments : after.payments ≡ db.payments
  bookings : after.bookings ≡ db.bookings
  payment_events : after.payment_events ≡ db.payment_events
  stuck : All (IsStuck after) watched

module _ (answers : RefundInstruction → Result ℕ) where
  apply_row-stuck :
      (now id : ℕ) (db : Database)
      → IsStuck db id
      → apply_row answers now id db ≡ (true, marked id db)
  unfolding apply_row
  apply_row-stuck now id db s = ground (arith, apply_delivery-stuck now id db s)

  drain_rows-stuck :
      (now : ℕ) (watched rows : List ℕ) (db : Database)
      → All (IsStuck db) watched
      → All (IsStuck db) rows
      → ((drain_rows answers now rows db).0 ≡ length rows)
        × IsStalledAfter watched db (drain_rows answers now rows db).1
  unfolding drain_rows
  drain_rows-stuck now watched [] db w h = (
    refl,
    record { elects = refl; payments = refl; bookings = refl; payment_events = refl; stuck = w },
  )
  drain_rows-stuck now watched (row ∷ rows) db w h =
      let kept : (ks : List ℕ) → All (IsStuck db) ks → All (IsStuck (marked row db)) ks =
        λ ks u. All-map _ _ ks (λ k s. IsStuck-marked row k db s) u in
      let rest =
        drain_rows-stuck now watched rows (marked row db) (kept watched w) (kept rows h.1) in
      rw (apply_row-stuck now row db h.0) (
        ap suc rest.0,
        record {
          elects = rest.1.elects ∙ elected-noted (is_delivery row) db.deliveries;
          payments = rest.1.payments;
          bookings = rest.1.bookings;
          payment_events = rest.1.payment_events;
          stuck = rest.1.stuck;
        },
      )

  drain-stuck :
      (now : ℕ) (db : Database)
      → All (IsStuck db) (elected db.deliveries)
      → ((drain answers now db).0 ≡ length (elected db.deliveries))
        × IsStalledAfter (elected db.deliveries) db (drain answers now db).1
  unfolding drain
  drain-stuck now db h = drain_rows-stuck now (elected db.deliveries) (elected db.deliveries) db h h

  -- One tick after the other, with nothing in between.
  abbrev pub drains : List ℕ → Database → Database
  drains [] db = db
  drains (now ∷ nows) db = drains nows (drain answers now db).1

  -- Where every delivery that the queue elects tells of a charge that is not known here, no number
  -- of ticks gets past them: each elects the same rows, counts all of them as applied and leaves
  -- the payments, the bookings and the claims as they were.
  pub stalled_queue :
      (nows : List ℕ) (now : ℕ) (db : Database)
      → All (IsStuck db) (elected db.deliveries)
      → let after = drains nows db in
        (elected after.deliveries ≡ elected db.deliveries)
        × ((drain answers now after).0 ≡ length (elected db.deliveries))
        × (after.payments ≡ db.payments)
        × (after.bookings ≡ db.bookings)
        × (after.payment_events ≡ db.payment_events)
  stalled_queue [] now db h = (refl, (drain-stuck now db h).0, refl, refl, refl)
  stalled_queue (first ∷ nows) now db h =
      let (counted, one) = drain-stuck first db h in
      let next = (drain answers first db).1 in
      let rest =
        stalled_queue nows now next (subst (All (IsStuck next)) (sym one.elects) one.stuck) in
      (
        rest.0 ∙ one.elects,
        rest.1 ∙ ap length one.elects,
        rest.2 ∙ one.payments,
        rest.3 ∙ one.bookings,
        rest.4 ∙ one.payment_events,
      )
