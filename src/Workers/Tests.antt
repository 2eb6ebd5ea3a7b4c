-- ===== src/Workers/Tests.antt =====
-- A tick of the sweeper on a lapsed hold, and the queue of deliveries behind a full batch.
use project_atrium.Base.{
  ℕ, zero, suc, ◌+◌, ◌≡◌, refl, true, false, none, some, List, [], ◌∷◌, ◌==◌, any_of, find_first,
  length, All, arith,
}
use project_atrium.Samples.{held_booking, with_booking, empty_database}
use project_atrium.Store.Status.{charge_succeeded}
use project_atrium.Store.Tables.{Delivery, WebhookBody, Database, supported}
use project_atrium.Store.Transaction.{Result, ok}
use project_atrium.Payments.Effects.{RefundInstruction}
use project_atrium.Payments.Rows.{find_payment_by_charge_id}
use project_atrium.Bookings.Expiry.{is_stale, is_sweepable, expire_stale_holds}
use project_atrium.Payments.Webhook.{is_delivery}
use project_atrium.Workers.Sweeper.{tick, tick_clears}
use project_atrium.Workers.Queue.{
  drain_size, is_waiting, insert_received, by_received, elected, drain,
}
use project_atrium.Workers.Stalled.{IsStuck, drains, stalled_queue}

one_expired : (tick false true (λ id. false) 700000 (with_booking held_booking)).0 ≡ 1
unfolding tick expire_stale_holds
one_expired = refl

locked_is_skipped : (tick false true (λ id. id == 1) 700000 (with_booking held_booking)).0 ≡ 0
unfolding tick expire_stale_holds
locked_is_skipped = refl

tick_clears_example :
    All
      (λ b. is_stale 700000 b ≡ true → (b.id == 4) ≡ true)
      (tick false true (λ id. id == 4) 700000 (with_booking held_booking)).1.bookings
unfolding is_stale is_sweepable
tick_clears_example = tick_clears (λ id. id == 4) 700000 (with_booking held_booking) (omega arith)

abbrev body : WebhookBody
body = record {
  charge_id = some 77;
  reference = some 1;
  event = supported charge_succeeded;
  amount_minor = none;
  occurred_at = some 40;
  refund_id = none;
}

-- The charge of these is not known here.
abbrev received : ℕ → Delivery
received id = record {
  id = id;
  delivery_id = id;
  body = some body;
  signature_valid = true;
  error = none;
  received_at = 40 + id;
  processed_at = none;
}

abbrev backlog : ℕ → List Delivery
backlog zero = []
backlog (suc n) = received n ∷ backlog n

-- Of one delivery more than a batch, the one received last is not elected.
behind_the_batch : any_of (λ id. id == 100) (elected (backlog 101)) ≡ false
unfolding elected is_waiting by_received insert_received
behind_the_batch = refl

batch_is_full : length (elected (backlog 101)) ≡ drain_size
unfolding elected is_waiting by_received insert_received
batch_is_full = refl

abbrev queued : Database
queued = record empty_database { deliveries = backlog 2 }

abbrev accepting : RefundInstruction → Result ℕ
accepting i = ok 5

received-IsStuck :
    (id : ℕ)
    → find_first (is_delivery id) queued.deliveries ≡ some (received id)
    → IsStuck queued id
unfolding find_payment_by_charge_id
received-IsStuck id there = record {
  row = received id;
  body = body;
  charge_id = 77;
  event = charge_succeeded;
  found = there;
  unprocessed = refl;
  parsed = refl;
  charged = refl;
  named = refl;
  unknown = refl;
  unreferred = λ reference e. refl;
}

stalled_queue_example :
    let after = drains accepting (100000 ∷ 110000 ∷ []) queued in
    (elected after.deliveries ≡ elected queued.deliveries)
    × ((drain accepting 120000 after).0 ≡ length (elected queued.deliveries))
    × (after.payments ≡ queued.payments)
    × (after.bookings ≡ queued.bookings)
    × (after.payment_events ≡ queued.payment_events)
unfolding elected is_waiting by_received insert_received
stalled_queue_example =
    stalled_queue accepting (100000 ∷ 110000 ∷ []) 120000 queued
      (received-IsStuck 0 refl, (received-IsStuck 1 refl, tt))
