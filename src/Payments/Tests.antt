-- ===== src/Payments/Tests.antt =====
-- The theorems on payments at concrete databases.
use project_atrium.Base.{◌≢◌, List, ◌+◌, ◌≤◌, ◌≡◌, refl, true, none, some, [], ◌∷◌, find_first}
use project_atrium.Store.Status.{confirmed, BookingStatus, PaymentStatus, charge_succeeded}
use project_atrium.Store.Tables.{
  Booking, Payment, Database, Delivery, WebhookBody, supported, refund_key,
}
use project_atrium.Store.Transaction.{Conflict, Failure, ok, err}
use project_atrium.Refunds.Policy.{half_hours, ResolvedFrom, parse_snapshot}
use project_atrium.Store.Status.{is_active}
use project_atrium.Bookings.StateMachine.{held_row, create_held}
use project_atrium.Bookings.Hold.{
  Priced, held_values, room_total, admit_equipment, admit_types, create_or_conflict, book,
}
use project_atrium.Payments.Split.{shares_of-book}
use project_atrium.Samples.{
  in_state, env, two_tables, room, empty_database, ali, ladder, held_booking, awaiting_booking,
  cancelled_booking, snapshot, payment_in, with_booking,
}
use project_atrium.Bookings.StateMachine.{has_id}
use project_atrium.Bookings.Service.{select_scoped}
use project_atrium.Payments.Rows.{
  Resolved, load_owned, payment_scope_of, find_payment_by_charge_id, find_captured_payment,
  find_payment_by_key, resolve_tiers,
}
use project_atrium.Payments.Effects.{on_charge_succeeded}
use project_atrium.Payments.Pay.{ChargeCall, prepare_payment}
use project_atrium.Payments.Charged.{
  confirmed_row, frozen, charge_confirms, full_refund, charge_returns, pay_lapsed,
}
use project_atrium.Payments.Webhook.{apply_delivery}
use project_atrium.Payments.Replay.{after_duplicate, apply_delivery-duplicate}
use project_atrium.Payments.Settlement.{Cancelled, shares_of, settle_cancellation}
use project_atrium.Refunds.Preview.{RefundPreview, preview_refund}
use project_atrium.Payments.Quoted.{view_of, Coincides, quoted_refund}
use project_atrium.Payments.Once.{settle_cancellation_once}

abbrev paid : Payment
paid = payment_in PaymentStatus.pending (some 77)

abbrev captured_payment : Payment
captured_payment = payment_in PaymentStatus.succeeded (some 77)

abbrev awaiting : Database
awaiting = record (with_booking awaiting_booking) { payments = paid ∷ [] }

abbrev resolved : Resolved
resolved = record { tiers = ladder; policy_id = 2; from = ResolvedFrom.platform }

charge_confirms_example :
    ((on_charge_succeeded 50 paid 77 awaiting).0 ≡ ok none)
    × (find_first (has_id 1) (on_charge_succeeded 50 paid 77 awaiting).1.bookings
        ≡ some (confirmed_row 50 (frozen 50 resolved) awaiting_booking))
unfolding resolve_tiers
charge_confirms_example =
    charge_confirms 50 77 paid awaiting_booking resolved awaiting refl refl refl refl

-- The charge of 4,600 arrives after the hold has lapsed.
charge_returns_example :
    ((on_charge_succeeded 700000 paid 77 awaiting).0
      ≡ ok (some (full_refund paid 77 awaiting_booking)))
    × (find_first (has_id 1) (on_charge_succeeded 700000 paid 77 awaiting).1.bookings
        ≡ some (record awaiting_booking { status = BookingStatus.expired; updated_at = 700000 }))
charge_returns_example = charge_returns 700000 77 paid awaiting_booking awaiting refl refl

pay_lapsed_example :
    prepare_payment 700000 11 1 ali (with_booking held_booking)
    ≡ (err (Failure.conflict Conflict.hold_expired), with_booking held_booking)
unfolding load_owned find_payment_by_key select_scoped payment_scope_of
pay_lapsed_example =
    pay_lapsed 700000 11 1 ali held_booking (with_booking held_booking) refl refl refl refl refl

abbrev body : WebhookBody
body = record {
  charge_id = some 77;
  reference = some 1;
  event = supported charge_succeeded;
  amount_minor = none;
  occurred_at = some 40;
  refund_id = none;
}

abbrev delivery : Delivery
delivery = record {
  id = 21;
  delivery_id = 99;
  body = some body;
  signature_valid = true;
  error = none;
  received_at = 45;
  processed_at = none;
}

abbrev redelivered : Database
redelivered = record awaiting {
  payment_events = record { charge_id = 77; event = charge_succeeded; occurred_at = 40 } ∷ [];
  deliveries = delivery ∷ [];
}

apply_delivery-duplicate_example :
    apply_delivery 60 21 redelivered ≡ (ok none, after_duplicate 60 21 redelivered)
unfolding find_payment_by_charge_id
apply_delivery-duplicate_example =
    apply_delivery-duplicate 60 21 77 charge_succeeded redelivered delivery body paid refl refl refl
      refl refl refl refl

abbrev cancelled_database : Database
cancelled_database = record (with_booking cancelled_booking) { payments = captured_payment ∷ [] }

settle_cancellation_once_example :
    (c : Cancelled) × ((settle_cancellation 210000000 1 cancelled_database).0 ≡ ok (some c))
    × (c.instruction.charge_id ≡ 77)
    × (c.instruction.idempotency_key ≡ refund_key 77)
    × (c.instruction.amount_minor
        ≤ (shares_of cancelled_booking cancelled_database).0
          + (shares_of cancelled_booking cancelled_database).1)
    × (settle_cancellation 210000001 1 (settle_cancellation 210000000 1 cancelled_database).1
        ≡ (ok none, (settle_cancellation 210000000 1 cancelled_database).1))
unfolding find_captured_payment parse_snapshot
settle_cancellation_once_example =
    settle_cancellation_once 210000000 210000001 1 cancelled_database cancelled_booking
      captured_payment 77 snapshot refl refl refl refl refl

quoted_refund_example :
    (c : Cancelled) × (p : RefundPreview) × ((settle_cancellation 210000000 1 cancelled_database).0
      ≡ ok (some c))
    × (preview_refund (view_of cancelled_booking cancelled_database) 210000000 ≡ some p)
    × Coincides cancelled_booking c p
unfolding find_captured_payment parse_snapshot
quoted_refund_example =
    quoted_refund 210000000 1 cancelled_database cancelled_booking captured_payment 77 snapshot refl
      refl refl refl refl

abbrev two_lines : List Priced
two_lines =
    record { equipment_type_id = 9; quantity = 2; rate_minor = 150; line_total_minor = 600 } ∷ []

abbrev new_booking : Booking
new_booking = held_row 0 1 (held_values 0 env two_tables room ali two_lines)

-- 4,000 for the room and 600 for two tables.
shares_of-book_example :
    shares_of new_booking (book 0 env 1 two_tables room ali two_lines empty_database).1
    ≡ (4000, 600)
unfolding admit_equipment admit_types book create_or_conflict create_held is_active room_total
    half_hours
shares_of-book_example =
    shares_of-book 0 env 1 two_tables room ali ((9, 2) ∷ []) two_lines empty_database new_booking
      refl tt refl

abbrev confirmed_database : Database
confirmed_database = record (with_booking (in_state confirmed none (some snapshot))) {
  payments = captured_payment ∷ [];
}

abbrev provider : ChargeCall
provider key amount = ok 88

captured-ne-pending : captured_payment.status ≢ PaymentStatus.pending
captured-ne-pending e = cc
