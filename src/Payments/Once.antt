-- ===== src/Payments/Once.antt =====
-- The money of a cancellation is asked for once.
use project_atrium.Base.{
  ℕ, ◌+◌, ◌≤◌, ◌≡◌, refl, not, ◌&&◌, ◌==◌, Option, none, some, find_first, arith, is_some,
  find_first-update_where_if, find_first-holds,
}
use project_atrium.Store.Status.{PaymentStatus, is_payment}
use project_atrium.Store.Tables.{Booking, Payment, Database, refund_key}
use project_atrium.Store.Transaction.{ok, transaction}
use project_atrium.Refunds.Policy.{
  PolicySnapshot, RefundBreakdown, compute_refund, parse_snapshot, parse_tiers,
}
use project_atrium.Refunds.Amounts.{compute_refund_bounded}
use project_atrium.Bookings.StateMachine.{has_id}
use project_atrium.Payments.Rows.{with_id, find_captured_payment}
use project_atrium.Payments.Effects.{record_refund_key}
use project_atrium.Payments.Settlement.{
  Cancelled, shares_of, refund_for, refund_input_of, cancel_with, cancel_captured, cancel_found,
  settle_cancellation,
}

-- The payment as it stands once its refund has been asked for.
abbrev pub keyed : ℕ → ℕ → Payment → Payment
keyed now charge_id r = record r {
  refund_idempotency_key = some (refund_key charge_id);
  updated_at = now;
}

module _ (now id : ℕ) (db : Database) (b : Booking) (r : Payment) (charge_id : ℕ)
    (snapshot : PolicySnapshot) (breakdown : RefundBreakdown)
    (booked : find_first (has_id id) db.bookings ≡ some b)
    (paid : find_captured_payment id db ≡ some r) (charged : r.charge_id ≡ some charge_id)
    (open_refund : r.refund_idempotency_key ≡ none)
    (frozen : parse_snapshot b.policy_snapshot ≡ some snapshot)
    (computed : compute_refund (refund_input_of now b snapshot db) ≡ some breakdown) where
  captured_status : r.status ≡ PaymentStatus.succeeded
  unfolding find_captured_payment
  captured_status = ground (
    arith,
    find_first-holds
        (λ (q : Payment). q.booking_id == id && is_payment q.status PaymentStatus.succeeded)
        db.payments r paid,
  )

  pub asks_for :
      ((settle_cancellation now id db).0
        ≡ ok (
            some (record {
              instruction = record {
                payment_id = r.id;
                charge_id = charge_id;
                booking_id = id;
                amount_minor = breakdown.total_refund_minor;
                idempotency_key = refund_key charge_id;
              };
              breakdown = breakdown;
            })))
      × (find_first (has_id id) (settle_cancellation now id db).1.bookings ≡ some b)
      × (find_captured_payment id (settle_cancellation now id db).1 ≡ some (keyed now charge_id r))
  unfolding settle_cancellation transaction cancel_found cancel_captured cancel_with refund_for
      record_refund_key find_captured_payment
  asks_for = (
    ground (arith, captured_status),
    ground (arith, captured_status),
    ground (
      arith,
      captured_status,
      find_first-update_where_if
          (λ (q : Payment). with_id r.id q && not (is_some q.refund_idempotency_key))
          (λ (q : Payment). q.booking_id == id && is_payment q.status PaymentStatus.succeeded)
          (keyed now charge_id) db.payments r (λ x. refl) paid,
    ),
  )

asked_already :
    (now id : ℕ) (db : Database) (b : Booking) (r : Payment) (c k : ℕ)
    → find_first (has_id id) db.bookings ≡ some b
    → find_captured_payment id db ≡ some r
    → r.charge_id ≡ some c
    → r.refund_idempotency_key ≡ some (refund_key k)
    → settle_cancellation now id db ≡ (ok none, db)
unfolding settle_cancellation transaction cancel_found cancel_captured
asked_already now id db b r c k booked paid charged asked = ground arith

pub parse_snapshot-parse_tiers :
    (column : Option PolicySnapshot) (s : PolicySnapshot)
    → parse_snapshot column ≡ some s
    → parse_tiers s.tiers ≡ some s.tiers
unfolding parse_snapshot parse_tiers
parse_snapshot-parse_tiers none s h = ground arith
parse_snapshot-parse_tiers (some t) s h = ground (arith, h)

-- The money of a cancellation is asked for once. Where the charge of a booking was
-- captured, no refund is open and the policy frozen into the booking parses, the settlement
-- always gives an instruction, for the charge and under its key, of no more than the room's and
-- the equipment's shares of the booking; a settlement of the same booking behind it, at any
-- instant, gives none and writes nothing.
pub settle_cancellation_once :
    (now later id : ℕ) (db : Database) (b : Booking) (r : Payment) (charge_id : ℕ)
    (snapshot : PolicySnapshot)
    → find_first (has_id id) db.bookings ≡ some b
    → find_captured_payment id db ≡ some r
    → r.charge_id ≡ some charge_id
    → r.refund_idempotency_key ≡ none
    → parse_snapshot b.policy_snapshot ≡ some snapshot
    → (c : Cancelled) × ((settle_cancellation now id db).0 ≡ ok (some c))
      × (c.instruction.charge_id ≡ charge_id)
      × (c.instruction.idempotency_key ≡ refund_key charge_id)
      × (c.instruction.amount_minor ≤ (shares_of b db).0 + (shares_of b db).1)
      × (settle_cancellation later id (settle_cancellation now id db).1
          ≡ (ok none, (settle_cancellation now id db).1))
unfolding refund_input_of
settle_cancellation_once now later id db b r charge_id snapshot booked paid charged open_refund
      frozen =
    let (breakdown, computed, adds, room, equipment, bounded) =
      compute_refund_bounded snapshot.tiers (refund_input_of now b snapshot db)
        (parse_snapshot-parse_tiers b.policy_snapshot snapshot frozen) in
    let (answer, row, payment) =
      asks_for now id db b r charge_id snapshot breakdown booked paid charged open_refund frozen
        computed in
    (
      _,
      answer,
      refl,
      refl,
      bounded,
      asked_already later id (settle_cancellation now id db).1 b (keyed now charge_id r) charge_id
          charge_id row payment charged refl,
    )
