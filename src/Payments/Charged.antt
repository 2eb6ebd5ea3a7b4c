-- ===== src/Payments/Charged.antt =====
-- What a captured charge does to its booking (INV-4), and what paying for a lapsed hold leaves.
use project_atrium.Base.{
  ℕ, ◌≡◌, refl, true, false, none, some, find_first, update_where, arith, subst, ◌∙◌, sym,
  Bool-cases, inl, inr, if◌then◌else◌, find_first-update_where, ==→eq, find_first-holds,
}
use project_atrium.Store.Status.{
  BookingStatus, held, pending_payment, confirmed, is_status, is_legal_transition, PaymentStatus,
  is_status_sound,
}
use project_atrium.Store.Tables.{AuthPrincipal, Booking, Payment, Database, refund_key, charge_key}
use project_atrium.Store.Transaction.{Conflict, Failure, ok, err, transaction}
use project_atrium.Refunds.Policy.{PolicySnapshot}
use project_atrium.Bookings.StateMachine.{has_id, TransitionInput, lock_for_update}
use project_atrium.Bookings.Outcomes.{moved, after_transition, transition_found}
use project_atrium.Bookings.Equipment.{is_due}
use project_atrium.Payments.Rows.{
  Resolved, resolve_tiers, with_id, load_owned, find_payment_by_key, resolve_policy_snapshot,
}
use project_atrium.Payments.Effects.{
  RefundInstruction, record_refund_key, confirmation, late_expiry, is_confirmable, confirm,
  expire_late, return_money, on_charge_succeeded,
}
use project_atrium.Payments.Pay.{
  check_payable, expiry_on_pay, prepare_charge, replay_or_prepare, prepare_payment,
}

-- The database with a payment marked as captured.
abbrev pub captured : ℕ → Payment → ℕ → Database → Database
captured now payment charge_id db = record db {
  payments =
      update_where (with_id payment.id)
        (λ r. record r {
          status = PaymentStatus.succeeded;
          charge_id = some charge_id;
          updated_at = now;
        })
        db.payments;
}

-- The row of a booking whose charge was captured in time.
abbrev pub confirmed_row : ℕ → PolicySnapshot → Booking → Booking
confirmed_row now snapshot b = record b {
  status = confirmed;
  expires_at = none;
  policy_snapshot = some snapshot;
  updated_at = now;
}

-- The policy as `resolvePolicySnapshot` freezes it.
abbrev pub frozen : ℕ → Resolved → PolicySnapshot
frozen now r = record {
  tiers = r.tiers;
  policy_id = r.policy_id;
  resolved_from = r.from;
  snapshot_at = now;
}

confirm_outcome :
    (now : ℕ) (b : Booking) (r : Resolved) (db : Database)
    → find_first (has_id b.id) db.bookings ≡ some b
    → b.status ≡ pending_payment
    → resolve_tiers b.venue_id db.policies ≡ ok r
    → confirm now b db ≡ (ok none, after_transition now (confirmation b.id (frozen now r)) b db)
unfolding confirm resolve_policy_snapshot is_legal_transition
confirm_outcome now b r db found waiting resolved =
    ground (arith, resolved, transition_found now (confirmation b.id (frozen now r)) db b found)

-- The instruction to return a whole charge.
abbrev pub full_refund : Payment → ℕ → Booking → RefundInstruction
full_refund payment charge_id b = record {
  payment_id = payment.id;
  charge_id = charge_id;
  booking_id = b.id;
  amount_minor = payment.amount_minor;
  idempotency_key = refund_key charge_id;
}

module _ (now charge_id : ℕ) (payment : Payment) (b : Booking) (db : Database) where
  return_waiting :
      find_first (has_id b.id) db.bookings ≡ some b
      → b.status ≡ pending_payment
      → ((return_money now payment charge_id b db).0 ≡ ok (some (full_refund payment charge_id b)))
        × ((return_money now payment charge_id b db).1.bookings
            ≡ update_where (has_id b.id) (moved now (late_expiry b.id)) db.bookings)
  unfolding return_money expire_late record_refund_key is_legal_transition
  return_waiting found waiting = (
    ground (arith, waiting, transition_found now (late_expiry b.id) db b found),
    ground (arith, waiting, transition_found now (late_expiry b.id) db b found),
  )

  return_other :
      is_status b.status pending_payment ≡ false
      → ((return_money now payment charge_id b db).0 ≡ ok (some (full_refund payment charge_id b)))
        × ((return_money now payment charge_id b db).1.bookings ≡ db.bookings)
  unfolding return_money expire_late record_refund_key
  return_other other = (ground (arith, other), ground (arith, other))

module _ (now charge_id : ℕ) (payment : Payment) (b : Booking) (db : Database)
    (found : find_first (has_id payment.booking_id) db.bookings ≡ some b) where
  same_id : b.id ≡ payment.booking_id
  same_id =
      ==→eq b.id payment.booking_id
        (find_first-holds (has_id payment.booking_id) db.bookings b found)

  found_by_id : find_first (has_id b.id) db.bookings ≡ some b
  found_by_id = subst (λ i. find_first (has_id i) db.bookings ≡ some b) (sym same_id) found

  moved_found :
      (t : TransitionInput)
      → find_first
          (has_id payment.booking_id)
          (update_where (has_id b.id) (moved now t) db.bookings)
        ≡ some (moved now t b)
  moved_found t =
      subst
        (λ i.
          find_first (has_id i) (update_where (has_id b.id) (moved now t) db.bookings)
          ≡ some (moved now t b))
        same_id
        (find_first-update_where (has_id b.id) (moved now t) db.bookings b (λ x. refl) found_by_id)

  on_confirmable :
      is_confirmable now b ≡ true
      → on_charge_succeeded now payment charge_id db
        ≡ confirm now b (captured now payment charge_id db)
  unfolding on_charge_succeeded lock_for_update
  on_confirmable in_time = ground (arith, found)

  on_unconfirmable :
      is_confirmable now b ≡ false
      → on_charge_succeeded now payment charge_id db
        ≡ return_money now payment charge_id b (captured now payment charge_id db)
  unfolding on_charge_succeeded lock_for_update
  on_unconfirmable late = ground (arith, found)

  charge_confirms_outcome :
      (r : Resolved)
      → b.status ≡ pending_payment
      → is_due b.expires_at now ≡ false
      → resolve_tiers b.venue_id db.policies ≡ ok r
      → on_charge_succeeded now payment charge_id db ≡ (
        ok none,
        after_transition now
            (confirmation b.id (frozen now r))
            b
            (captured now payment charge_id db),
      )
  charge_confirms_outcome r waiting live resolved =
      on_confirmable (ground (arith, waiting, live))
      ∙ confirm_outcome now b r (captured now payment charge_id db) found_by_id waiting resolved

-- Where a policy resolves for the venue, a charge captured for a booking that waits for its
-- payment and has not lapsed confirms it: no refund is asked for, the expiry is cleared, the
-- policy of that instant is frozen into the row.
pub charge_confirms :
    (now charge_id : ℕ) (payment : Payment) (b : Booking) (r : Resolved) (db : Database)
    → find_first (has_id payment.booking_id) db.bookings ≡ some b
    → b.status ≡ pending_payment
    → is_due b.expires_at now ≡ false
    → resolve_tiers b.venue_id db.policies ≡ ok r
    → ((on_charge_succeeded now payment charge_id db).0 ≡ ok none)
      × (find_first
            (has_id payment.booking_id)
            (on_charge_succeeded now payment charge_id db).1.bookings
          ≡ some (confirmed_row now (frozen now r) b))
charge_confirms now charge_id payment b r db found waiting live resolved =
    rw (charge_confirms_outcome now charge_id payment b db found r waiting live resolved)
      (refl, moved_found now charge_id payment b db found (confirmation b.id (frozen now r)))

-- INV-4: a charge captured for a booking that cannot be confirmed, because it has lapsed or is in
-- any other state, asks for a refund of the whole amount under the key of the charge; the row of
-- the booking is expired if it waited for its payment, and is untouched in any other state.
pub charge_returns :
    (now charge_id : ℕ) (payment : Payment) (b : Booking) (db : Database)
    → find_first (has_id payment.booking_id) db.bookings ≡ some b
    → is_confirmable now b ≡ false
    → ((on_charge_succeeded now payment charge_id db).0
        ≡ ok (some (full_refund payment charge_id b)))
      × (find_first
            (has_id payment.booking_id)
            (on_charge_succeeded now payment charge_id db).1.bookings
          ≡ some (
              if is_status b.status pending_payment
              then record b { status = BookingStatus.expired; updated_at = now }
              else b))
charge_returns now charge_id payment b db found late =
    rw (on_unconfirmable now charge_id payment b db found late)
      (elim (Bool-cases (is_status b.status pending_payment)) [
        | inl waits ↦
            let (answer, rows) =
              return_waiting now charge_id payment b (captured now payment charge_id db)
                (found_by_id now charge_id payment b db found)
                (is_status_sound b.status pending_payment waits) in
            (
              answer,
              rw (rows, waits) (moved_found now charge_id payment b db found (late_expiry b.id)),
            )
        | inr other ↦
            let (answer, rows) =
              return_other now charge_id payment b (captured now payment charge_id db) other in
            (answer, rw (rows, other) found)
      ])

module _ (now payment_id id : ℕ) (p : AuthPrincipal) (b : Booking) (db : Database) where
  lapsed_refused :
      find_first (has_id id) db.bookings ≡ some b
      → b.status ≡ held
      → is_due b.expires_at now ≡ true
      → (check_payable now id b db).0 ≡ err (Failure.conflict Conflict.hold_expired)
  unfolding check_payable is_legal_transition
  lapsed_refused found holds due =
      ground (arith, transition_found now (expiry_on_pay id) db b found)

-- Paying for a hold that has lapsed and has no payment yet answers that it has expired, and leaves
-- the database as it was: no payment is recorded, and the transition to EXPIRED is undone with the
-- transaction that throws.
pub pay_lapsed :
    (now payment_id id : ℕ) (p : AuthPrincipal) (b : Booking) (db : Database)
    → load_owned id p db ≡ (ok b, db)
    → find_first (has_id id) db.bookings ≡ some b
    → find_payment_by_key (charge_key id) db ≡ none
    → b.status ≡ held
    → is_due b.expires_at now ≡ true
    → prepare_payment now payment_id id p db ≡ (err (Failure.conflict Conflict.hold_expired), db)
unfolding prepare_payment transaction replay_or_prepare prepare_charge
pay_lapsed now payment_id id p b db loaded found unpaid holds due =
    ground (arith, loaded, unpaid, lapsed_refused now payment_id id p b db found holds due)
