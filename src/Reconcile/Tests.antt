-- ===== src/Reconcile/Tests.antt =====
-- The report at concrete databases.
use project_atrium.Base.{◌≡◌, ◌≢◌, ◌↔◌, refl, min, ltb, none, some, [], ◌∷◌, length, sum_by, arith}
use project_atrium.Store.Status.{PaymentStatus, charge_succeeded}
use project_atrium.Store.Tables.{Payment, Database}
use project_atrium.Store.Transaction.{ok, transaction}
use project_atrium.Refunds.Policy.{RefundBreakdown, parse_snapshot, compute_refund, split_totals}
use project_atrium.Samples.{snapshot, in_state, cancelled_booking, payment_in, with_booking}
use project_atrium.Store.Status.{confirmed}
use project_atrium.Payments.Rows.{find_captured_payment}
use project_atrium.Payments.Effects.{record_refund_key}
use project_atrium.Payments.Settlement.{
  ProviderState, poll_charge, not_applied, Cancelled, refund_input_of, settle_cancellation,
  settle_refund,
}
use project_atrium.Reconcile.Checks.{
  Scope, discrepancies, capture_without_confirmation, refund_initiated_not_settled,
}
use project_atrium.Reconcile.Report.{KindCount, run, run_counts}
use project_atrium.Reconcile.Clean.{IsReconciled, run-IsReconciled}
use project_atrium.Reconcile.Joined.{AllJoined}
use project_atrium.Reconcile.Polled.{IsHidden, poll_charge-hides}
use project_atrium.Reconcile.Waived.{waived_refund-IsReported}

abbrev scope : Scope
scope = record { from = 0; to = 1000000000; grace_seconds = 60 }

abbrev captured_payment : Payment
captured_payment = payment_in PaymentStatus.succeeded (some 77)

abbrev cancelled_database : Database
cancelled_database = record (with_booking cancelled_booking) { payments = captured_payment ∷ [] }

abbrev confirmed_database : Database
confirmed_database = record (with_booking (in_state confirmed none (some snapshot))) {
  payments = captured_payment ∷ [];
  payment_events = record { charge_id = 77; event = charge_succeeded; occurred_at = 0 } ∷ [];
}

nothing_wrong : (run scope 100000 500 confirmed_database).discrepancy_count ≡ 0
unfolding run
nothing_wrong = refl

within_grace : (run scope 50000 500 cancelled_database).discrepancy_count ≡ 0
unfolding run
within_grace = refl

run-IsReconciled_example :
    ((run scope 100000 500 confirmed_database).discrepancy_count ≡ 0)
    ↔ IsReconciled scope 100000 confirmed_database
run-IsReconciled_example = run-IsReconciled scope 100000 500 confirmed_database

-- After a cancellation that gives nothing back, two discrepancies, of which one is returned.
abbrev waived_database : Database
waived_database = (settle_cancellation 250000000 1 cancelled_database).1

waived_kinds :
    (run scope 250060001 1 waived_database).by_kind
    ≡ record { kind = capture_without_confirmation; n = 1 }
      ∷ record { kind = refund_initiated_not_settled; n = 1 }
      ∷ []
unfolding run settle_cancellation parse_snapshot transaction find_captured_payment compute_refund
    record_refund_key
waived_kinds = refl

run_counts_example :
    let r = run scope 250060001 1 waived_database in
    let count = length (discrepancies scope 250060001 waived_database) in
    (r.discrepancy_count ≡ count)
    × (sum_by (λ (c : KindCount). c.n) r.by_kind ≡ count)
    × (r.returned ≡ min 1 count)
    × (length r.discrepancies ≡ r.returned)
    × (r.truncated ≡ ltb 1 count)
run_counts_example = run_counts scope 250060001 1 waived_database

-- Almost fourteen hours before the start.
abbrev nothing_back : RefundBreakdown
nothing_back = record {
  hours_before = 50000000;
  tier = record { min_hours_before = 0; room_refund_pct = 0; equipment_refund_pct = 0 };
  room_refund_minor = 0;
  equipment_refund_minor = 0;
  total_refund_minor = 0;
}

waived_refund-IsReported_example :
    (c : Cancelled) × ((settle_cancellation 250000000 1 cancelled_database).0 ≡ ok (some c))
    × (c.instruction.amount_minor ≡ 0)
    × (settle_refund 250060001 c.instruction (ok 5) waived_database ≡ (ok tt, waived_database))
    × ((run scope 250060001 500 waived_database).discrepancy_count ≢ 0)
unfolding find_captured_payment parse_snapshot compute_refund refund_input_of split_totals
waived_refund-IsReported_example =
    waived_refund-IsReported scope 250000000 250060001 500 1 cancelled_database cancelled_booking
      captured_payment 77 snapshot nothing_back (ok 5) refl refl refl refl refl refl refl refl
      (omega arith) (omega arith)

abbrev accepted_payment : Payment
accepted_payment = payment_in PaymentStatus.pending (some 77)

abbrev accepted_database : Database
accepted_database = record (with_booking (in_state confirmed none (some snapshot))) {
  payments = accepted_payment ∷ [];
}

poll_charge-hides_example :
    let (answer, after) =
      poll_charge 100000 accepted_payment 77 ProviderState.unknown accepted_database in
    (answer ≡ ok not_applied)
    × AllJoined scope after.bookings (IsHidden scope 160000 11) after.payments
poll_charge-hides_example =
    poll_charge-hides scope 100000 160000 77 accepted_payment accepted_database (omega arith)
