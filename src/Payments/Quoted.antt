-- ===== src/Payments/Quoted.antt =====
-- The estimate of apps/web/lib/refund.ts against what settleCancellation of
-- apps/api/src/payments/payments.service.ts asks the provider for.
use mathlib.Core.Option
use project_atrium.Base.{
  ℕ, ◌≡◌, refl, ap, ◌∙◌, ◌==◌, Option, none, some, find_first, filter_by, sub_ℕ, arith,
}
use project_atrium.Store.Tables.{Booking, Payment, Database}
use project_atrium.Store.Transaction.{ok}
use project_atrium.Refunds.Policy.{PolicySnapshot, LineItem, parse_snapshot}
use project_atrium.Refunds.Amounts.{compute_refund_bounded}
use project_atrium.Refunds.Preview.{
  BookingView, RefundPreview, as_preview, refund_input, preview_refund,
  preview_refund-compute_refund,
}
use project_atrium.Bookings.StateMachine.{has_id}
use project_atrium.Payments.Rows.{find_captured_payment}
use project_atrium.Payments.Settlement.{Cancelled, shares_of, refund_input_of, settle_cancellation}
use project_atrium.Payments.Once.{asks_for, parse_snapshot-parse_tiers}

-- The booking as the API hands it to the console.
abbrev pub view_of : Booking → Database → BookingView
view_of b db = record {
  tiers = Option.map (λ (s : PolicySnapshot). s.tiers) b.policy_snapshot;
  starts_at = b.starts_at;
  ends_at = b.ends_at;
  total_minor = b.total_minor;
  line_items = filter_by (λ (li : LineItem). li.booking_id == b.id) db.line_items;
}

parse_snapshot-same :
    (column : Option PolicySnapshot) (s : PolicySnapshot)
    → parse_snapshot column ≡ some s
    → column ≡ some s
unfolding parse_snapshot
parse_snapshot-same none s h = ground arith
parse_snapshot-same (some t) s h = ground (arith, h)

-- The estimate agrees with the cancellation on every amount, on the tier and on the lead time.
pub record Coincides (b : Booking) (c : Cancelled) (p : RefundPreview) : Type 0 where
  pub room : p.room_refund_minor ≡ c.breakdown.room_refund_minor
  pub equipment : p.equipment_refund_minor ≡ c.breakdown.equipment_refund_minor
  pub total : p.total_refund_minor ≡ c.instruction.amount_minor
  pub tier : p.tier ≡ c.breakdown.tier
  pub lead_time : p.hours_before ≡ c.breakdown.hours_before
  pub forfeited : p.forfeited_minor ≡ sub_ℕ b.total_minor c.instruction.amount_minor

-- What the console quotes for a cancellation is what the API asks for. Where the charge of a
-- booking was captured, no refund is open and the policy frozen into the booking parses, the
-- console shows an estimate at every instant, the settlement of a cancellation at that instant
-- gives an instruction, and they agree on the refund of the room and of the equipment, on the
-- amount that the provider is asked for, on the tier and on the lead time; what the console calls
-- forfeited is the rest of the booking's total, below 0 where the refund exceeds it.
pub quoted_refund :
    (now id : ℕ) (db : Database) (b : Booking) (r : Payment) (charge_id : ℕ)
    (snapshot : PolicySnapshot)
    → find_first (has_id id) db.bookings ≡ some b
    → find_captured_payment id db ≡ some r
    → r.charge_id ≡ some charge_id
    → r.refund_idempotency_key ≡ none
    → parse_snapshot b.policy_snapshot ≡ some snapshot
    → (c : Cancelled) × (p : RefundPreview) × ((settle_cancellation now id db).0 ≡ ok (some c))
      × (preview_refund (view_of b db) now ≡ some p)
      × Coincides b c p
unfolding refund_input_of shares_of
quoted_refund now id db b r charge_id snapshot booked paid charged open_refund frozen =
    let (breakdown, computed, adds, room, equipment, bounded) =
      compute_refund_bounded snapshot.tiers (refund_input_of now b snapshot db)
        (parse_snapshot-parse_tiers b.policy_snapshot snapshot frozen) in
    let (answer, kept_row, kept_payment) =
      asks_for now id db b r charge_id snapshot breakdown booked paid charged open_refund frozen
        computed in
    let same =
      ap (Option.map (λ (s : PolicySnapshot). s.tiers))
        (parse_snapshot-same b.policy_snapshot snapshot frozen) in
    let input = refund_input (view_of b db) now snapshot.tiers in
    (
      _,
      as_preview (view_of b db) input breakdown,
      answer,
      preview_refund-compute_refund (view_of b db) now snapshot.tiers same
          ∙ ap (Option.map (as_preview (view_of b db) input)) computed,
      record {
        room = refl;
        equipment = refl;
        total = refl;
        tier = refl;
        lead_time = refl;
        forfeited = refl;
      },
    )
