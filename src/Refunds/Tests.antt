-- ===== src/Refunds/Tests.antt =====
-- The theorems on refunds at concrete bookings.
use project_atrium.Base.{◌+◌, ◌≤◌, ◌≡◌, refl, some}
use project_atrium.Samples.{ladder}
use project_atrium.Refunds.Policy.{
  Tier, RefundInput, RefundBreakdown, parse_tiers, select_tier, compute_refund,
}
use project_atrium.Refunds.Ladder.{IsBest, select_tier-parse_tiers}
use project_atrium.Refunds.Amounts.{compute_refund_bounded}

select_tier-parse_tiers_example :
    (t : Tier) × (select_tier ladder 90000000 ≡ some t) × IsBest ladder 90000000 t
unfolding parse_tiers
select_tier-parse_tiers_example = select_tier-parse_tiers ladder ladder 90000000 refl

abbrev a_day_before : RefundInput
a_day_before = record {
  room_minor = 4000;
  equipment_minor = 600;
  tiers = ladder;
  starts_at = 300000000;
  at = 210000000;
}

compute_refund_bounded_example :
    (r : RefundBreakdown) × (compute_refund a_day_before ≡ some r)
    × (r.room_refund_minor + r.equipment_refund_minor ≡ r.total_refund_minor)
    × (r.room_refund_minor ≤ 4000)
    × (r.equipment_refund_minor ≤ 600)
    × (r.total_refund_minor ≤ 4600)
unfolding parse_tiers
compute_refund_bounded_example = compute_refund_bounded ladder a_day_before refl
