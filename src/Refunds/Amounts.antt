-- ===== src/Refunds/Amounts.antt =====
-- What `compute_refund` returns against what was captured.
use project_atrium.Base.{ℕ, ◌+◌, ◌-◌, ◌*◌, ◌/◌, ◌≤◌, ◌≡◌, refl, some, List, arith}
use project_atrium.Refunds.Policy.{
  Tier, RefundInput, RefundBreakdown, parse_tiers, refund_at, compute_refund,
}
use project_atrium.Refunds.Ladder.{parse_tiers_tests, select_tier-parse_tiers, select_tier-is_tier}

-- A share of at most 100 percent, rounded down, is at most the whole.
pub pct_le : (x p : ℕ) → p ≤ 100 → x * p / 100 ≤ x
pct_le x p h = grind arith

refund_at_le :
    (input : RefundInput) (hours : ℕ) (t : Tier)
    → t.room_refund_pct ≤ 100
    → t.equipment_refund_pct ≤ 100
    → (refund_at input hours t).total_refund_minor ≤ input.room_minor + input.equipment_minor
unfolding refund_at
refund_at_le input hours t r e = omega (
  arith,
  pct_le input.room_minor t.room_refund_pct r,
  pct_le input.equipment_minor t.equipment_refund_pct e,
)

-- For a list of tiers that the schema accepts, a refund is always computed, at any instant
-- before or after the start; its two parts add up to its total, neither part exceeds its share,
-- and the total does not exceed the two shares together.
pub compute_refund_bounded :
    (raw : List Tier) (input : RefundInput)
    → parse_tiers raw ≡ some input.tiers
    → (r : RefundBreakdown) × (compute_refund input ≡ some r)
      × (r.room_refund_minor + r.equipment_refund_minor ≡ r.total_refund_minor)
      × (r.room_refund_minor ≤ input.room_minor)
      × (r.equipment_refund_minor ≤ input.equipment_minor)
      × (r.total_refund_minor ≤ input.room_minor + input.equipment_minor)
unfolding compute_refund
compute_refund_bounded raw input e =
    let hours = input.starts_at - input.at in
    let (t, found, best) = select_tier-parse_tiers raw input.tiers hours e in
    let (same, ranges, falls, ends) = parse_tiers_tests raw input.tiers e in
    let (room, equipment) = select_tier-is_tier input.tiers hours t ranges found in
    (
      refund_at input hours t,
      rw (found, compute_refund),
      unfold refund_at in refl,
      unfold refund_at in pct_le input.room_minor t.room_refund_pct room,
      unfold refund_at in pct_le input.equipment_minor t.equipment_refund_pct equipment,
      refund_at_le input hours t room equipment,
    )
