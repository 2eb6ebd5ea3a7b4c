-- ===== src/Refunds/Policy.antt =====
-- apps/api/src/payments/refund-policy.ts, and `splitTotals` of
-- apps/api/src/payments/payments.service.ts.
--
-- Amounts are minor units (BigInt in the source, never negative here) and instants are
-- milliseconds. A lead time is kept in milliseconds, so that no division is rounded: the field
-- `min_hours_before` is the source's number of hours times 3 600 000. What zod reads from jsonb
-- is a list of tiers here; the refinements of the schemas are the tests below.
use project_atrium.Base.{
  ℕ, ◌+◌, ◌-◌, ◌*◌, ◌/◌, Bool, true, false, ◌&&◌, Option, none, some, List, [], ◌∷◌, ltb, leb, ◌==◌,
  if◌then◌else◌,
}

pub record Tier : Type 0 where
  pub min_hours_before : ℕ
  pub room_refund_pct : ℕ
  pub equipment_refund_pct : ℕ

pub data ResolvedFrom : Type 0 where
  venue platform : ResolvedFrom

pub record PolicySnapshot : Type 0 where
  pub tiers : List Tier
  pub policy_id : ℕ
  pub resolved_from : ResolvedFrom
  pub snapshot_at : ℕ

-- `TierSchema`
unfoldable pub is_tier : Tier → Bool
is_tier t = leb t.room_refund_pct 100 && leb t.equipment_refund_pct 100

-- `z.array(TierSchema)`
unfoldable pub are_tiers : List Tier → Bool
unfolding is_tier
are_tiers [] = true
are_tiers (t ∷ ts) = is_tier t && are_tiers ts

-- The first refinement: strictly descending.
unfoldable pub is_descending : List Tier → Bool
is_descending [] = true
is_descending (t ∷ []) = true
is_descending (t ∷ u ∷ ts) = ltb u.min_hours_before t.min_hours_before && is_descending (u ∷ ts)

-- The second refinement, with `min(1)`: there is a last tier, and it starts at zero hours.
unfoldable pub ends_at_zero : List Tier → Bool
ends_at_zero [] = false
ends_at_zero (t ∷ []) = t.min_hours_before == 0
ends_at_zero (t ∷ u ∷ ts) = ends_at_zero (u ∷ ts)

-- `TiersSchema`; `none` is a refusal.
unfoldable pub parse_tiers : List Tier → Option (List Tier)
unfolding are_tiers is_descending ends_at_zero
parse_tiers ts = if are_tiers ts && is_descending ts && ends_at_zero ts then some ts else none

-- `parseSnapshot`, of a column that may be NULL.
unfoldable pub parse_snapshot : Option PolicySnapshot → Option PolicySnapshot
unfolding parse_tiers
parse_snapshot none = none
parse_snapshot (some s) = elim (parse_tiers s.tiers) [ none ↦ none | some _ ↦ some s ]

-- `selectTier`; `none` is the throw behind the loop.
unfoldable pub select_tier : List Tier → ℕ → Option Tier
select_tier [] hours_before = none
select_tier (t ∷ ts) hours_before =
    if leb t.min_hours_before hours_before then some t else select_tier ts hours_before

pub record RefundInput : Type 0 where
  pub room_minor : ℕ
  pub equipment_minor : ℕ
  pub tiers : List Tier
  pub starts_at : ℕ
  pub at : ℕ

pub record RefundBreakdown : Type 0 where
  pub hours_before : ℕ
  pub tier : Tier
  pub room_refund_minor : ℕ
  pub equipment_refund_minor : ℕ
  pub total_refund_minor : ℕ

-- The body of `computeRefund` behind the choice of the tier.
unfoldable pub refund_at : RefundInput → ℕ → Tier → RefundBreakdown
refund_at input hours_before tier =
    let room_refund = input.room_minor * tier.room_refund_pct / 100 in
    let equipment_refund = input.equipment_minor * tier.equipment_refund_pct / 100 in
    record {
      hours_before = hours_before;
      tier = tier;
      room_refund_minor = room_refund;
      equipment_refund_minor = equipment_refund;
      total_refund_minor = room_refund + equipment_refund;
    }

-- `computeRefund`. The subtraction stops at 0, as `Math.max(0, …)` does.
unfoldable pub compute_refund : RefundInput → Option RefundBreakdown
unfolding select_tier refund_at
compute_refund input =
    let hours_before = input.starts_at - input.at in
    elim (select_tier input.tiers hours_before) [
      | none ↦ none
      | some tier ↦ some (refund_at input hours_before tier)
    ]

-- A row of `booking_line_items`.
pub record LineItem : Type 0 where
  pub booking_id : ℕ
  pub equipment_type_id : ℕ
  pub quantity : ℕ
  pub rate_minor : ℕ

-- `Math.round((ends - starts) / 3 600 000 * 2)`, the length in half hours.
unfoldable pub half_hours : ℕ → ℕ → ℕ
half_hours starts_at ends_at = (ends_at - starts_at + 900000) / 1800000

unfoldable pub equipment_share : ℕ → List LineItem → ℕ
equipment_share halves [] = 0
equipment_share halves (li ∷ lis) =
    halves * li.rate_minor * li.quantity / 2 + equipment_share halves lis

-- `splitTotals`: the room's share and the equipment's. The room's share stops at 0.
unfoldable pub split_totals : ℕ → ℕ → ℕ → List LineItem → ℕ × ℕ
unfolding half_hours equipment_share
split_totals total_minor starts_at ends_at items =
    let equipment_minor = equipment_share (half_hours starts_at ends_at) items in
    (total_minor - equipment_minor, equipment_minor)
