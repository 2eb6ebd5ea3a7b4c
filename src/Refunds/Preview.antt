-- ===== src/Refunds/Preview.antt =====
-- apps/web/lib/refund.ts: the estimate the console shows before a cancellation, over the fields
-- of the booking that it reads.
use project_atrium.Base.{
  ℕ, ◌+◌, ◌-◌, ◌*◌, ◌/◌, ◌≡◌, refl, ap, ◌∙◌, Option, none, some, List, [], ◌∷◌, leb, if◌then◌else◌,
  ℤ, sub_ℕ, arith,
}
use mathlib.Core.Option
use project_atrium.Refunds.Policy
use project_atrium.Refunds.Policy.{
  Tier, RefundInput, RefundBreakdown, LineItem, parse_tiers, refund_at, compute_refund, half_hours,
  equipment_share,
}

-- `booking.policy_snapshot?.tiers` and the rest of what `previewRefund` reads.
pub record BookingView : Type 0 where
  pub tiers : Option (List Tier)
  pub starts_at : ℕ
  pub ends_at : ℕ
  pub total_minor : ℕ
  pub line_items : List LineItem

pub record RefundPreview : Type 0 where
  pub hours_before : ℕ
  pub tier : Tier
  pub room_minor : ℕ
  pub equipment_minor : ℕ
  pub room_refund_minor : ℕ
  pub equipment_refund_minor : ℕ
  pub total_refund_minor : ℕ
  pub forfeited_minor : ℤ

-- The console's own `selectTier`; `none` is its `null`.
unfoldable pub select_tier : List Tier → ℕ → Option Tier
select_tier [] hours_before = none
select_tier (t ∷ ts) hours_before =
    if leb t.min_hours_before hours_before then some t else select_tier ts hours_before

-- The `reduce` of the console's `splitTotals`.
unfoldable pub sum_items : ℕ → ℕ → List LineItem → ℕ
sum_items halves acc [] = acc
sum_items halves acc (item ∷ items) =
    sum_items halves (acc + halves * item.rate_minor * item.quantity / 2) items

-- The console's own `splitTotals`: the room's share and the equipment's.
unfoldable pub split_totals : BookingView → ℕ × ℕ
unfolding sum_items
split_totals b =
    let halves = (b.ends_at - b.starts_at + 900000) / 1800000 in
    let equipment_minor = sum_items halves 0 b.line_items in
    (b.total_minor - equipment_minor, equipment_minor)

-- `previewRefund`, behind its test for an absent or empty ladder.
unfoldable pub preview_tiers : BookingView → ℕ → List Tier → Option RefundPreview
preview_tiers b at tiers =
    let hours_before = b.starts_at - at in
    elim (select_tier tiers hours_before) [
      | none ↦ none
      | some tier ↦
          let (room_minor, equipment_minor) = split_totals b in
          let room_refund = room_minor * tier.room_refund_pct / 100 in
          let equipment_refund = equipment_minor * tier.equipment_refund_pct / 100 in
          some (record {
            hours_before = hours_before;
            tier = tier;
            room_minor = room_minor;
            equipment_minor = equipment_minor;
            room_refund_minor = room_refund;
            equipment_refund_minor = equipment_refund;
            total_refund_minor = room_refund + equipment_refund;
            forfeited_minor = sub_ℕ b.total_minor (room_refund + equipment_refund);
          })
    ]

preview_ladder : BookingView → ℕ → Option (List Tier) → Option RefundPreview
unfolding preview_tiers
preview_ladder b at none = none
preview_ladder b at (some []) = none
preview_ladder b at (some (t ∷ ts)) = preview_tiers b at (t ∷ ts)

unfoldable pub preview_refund : BookingView → ℕ → Option RefundPreview
unfolding preview_ladder
preview_refund b at = preview_ladder b at b.tiers

-- What the API hands to `compute_refund` for the same booking.
abbrev pub refund_input : BookingView → ℕ → List Tier → RefundInput
refund_input b at tiers =
    let (room_minor, equipment_minor) =
      Policy.split_totals b.total_minor b.starts_at b.ends_at b.line_items in
    record {
      room_minor = room_minor;
      equipment_minor = equipment_minor;
      tiers = tiers;
      starts_at = b.starts_at;
      at = at;
    }

-- The API's breakdown as the console lays it out.
abbrev pub as_preview : BookingView → RefundInput → RefundBreakdown → RefundPreview
as_preview b input r = record {
  hours_before = r.hours_before;
  tier = r.tier;
  room_minor = input.room_minor;
  equipment_minor = input.equipment_minor;
  room_refund_minor = r.room_refund_minor;
  equipment_refund_minor = r.equipment_refund_minor;
  total_refund_minor = r.total_refund_minor;
  forfeited_minor = sub_ℕ b.total_minor r.total_refund_minor;
}

select_tier-agrees : (ts : List Tier) (h : ℕ) → select_tier ts h ≡ Policy.select_tier ts h
unfolding select_tier Policy.select_tier
select_tier-agrees [] h = refl
select_tier-agrees (t ∷ ts) h = ground (arith, select_tier-agrees ts h)

sum_items-equipment_share :
    (halves acc : ℕ) (items : List LineItem)
    → sum_items halves acc items ≡ acc + equipment_share halves items
unfolding sum_items equipment_share
sum_items-equipment_share halves acc [] = omega arith
sum_items-equipment_share halves acc (li ∷ lis) =
    omega
      (arith, sum_items-equipment_share halves (acc + halves * li.rate_minor * li.quantity / 2) lis)

split_totals-agrees :
    (b : BookingView)
    → split_totals b ≡ Policy.split_totals b.total_minor b.starts_at b.ends_at b.line_items
unfolding split_totals Policy.split_totals
split_totals-agrees b =
    rw (sum_items-equipment_share (half_hours b.starts_at b.ends_at) 0 b.line_items) (ground arith)

preview_tiers-agrees :
    (b : BookingView) (at : ℕ) (tiers : List Tier)
    → preview_tiers b at tiers
      ≡ Option.map
          (as_preview b (refund_input b at tiers))
          (compute_refund (refund_input b at tiers))
unfolding preview_tiers compute_refund
preview_tiers-agrees b at tiers =
    ground (arith, select_tier-agrees tiers (b.starts_at - at), split_totals-agrees b)

preview_ladder-agrees :
    (b : BookingView) (at : ℕ) (tiers : List Tier)
    → preview_ladder b at (some tiers)
      ≡ Option.map
          (as_preview b (refund_input b at tiers))
          (compute_refund (refund_input b at tiers))
unfolding preview_ladder compute_refund
preview_ladder-agrees b at [] = refl
preview_ladder-agrees b at (t ∷ ts) = preview_tiers-agrees b at (t ∷ ts)

-- The estimate of a ladder is what `compute_refund` makes of it, whatever the ladder; `none` is the
-- console's null and the API's throw.
pub preview_refund-compute_refund :
    (b : BookingView) (at : ℕ) (tiers : List Tier)
    → b.tiers ≡ some tiers
    → preview_refund b at
      ≡ Option.map
          (as_preview b (refund_input b at tiers))
          (compute_refund (refund_input b at tiers))
unfolding preview_refund
preview_refund-compute_refund b at tiers e =
    ap (preview_ladder b at) e ∙ preview_ladder-agrees b at tiers
