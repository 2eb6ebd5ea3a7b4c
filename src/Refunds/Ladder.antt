-- ===== src/Refunds/Ladder.antt =====
-- The ladder of a policy that its schema accepts.
use project_atrium.Base.{
  ℕ, ◌≤◌, ◌≡◌, inl, inr, some, List, [], ◌∷◌, All, arith, true, All-map, Bool-cases, leb, subst,
  &&-split,
}
use project_atrium.Refunds.Policy.{
  Tier, is_tier, are_tiers, is_descending, ends_at_zero, parse_tiers, select_tier,
}

abbrev AtMost : ℕ → Tier → Type 0
AtMost n u = u.min_hours_before ≤ n

-- Below a rung of a descending ladder stand lower rungs only.
descending_below :
    (t : Tier) (ts : List Tier) → is_descending (t ∷ ts) ≡ true → All (AtMost t.min_hours_before) ts
unfolding is_descending
descending_below t [] h = tt
descending_below t (u ∷ ts) h = (
  ground arith,
  All-map (AtMost u.min_hours_before) (AtMost t.min_hours_before) ts (λ v k. ground arith)
      (descending_below u ts (ground arith)),
)

descending_tail :
    (t : Tier) (ts : List Tier) → is_descending (t ∷ ts) ≡ true → is_descending ts ≡ true
unfolding is_descending
descending_tail t [] h = ground arith
descending_tail t (u ∷ ts) h = ground arith

-- What `select_tier` should return: a tier whose threshold the lead time clears, such that no
-- tier with a higher threshold is cleared too.
abbrev pub IsBest : List Tier → ℕ → Tier → Type 0
IsBest ts hours t =
    (t.min_hours_before ≤ hours)
    × All (λ u. u.min_hours_before ≤ hours → u.min_hours_before ≤ t.min_hours_before) ts

select_tier-IsBest :
    (ts : List Tier) (hours : ℕ) (t : Tier)
    → is_descending ts ≡ true
    → select_tier ts hours ≡ some t
    → IsBest ts hours t
unfolding select_tier
select_tier-IsBest [] hours t d e = ground arith
select_tier-IsBest (u ∷ ts) hours t d e = elim (Bool-cases (leb u.min_hours_before hours)) [
  | inl hit ↦
      let same : u ≡ t = ground arith in
      let lower : All (λ v. v.min_hours_before ≤ hours → v.min_hours_before ≤ u.min_hours_before)
          ts =
        All-map (AtMost u.min_hours_before)
          (λ v. v.min_hours_before ≤ hours → v.min_hours_before ≤ u.min_hours_before) ts
          (λ v below _. below) (descending_below u ts d) in
      subst (IsBest (u ∷ ts) hours) same (ground arith, ((λ _. omega arith), lower))
  | inr miss ↦
      let best : IsBest ts hours t =
        select_tier-IsBest ts hours t (descending_tail u ts d) (rw miss at e) in
      (best.0, ((λ h. ground arith), best.1))
]

select_tier-total :
    (ts : List Tier) (hours : ℕ)
    → ends_at_zero ts ≡ true
    → (t : Tier) × (select_tier ts hours ≡ some t)
unfolding select_tier ends_at_zero
select_tier-total [] hours e = ground arith
select_tier-total (t ∷ []) hours e = (t, ground arith)
select_tier-total (t ∷ u ∷ ts) hours e = elim (Bool-cases (leb t.min_hours_before hours)) [
  | inl hit ↦ (t, rw hit)
  | inr miss ↦ rw miss (select_tier-total (u ∷ ts) hours e)
]

pub parse_tiers_tests :
    (raw ts : List Tier)
    → parse_tiers raw ≡ some ts
    → (raw ≡ ts) × (are_tiers ts ≡ true) × (is_descending ts ≡ true) × (ends_at_zero ts ≡ true)
unfolding parse_tiers
parse_tiers_tests raw ts e = ground arith

-- For a list of tiers that the schema accepts, and for every lead time, `select_tier` does not
-- throw, and the tier it returns has a threshold that the lead time clears, while no tier of the
-- list with a higher threshold is cleared.
pub select_tier-parse_tiers :
    (raw ts : List Tier) (hours : ℕ)
    → parse_tiers raw ≡ some ts
    → (t : Tier) × (select_tier ts hours ≡ some t) × IsBest ts hours t
select_tier-parse_tiers raw ts hours e =
    let (same, ranges, falls, ends) = parse_tiers_tests raw ts e in
    let (t, found) = select_tier-total ts hours ends in
    (t, found, select_tier-IsBest ts hours t falls found)

-- The percentages of the tier that is selected are at most 100.
pub select_tier-is_tier :
    (ts : List Tier) (hours : ℕ) (t : Tier)
    → are_tiers ts ≡ true
    → select_tier ts hours ≡ some t
    → (t.room_refund_pct ≤ 100) × (t.equipment_refund_pct ≤ 100)
unfolding select_tier are_tiers
select_tier-is_tier [] hours t a e = ground arith
select_tier-is_tier (u ∷ ts) hours t a e =
    let (head, tail) = &&-split (is_tier u) (are_tiers ts) a in
    ground (arith, head, tail, select_tier-is_tier ts hours t)
