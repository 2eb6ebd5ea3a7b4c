-- ===== src/Rooms/Offered.antt =====
-- apps/api/src/rooms/availability.service.ts: which slots `enumerate` offers.
use project_atrium.Base.{
  ◌==◌, ==_refl, subst, ℕ, zero, suc, ◌+◌, ◌-◌, ◌*◌, ◌/◌, ◌%◌, ◌≤◌, ◌<◌, ◌≡◌, refl, sym, Bool, true,
  false, not, ◌&&◌, ◌⊎◌, inl, inr, List, [], ◌∷◌, ◌++◌, leb, if◌then◌else◌, any_of, Bool-cases, All,
  All-map, arith,
}
use project_atrium.Rooms.Zones.{add_minutes}
use project_atrium.Rooms.Hours.{OpenWindow}
use project_atrium.Rooms.Availability.{
  Range, FreeSlot, free_slot, is_blocked, is_past, scan, first_cursor, rounds, enumerate,
  ceil_to_grid,
}

-- Why a slot is offered in a window.
pub record IsOffer (r : Range) (w : OpenWindow) (s : FreeSlot) : Type 0 where
  pub on_grid : s.starts_at % 1800000 ≡ 0
  pub within : (w.opens_at ≤ s.starts_at) × (s.ends_at ≤ w.closes_at)
  pub asked : (r.from ≤ s.starts_at) × (s.ends_at ≤ r.to)
  pub length : s.ends_at ≡ add_minutes s.starts_at r.duration_minutes
  pub early : r.earliest ≤ s.starts_at
  pub free : is_blocked r s.starts_at ≡ false

module _ (r : Range) (w : OpenWindow) where
  unless-IsOffer :
      (c : Bool) (slots : List FreeSlot)
      → All (IsOffer r w) slots
      → All (IsOffer r w) (if c then [] else slots)
  unless-IsOffer true slots h = tt
  unless-IsOffer false slots h = h

  slot-IsOffer :
      (cursor : ℕ)
      → cursor % 1800000 ≡ 0
      → w.opens_at ≤ cursor
      → r.from ≤ cursor
      → is_past r w cursor ≡ false
      → (not (is_blocked r cursor) && leb r.earliest cursor) ≡ true
      → IsOffer r w (free_slot r cursor)
  slot-IsOffer cursor grid opened asked here offered = record {
    on_grid = grid;
    within = (opened, ground (arith, here));
    asked = (asked, ground (arith, here));
    length = refl;
    early = ground (arith, offered);
    free = ground (arith, offered);
  }

  scan-IsOffer :
      (fuel cursor : ℕ)
      → cursor % 1800000 ≡ 0
      → w.opens_at ≤ cursor
      → r.from ≤ cursor
      → All (IsOffer r w) (scan fuel r w cursor)
  unfolding scan
  scan-IsOffer zero cursor grid opened asked = tt
  scan-IsOffer (suc fuel) cursor grid opened asked =
      let others = unless-IsOffer (leb w.closes_at (add_minutes cursor 30)) _ (
        scan-IsOffer fuel (add_minutes cursor 30) (omega (arith, grid)) (omega (arith, opened))
          (omega (arith, asked))) in
      elim (Bool-cases (is_past r w cursor)) [
        | inl past ↦ rw past tt
        | inr here ↦ elim (Bool-cases (not (is_blocked r cursor) && leb r.earliest cursor)) [
          | inl offered ↦
              rw (here, offered) (slot-IsOffer cursor grid opened asked here offered, others)
          | inr skipped ↦ rw (here, skipped) others
        ]
      ]

-- The first boundary at or after an instant.
ceil_to_grid-le : (t : ℕ) → t ≤ ceil_to_grid t 1800000
ceil_to_grid-le t = omega arith

ceil_to_grid-mod : (t : ℕ) → ceil_to_grid t 1800000 % 1800000 ≡ 0
ceil_to_grid-mod t = omega arith

first_cursor-le :
    (r : Range) (w : OpenWindow) → (w.opens_at ≤ first_cursor r w) × (r.from ≤ first_cursor r w)
first_cursor-le r w = (
  ground (arith, ceil_to_grid-le w.opens_at, ceil_to_grid-le r.from),
  ground (arith, ceil_to_grid-le w.opens_at, ceil_to_grid-le r.from),
)

-- A slot is offered in one of the windows.
abbrev pub IsOfferIn : Range → List OpenWindow → FreeSlot → Type 0
IsOfferIn r [] s = ⊥
IsOfferIn r (w ∷ ws) s = IsOffer r w s ⊎ IsOfferIn r ws s

All-join {ℓ κ} :
    {A : Type ℓ} (P : A → Type κ) (xs ys : List A) → All P xs → All P ys → All P (xs ++ ys)
All-join P [] ys h k = k
All-join P (x ∷ xs) ys h k = (h.0, All-join P xs ys h.1 k)

-- Every slot that is offered starts on a half hour, no earlier than `from` and than the lead time
-- allows, and has the duration asked for; it lies in one of the open windows and ends by `to`; and
-- the slot with its turnaround meets no busy interval.
pub enumerate-IsOffer :
    (r : Range) (windows : List OpenWindow) → All (IsOfferIn r windows) (enumerate r windows)
unfolding enumerate
enumerate-IsOffer r [] = tt
enumerate-IsOffer r (w ∷ ws) =
    All-join _ (scan (rounds w (first_cursor r w)) r w (first_cursor r w)) (enumerate r ws)
      (All-map (IsOffer r w) _ (scan (rounds w (first_cursor r w)) r w (first_cursor r w))
        (λ s h. inl h)
        (scan-IsOffer r w (rounds w (first_cursor r w)) (first_cursor r w) (ceil_to_grid-mod _)
          (first_cursor-le r w).0 (first_cursor-le r w).1))
      (All-map (IsOfferIn r ws) _ (enumerate r ws) (λ s h. inr h) (enumerate-IsOffer r ws))

abbrev pub is_same : FreeSlot → FreeSlot → Bool
is_same s t = (s.starts_at == t.starts_at) && (s.ends_at == t.ends_at)

module _ (r : Range) (w : OpenWindow) (t : ℕ) where
  fits_before : (cursor : ℕ) → is_past r w t ≡ false → cursor ≤ t → is_past r w cursor ≡ false
  fits_before cursor here before = ground (arith, here, before)

  not_closed :
      (cursor : ℕ)
      → is_past r w t ≡ false
      → 0 < r.duration_minutes
      → cursor ≤ t
      → leb w.closes_at cursor ≡ false
  not_closed cursor here long before = ground (arith, here, long, before)

  abbrev Shows : List FreeSlot → Type 0
  Shows slots = any_of (is_same (free_slot r t)) slots ≡ true

  Shows-later : (s : FreeSlot) (slots : List FreeSlot) → Shows slots → Shows (s ∷ slots)
  Shows-later s slots h = ground (arith, h)

  module _ (long : 0 < r.duration_minutes) (here : is_past r w t ≡ false)
      (offered : (not (is_blocked r t) && leb r.earliest t) ≡ true) where
    at_once : (fuel : ℕ) → Shows (scan (suc fuel) r w t)
    unfolding scan
    at_once fuel =
        rw (here, offered) (ground (arith, ==_refl t, ==_refl (add_minutes t r.duration_minutes)))

    -- The loop reaches each later boundary at which a slot still fits.
    scan-Shows :
        (fuel k cursor : ℕ) → k < fuel → t ≡ cursor + k * 1800000 → Shows (scan fuel r w cursor)
    unfolding scan
    scan-Shows zero k cursor enough e = ground (arith, enough)
    scan-Shows (suc fuel) zero cursor enough e =
        subst (λ c. Shows (scan (suc fuel) r w c)) (omega (arith, e)) (at_once fuel)
    scan-Shows (suc fuel) (suc k) cursor enough e =
        let later =
          scan-Shows fuel k (add_minutes cursor 30) (omega (arith, enough)) (omega (arith, e)) in
        elim (Bool-cases (not (is_blocked r cursor) && leb r.earliest cursor)) [
          | inl now ↦
              rw
                (
                  fits_before cursor here (omega (arith, e)),
                  now,
                  not_closed (add_minutes cursor 30) here long (omega (arith, e)),
                )
                (Shows-later (free_slot r cursor) (scan fuel r w (add_minutes cursor 30)) later)
          | inr skipped ↦
              rw
                (
                  fits_before cursor here (omega (arith, e)),
                  skipped,
                  not_closed (add_minutes cursor 30) here long (omega (arith, e)),
                )
                later
        ]

steps_to :
    (c t : ℕ) → c % 1800000 ≡ 0 → t % 1800000 ≡ 0 → c ≤ t → t ≡ c + ((t - c) / 1800000) * 1800000
steps_to c t gc gt before = omega (arith, gc, gt, before)

steps_within : (c t end : ℕ) → t ≤ end → (t - c) / 1800000 < suc ((end - c) / 1800000)
steps_within c t end h = omega (arith, h)

ceil_to_grid-least : (x t : ℕ) → t % 1800000 ≡ 0 → x ≤ t → ceil_to_grid x 1800000 ≤ t
ceil_to_grid-least x t grid h = omega (arith, grid, h)

first_cursor-least :
    (r : Range) (w : OpenWindow) (t : ℕ)
    → t % 1800000 ≡ 0
    → w.opens_at ≤ t
    → r.from ≤ t
    → first_cursor r w ≤ t
first_cursor-least r w t grid opened asked =
    ground
      (arith, ceil_to_grid-least w.opens_at t grid opened, ceil_to_grid-least r.from t grid asked)

scan_complete :
    (r : Range) (w : OpenWindow) (s : FreeSlot)
    → 0 < r.duration_minutes
    → IsOffer r w s
    → any_of (is_same s) (scan (rounds w (first_cursor r w)) r w (first_cursor r w)) ≡ true
scan_complete r w s long h =
    let t = s.starts_at in
    let c = first_cursor r w in
    let before = first_cursor-least r w t h.on_grid h.within.0 h.asked.0 in
    subst
      (λ e.
        any_of (is_same (record { starts_at = t; ends_at = e })) (scan (rounds w c) r w c) ≡ true)
      (sym h.length)
      (scan-Shows r w t long (ground (arith, h.within.1, h.asked.1, h.length))
        (ground (arith, h.free, h.early)) (rounds w c) ((t - c) / 1800000) c
        (steps_within c t w.closes_at (omega (arith, h.within.1, h.length)))
        (steps_to c t (ceil_to_grid-mod _) h.on_grid before))

any_of-join :
    (p : FreeSlot → Bool) (xs ys : List FreeSlot)
    → (any_of p xs ≡ true) ⊎ (any_of p ys ≡ true)
    → any_of p (xs ++ ys) ≡ true
any_of-join p [] ys (inr h) = h
any_of-join p [] ys (inl h) = ground (arith, h)
any_of-join p (x ∷ xs) ys (inl h) = elim (Bool-cases (p x)) [
  | inl hit ↦ ground (arith, hit)
  | inr miss ↦ ground (arith, miss, any_of-join p xs ys (inl (ground (arith, h, miss))))
]
any_of-join p (x ∷ xs) ys (inr h) = ground (arith, any_of-join p xs ys (inr h))

-- For a duration that is not 0, every slot that starts on a half hour, no earlier than `from` and
-- than the lead time allows, has the duration asked for, lies in one of the windows, ends by `to`,
-- and meets with its turnaround no busy interval, is offered.
pub enumerate_complete :
    (r : Range) (windows : List OpenWindow) (s : FreeSlot)
    → 0 < r.duration_minutes
    → IsOfferIn r windows s
    → any_of (is_same s) (enumerate r windows) ≡ true
unfolding enumerate
enumerate_complete r [] s long h = absurd h
enumerate_complete r (w ∷ ws) s long (inl h) =
    any_of-join (is_same s) _ (enumerate r ws) (inl (scan_complete r w s long h))
enumerate_complete r (w ∷ ws) s long (inr h) =
    any_of-join (is_same s) _ (enumerate r ws) (inr (enumerate_complete r ws s long h))
