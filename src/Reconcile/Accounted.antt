-- ===== src/Reconcile/Accounted.antt =====
-- apps/api/src/admin/reconciliation.service.ts: what the checks find, said without them.
use project_atrium.Base.{
  ℕ, ◌+◌, ◌*◌, ◌≤◌, ◌<◌, ◌≡◌, ◌≢◌, refl, ◌⊎◌, inl, inr, Bool, true, false, none, List, arith,
}
use project_atrium.Store.Status.{BookingStatus, confirmed, completed, pending, succeeded, refunded}
use project_atrium.Store.Tables.{PaymentEvent}
use project_atrium.Reconcile.Checks.{
  Scope, Settled, has_capture_event, is_unconfirmed, is_refund_of_nothing, is_refund_initiated,
  is_refund_accepted, is_charge_accepted, is_over_refunded,
}

-- More than the grace period has passed.
abbrev pub IsOld : Scope → ℕ → ℕ → Type 0
IsOld s now at = at + s.grace_seconds * 1000 < now

abbrev pub IsUsed : BookingStatus → Type 0
IsUsed b = (b ≡ confirmed) ⊎ (b ≡ completed)

-- The money of a payment is where it belongs, as the rows of the report's window should say.
pub record IsAccounted (s : Scope) (now : ℕ) (es : List PaymentEvent) (r : Settled) : Type 0 where
  -- What was captured pays for a booking that takes or took place, or is on its way back.
  pub capture_is_used :
      r.payment.status ≡ succeeded → IsOld s now r.payment.updated_at → IsUsed r.booking_status
  -- Only what was captured goes back.
  pub refund_was_captured :
      (r.payment.status ≡ refunded) ⊎ (0 < r.payment.refunded_minor)
      → has_capture_event es r.payment.charge_id ≡ true
  -- A refund that was begun has settled.
  pub refund_has_settled :
      (r.payment.refund_idempotency_key ≢ none) ⊎ (r.payment.refund_id ≢ none)
      → IsOld s now r.payment.updated_at
      → r.payment.status ≡ refunded
  -- A charge that the provider accepted has an outcome.
  pub charge_has_settled :
      r.payment.status ≡ pending → IsOld s now r.payment.updated_at → r.payment.charge_id ≡ none
  pub is_not_over_refunded : r.payment.refunded_minor ≤ r.payment.amount_minor

pub false_of : (b : Bool) → (b ≡ true → ⊥) → b ≡ false
false_of true h = absurd (h refl)
false_of false h = refl

module _ (s : Scope) (now : ℕ) (es : List PaymentEvent) (r : Settled) where
  confirmed_of :
      is_unconfirmed s now r ≡ false
      → r.payment.status ≡ succeeded
      → IsOld s now r.payment.updated_at
      → IsUsed r.booking_status
  unfolding is_unconfirmed
  confirmed_of h e old = ground (arith, h, e)

  refund_settled_of :
      is_refund_initiated s now r ≡ false
      → is_refund_accepted s now r ≡ false
      → (r.payment.refund_idempotency_key ≢ none) ⊎ (r.payment.refund_id ≢ none)
      → IsOld s now r.payment.updated_at
      → r.payment.status ≡ refunded
  unfolding is_refund_initiated is_refund_accepted
  refund_settled_of h k e old = ground (arith, h, k)

  charge_settled_of :
      is_charge_accepted s now r ≡ false
      → r.payment.status ≡ pending
      → IsOld s now r.payment.updated_at
      → r.payment.charge_id ≡ none
  unfolding is_charge_accepted
  charge_settled_of h e old = ground (arith, h, e)

  captured_of :
      is_refund_of_nothing es r ≡ false
      → (r.payment.status ≡ refunded) ⊎ (0 < r.payment.refunded_minor)
      → has_capture_event es r.payment.charge_id ≡ true
  unfolding is_refund_of_nothing
  captured_of h e = ground (arith, h)

  within_charge_of : is_over_refunded r ≡ false → r.payment.refunded_minor ≤ r.payment.amount_minor
  unfolding is_over_refunded
  within_charge_of h = ground (arith, h)

  -- The row passes every check on the joined payments.
  abbrev pub Passes : Type 0
  Passes =
      (is_unconfirmed s now r ≡ false)
      × (is_refund_of_nothing es r ≡ false)
      × (is_refund_initiated s now r ≡ false)
      × (is_refund_accepted s now r ≡ false)
      × (is_charge_accepted s now r ≡ false)
      × (is_over_refunded r ≡ false)

  pub Passes-IsAccounted : Passes → IsAccounted s now es r
  Passes-IsAccounted h = record {
    capture_is_used = confirmed_of h.0;
    refund_was_captured = captured_of h.1;
    refund_has_settled = refund_settled_of h.2 h.3;
    charge_has_settled = charge_settled_of h.4;
    is_not_over_refunded = within_charge_of h.5;
  }

  used_of : IsAccounted s now es r → is_unconfirmed s now r ≡ true → ⊥
  unfolding is_unconfirmed
  used_of a hit = ground (arith, hit, a.capture_is_used (ground (arith, hit)) (ground (arith, hit)))

  not_captured_of : IsAccounted s now es r → is_refund_of_nothing es r ≡ true → ⊥
  unfolding is_refund_of_nothing
  not_captured_of a hit =
      let backed : has_capture_event es r.payment.charge_id ≡ true =
        a.refund_was_captured (ground (arith, hit)) in
      ground (arith, hit, backed)

  initiated_of : IsAccounted s now es r → is_refund_initiated s now r ≡ true → ⊥
  unfolding is_refund_initiated
  initiated_of a hit =
      ground
        (arith, hit, a.refund_has_settled (inl (λ e. ground (arith, hit, e))) (ground (arith, hit)))

  accepted_of : IsAccounted s now es r → is_refund_accepted s now r ≡ true → ⊥
  unfolding is_refund_accepted
  accepted_of a hit =
      ground
        (arith, hit, a.refund_has_settled (inr (λ e. ground (arith, hit, e))) (ground (arith, hit)))

  unsettled_of : IsAccounted s now es r → is_charge_accepted s now r ≡ true → ⊥
  unfolding is_charge_accepted
  unsettled_of a hit =
      ground (arith, hit, a.charge_has_settled (ground (arith, hit)) (ground (arith, hit)))

  over_of : IsAccounted s now es r → is_over_refunded r ≡ true → ⊥
  unfolding is_over_refunded
  over_of a hit = ground (arith, hit, a.is_not_over_refunded)

  pub IsAccounted-Passes : IsAccounted s now es r → Passes
  IsAccounted-Passes a = (
    false_of _ (used_of a),
    false_of _ (not_captured_of a),
    false_of _ (initiated_of a),
    false_of _ (accepted_of a),
    false_of _ (unsettled_of a),
    false_of _ (over_of a),
  )
