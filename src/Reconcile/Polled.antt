-- ===== src/Reconcile/Polled.antt =====
-- A charge that the provider does not know: the poll of apps/api/src/payments/payments.service.ts
-- against apps/api/src/admin/reconciliation.service.ts.
use project_atrium.Base.{
  ℕ, ◌+◌, ◌*◌, ◌≤◌, ◌≡◌, refl, false, some, List, [], ◌∷◌, update_where, All-of, arith, Bool-cases,
  inl, inr,
}
use project_atrium.Store.Tables.{Booking, Payment, Database}
use project_atrium.Payments.Rows.{with_id}
use project_atrium.Payments.Settlement.{ProviderState, poll_charge, not_applied, unknown_charge}
use project_atrium.Store.Transaction.{ok}
use project_atrium.Reconcile.Checks.{Scope, Settled, is_charge_accepted}
use project_atrium.Reconcile.Joined.{AllJoined}

-- A row of this payment is not reported as an accepted charge with no outcome.
abbrev pub IsHidden : Scope → ℕ → ℕ → Settled → Type 0
IsHidden s now id r = r.payment.id ≡ id → is_charge_accepted s now r ≡ false

module _ (s : Scope) (polled now id : ℕ) (bs : List Booking)
    (soon : now ≤ polled + s.grace_seconds * 1000) where
  abbrev noted : Payment → Payment
  noted r = record r { failure_reason = some unknown_charge; updated_at = polled }

  IsHidden-rows :
      (ps : List Payment) → AllJoined s bs (IsHidden s now id) (update_where (with_id id) noted ps)
  unfolding is_charge_accepted
  IsHidden-rows [] = tt
  IsHidden-rows (p ∷ ps) = elim (Bool-cases (with_id id p)) [
    | inl hit ↦ rw hit ((λ w. All-of _ (λ b joined e. ground (arith, soon)) bs), IsHidden-rows ps)
    | inr miss ↦
        rw miss
          ((λ w. All-of _ (λ b joined e. absurd (ground (arith, miss, e))) bs), IsHidden-rows ps)
  ]

-- A charge that the provider does not know is hidden from the report by the very poll that finds
-- it. The poll applies nothing and stamps the payment's row, so that for as long after it as the
-- report grants, no row of that payment is taken for an accepted charge with no outcome.
pub poll_charge-hides :
    (s : Scope) (polled now charge_id : ℕ) (payment : Payment) (db : Database)
    → now ≤ polled + s.grace_seconds * 1000
    → let (answer, after) = poll_charge polled payment charge_id ProviderState.unknown db in
      (answer ≡ ok not_applied)
      × AllJoined s after.bookings (IsHidden s now payment.id) after.payments
unfolding poll_charge
poll_charge-hides s polled now charge_id payment db soon =
    (refl, IsHidden-rows s polled now payment.id db.bookings soon db.payments)
