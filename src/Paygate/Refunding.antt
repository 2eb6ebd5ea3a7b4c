-- ===== src/Paygate/Refunding.antt =====
-- apps/paygate/src/ledger/postgres.ts: the outcomes of `openRefund`, and what a refusal leaves.
use project_atrium.Base.{
  ℕ, ◌+◌, ◌≡◌, refl, sym, ap, ◌∙◌, Bool, true, false, not, inl, inr, Option, none, some, [], ◌∷◌,
  ◌++◌, ltb, Bool-cases, if◌then◌else◌, any_of, update_where, ==_refl, arith,
}
use project_atrium.Paygate.Types.{
  Fingerprint, hash, imported, is_fingerprint, is_succeeded, OpenRefundResult, Refund,
  OpenRefundInput, returned, threw,
}
use project_atrium.Paygate.Tables.{
  pure, ChargeRow, PostgresLedger, with_id, Query, refuses_refund, insert_refund, is_over, reserve,
  reserve_amount,
}
use project_atrium.Paygate.Postgres.{new_refund, record_refund, refund_charge}

-- A refund that is inserted and reserved.
abbrev pub with_refund : Refund → ℕ → ℕ → PostgresLedger → PostgresLedger
with_refund r id amount p = record p {
  refunds = p.refunds ++ (r ∷ []);
  charges = update_where (with_id id) (reserve amount) p.charges;
}

module _ (id now : ℕ) (input : OpenRefundInput) (charge : ChargeRow) (p : PostgresLedger) where
  pub outcome_refused :
      refuses_refund (new_refund id now input charge) p ≡ true
      → record_refund id now input charge p ≡ (threw, p)
  unfolding record_refund insert_refund
  outcome_refused refused = ground (arith, refused)

  pub outcome_over :
      refuses_refund (new_refund id now input charge) p ≡ false
      → any_of (is_over charge.id input.amount_minor) p.charges ≡ true
      → record_refund id now input charge p
        ≡ (threw, record p { refunds = p.refunds ++ (new_refund id now input charge ∷ []) })
  unfolding record_refund insert_refund reserve_amount
  outcome_over taken over = ground (arith, taken, over)

  pub outcome_recorded :
      refuses_refund (new_refund id now input charge) p ≡ false
      → any_of (is_over charge.id input.amount_minor) p.charges ≡ false
      → record_refund id now input charge p ≡ (
        returned (OpenRefundResult.created (new_refund id now input charge)),
        with_refund (new_refund id now input charge) charge.id input.amount_minor p,
      )
  unfolding record_refund insert_refund reserve_amount
  outcome_recorded taken fits = ground (arith, taken, fits)

pub fingerprint_refl : (f : Fingerprint) → is_fingerprint f f ≡ true
fingerprint_refl (hash h) = ==_refl h
fingerprint_refl imported = refl

-- The answers that refuse a refund.
abbrev pub is_refusal : OpenRefundResult → Bool
is_refusal (OpenRefundResult.created r) = false
is_refusal (OpenRefundResult.replayed r s) = false
is_refusal OpenRefundResult.fingerprint_mismatch = false
is_refusal OpenRefundResult.unknown_charge = true
is_refusal (OpenRefundResult.not_refundable s) = true
is_refusal (OpenRefundResult.exceeds_charge m n) = true

module _ (id now : ℕ) (input : OpenRefundInput) (p : PostgresLedger) (a : OpenRefundResult)
    (p1 : PostgresLedger) where
  record_refused :
      (charge : ChargeRow)
      → is_refusal a ≡ true
      → record_refund id now input charge p ≡ (returned a, p1)
      → p1 ≡ p
  record_refused charge refusal e =
      elim (Bool-cases (refuses_refund (new_refund id now input charge) p)) [
        | inl refused ↦ ground (arith, sym e ∙ outcome_refused id now input charge p refused)
        | inr taken ↦ elim (Bool-cases (any_of (is_over charge.id input.amount_minor) p.charges)) [
          | inl over ↦ ground (arith, sym e ∙ outcome_over id now input charge p taken over)
          | inr fits ↦
              ground (arith, refusal, sym e ∙ outcome_recorded id now input charge p taken fits)
        ]
      ]

  if_refused :
      (b : Bool) (m n : Query OpenRefundResult)
      → (m p ≡ (returned a, p1) → p1 ≡ p)
      → (n p ≡ (returned a, p1) → p1 ≡ p)
      → (if b then m else n) p ≡ (returned a, p1)
      → p1 ≡ p
  if_refused true m n hm hn e = hm e
  if_refused false m n hm hn e = hn e

  -- A refusal writes nothing beyond the claim.
  pub charge_refused :
      (o : Option ChargeRow)
      → is_refusal a ≡ true
      → refund_charge id now input o p ≡ (returned a, p1)
      → p1 ≡ p
  unfolding refund_charge
  charge_refused none refusal e = ground (arith, e)
  charge_refused (some c) refusal e =
      if_refused (not c.materialised) (pure _) _ stays
        (if_refused (not (is_succeeded c.status)) (pure _) _ stays (
          if_refused (ltb c.amount_minor (c.refunded_minor + input.amount_minor)) (pure _) _ stays
            (record_refused c refusal)))
        e
    where
      stays : {b : OpenRefundResult} → pure b p ≡ (returned a, p1) → p1 ≡ p
      stays e = sym (ap (λ x. x.1) e)
