-- ===== src/Paygate/Shares.antt =====
-- apps/paygate/src/ledger/postgres.ts: what is refunded, reserved and taken of a charge, and the
-- statements that leave the three in their order.
use project_atrium.Base.{
  ℕ, ◌≤◌, ◌≡◌, refl, ◌⊎◌, ap, ◌∙◌, ==→eq, Bool, true, false, List, [], ◌∷◌, ◌==◌, Bool-cases,
  if◌then◌else◌, inl, inr, any_of, any_of-append, any_of-update_where, sum_by, All, All-map,
  All-append, All-update_where_cases, arith,
}
use project_atrium.Paygate.Types.{Refund}
use project_atrium.Paygate.Tables.{
  ChargeRow, PostgresLedger, with_id, Query, breaks_check, is_taken_by, insert_charge,
  update_charges,
}
use project_atrium.Paygate.Keeps.{Keeps}

-- The amounts of a charge's refunds.
abbrev pub share_of : ℕ → Refund → ℕ
share_of id r = if r.charge_id == id then r.amount_minor else 0

abbrev pub given_back : ℕ → List Refund → ℕ
given_back id refunds = sum_by (share_of id) refunds

abbrev pub HasCharge : List ChargeRow → Refund → Type 0
HasCharge charges r = any_of (with_id r.charge_id) charges ≡ true

abbrev pub IsWithin : List Refund → ChargeRow → Type 0
IsWithin refunds c =
    (given_back c.id refunds ≤ c.refunded_minor) × (c.refunded_minor ≤ c.amount_minor)

-- Every refund is of a charge that is there, and no charge has more handed back than is reserved
-- on its row, nor more reserved than was taken.
pub record IsCovered (p : PostgresLedger) : Type 0 where
  pub linked : All (HasCharge p.charges) p.refunds
  pub within : All (IsWithin p.refunds) p.charges

pub aside-IsCovered {ℓ} :
    {A : Type ℓ} (m : Query A)
    → ((p : PostgresLedger) → ((m p).1.charges ≡ p.charges) × ((m p).1.refunds ≡ p.refunds))
    → Keeps IsCovered m
aside-IsCovered m same = record {
  keep = λ p h. record {
    linked = rw ((same p).0, (same p).1) h.linked;
    within = rw ((same p).0, (same p).1) h.within;
  };
}

-- An update of columns that are no amounts.
pub update-IsCovered :
    (q : ChargeRow → Bool) (f : ChargeRow → ChargeRow)
    → ((c : ChargeRow)
        → ((f c).id ≡ c.id)
          × ((f c).refunded_minor ≡ c.refunded_minor)
          × ((f c).amount_minor ≡ c.amount_minor))
    → Keeps IsCovered (update_charges q f)
update-IsCovered q f same = record {
  keep = λ p h. record {
    linked =
        All-map (HasCharge p.charges) _ p.refunds
          (λ r there.
            any_of-update_where q (with_id r.charge_id) f p.charges (λ c. rw (same c).0 refl)
            ∙ there)
          h.linked;
    within =
        All-update_where_cases (IsWithin p.refunds) (IsWithin p.refunds) q f p.charges
          (λ c hit w. rw ((same c).0, (same c).1, (same c).2) w) (λ c miss w. w) h.within;
  };
}

-- No refund is of a charge that is not there.
given_back-absent :
    (id : ℕ) (charges : List ChargeRow) (refunds : List Refund)
    → any_of (with_id id) charges ≡ false
    → All (HasCharge charges) refunds
    → given_back id refunds ≡ 0
given_back-absent id charges [] absent h = refl
given_back-absent id charges (r ∷ rs) absent h = elim (Bool-cases (r.charge_id == id)) [
  | inl same ↦
      ground (arith, h.0, absent, ap (λ i. any_of (with_id i) charges) (==→eq r.charge_id id same))
  | inr other ↦ ground (arith, other, given_back-absent id charges rs absent h.1)
]

pub fresh_id :
    (row : ChargeRow) (charges : List ChargeRow)
    → any_of (is_taken_by row) charges ≡ false
    → any_of (with_id row.id) charges ≡ false
fresh_id row [] h = refl
fresh_id row (c ∷ cs) h = ground (arith, h, fresh_id row cs)

pub insert-IsCovered : (row : ChargeRow) → Keeps IsCovered (insert_charge row)
unfolding insert_charge
insert-IsCovered row = record {
  keep = λ p h.
      inserted p h (Bool-cases (breaks_check row))
        (Bool-cases (any_of (is_taken_by row) p.charges));
}
  where
    inserted :
        (p : PostgresLedger)
        → IsCovered p
        → (breaks_check row ≡ true) ⊎ (breaks_check row ≡ false)
        → (any_of (is_taken_by row) p.charges ≡ true) ⊎ (any_of (is_taken_by row) p.charges ≡ false)
        → IsCovered (insert_charge row p).1
    inserted p h (inl broken) taken = rw broken h
    inserted p h (inr whole) (inl taken) = rw (whole, taken) h
    inserted p h (inr whole) (inr fresh) =
        rw (whole, fresh)
          (record {
            linked =
                All-map (HasCharge p.charges) _ p.refunds
                  (λ r. any_of-append (with_id r.charge_id) p.charges (row ∷ [])) h.linked;
            within = All-append (IsWithin p.refunds) p.charges row h.within (
              ground (
                arith,
                whole,
                given_back-absent row.id p.charges p.refunds (fresh_id row p.charges fresh)
                    h.linked,
              ),
              ground (arith, whole),
            );
          })
