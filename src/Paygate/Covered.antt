-- ===== src/Paygate/Covered.antt =====
-- apps/paygate/src/ledger/postgres.ts: what the provider hands back of a charge.
use project_atrium.Base.{
  ℕ, ◌≡◌, refl, ◌⊎◌, sym, ◌∙◌, subst, true, false, List, [], ◌∷◌, ◌++◌, Bool-cases, inl, inr,
  any_of, any_of-update_where, update_where, sum_by-append, All-map, All-append, All-any_of,
  All-both, All-update_where_cases, arith,
}
use project_atrium.Paygate.Types.{replayed_once, accept, Refund, OpenRefundInput}
use project_atrium.Paygate.Tables.{
  ChargeRow, PostgresLedger, with_id, claim, refuses_refund, update_slot, is_over, reserve,
}
use project_atrium.Paygate.Postgres.{
  backfill, is_open, settle, new_refund, record_refund, is_open_refund, settle_refund,
}
use project_atrium.Paygate.Deliveries.{count_attempt}
use project_atrium.Paygate.Refunding.{with_refund, outcome_refused, outcome_over, outcome_recorded}
use project_atrium.Paygate.Keeps.{Commits, Leaves}
use project_atrium.Paygate.Kept.{IsKept, History-keeps}
use project_atrium.Paygate.Step.{History}
use project_atrium.Paygate.Shares.{
  share_of, given_back, HasCharge, IsWithin, IsCovered, aside-IsCovered, update-IsCovered,
  insert-IsCovered,
}

with_refund-IsCovered :
    (r : Refund) (p : PostgresLedger)
    → any_of (with_id r.charge_id) p.charges ≡ true
    → any_of (is_over r.charge_id r.amount_minor) p.charges ≡ false
    → IsCovered p
    → IsCovered (with_refund r r.charge_id r.amount_minor p)
with_refund-IsCovered r p there fits h = record {
  linked =
      All-append (HasCharge _) p.refunds r
        (All-map (HasCharge p.charges) _ p.refunds (λ s found. still s.charge_id ∙ found) h.linked)
        (still r.charge_id ∙ there);
  within =
      All-update_where_cases _ _ (with_id r.charge_id) (reserve r.amount_minor) p.charges hit miss
        (All-both _ _ p.charges h.within (All-any_of _ p.charges fits));
}
  where
    still :
        (id : ℕ)
        → any_of
            (with_id id)
            (update_where (with_id r.charge_id) (reserve r.amount_minor) p.charges)
          ≡ any_of (with_id id) p.charges
    still id =
        any_of-update_where (with_id r.charge_id) (with_id id) (reserve r.amount_minor) p.charges
          (λ c. refl)

    hit :
        (c : ChargeRow)
        → with_id r.charge_id c ≡ true
        → IsWithin p.refunds c × (is_over r.charge_id r.amount_minor c ≡ false)
        → IsWithin (p.refunds ++ (r ∷ [])) (reserve r.amount_minor c)
    hit c same (w, fits) = (
      ground (arith, same, w, sum_by-append (share_of c.id) p.refunds (r ∷ [])),
      ground (arith, same, fits),
    )

    miss :
        (c : ChargeRow)
        → with_id r.charge_id c ≡ false
        → IsWithin p.refunds c × (is_over r.charge_id r.amount_minor c ≡ false)
        → IsWithin (p.refunds ++ (r ∷ [])) c
    miss c other (w, fits) =
        (ground (arith, other, w, sum_by-append (share_of c.id) p.refunds (r ∷ [])), w.1)

refund-IsCovered :
    (id now : ℕ) (input : OpenRefundInput) (charge : ChargeRow)
    → Commits IsCovered (record_refund id now input charge)
refund-IsCovered id now input charge = record {
  leaves = λ p h.
      recorded p h (Bool-cases (refuses_refund (new_refund id now input charge) p))
        (Bool-cases (any_of (is_over charge.id input.amount_minor) p.charges));
}
  where
    recorded :
        (p : PostgresLedger)
        → IsCovered p
        → (refuses_refund (new_refund id now input charge) p ≡ true)
          ⊎ (refuses_refund (new_refund id now input charge) p ≡ false)
        → (any_of (is_over charge.id input.amount_minor) p.charges ≡ true)
          ⊎ (any_of (is_over charge.id input.amount_minor) p.charges ≡ false)
        → Leaves IsCovered (record_refund id now input charge p)
    recorded p h (inl refused) over =
        subst (Leaves IsCovered) (sym (outcome_refused id now input charge p refused)) tt
    recorded p h (inr taken) (inl over) =
        subst (Leaves IsCovered) (sym (outcome_over id now input charge p taken over)) tt
    recorded p h (inr taken) (inr fits) =
        subst (Leaves IsCovered) (sym (outcome_recorded id now input charge p taken fits))
          (with_refund-IsCovered (new_refund id now input charge) p (ground (arith, taken)) fits h)

settled-IsCovered :
    (id at : ℕ) (p : PostgresLedger)
    → IsCovered p
    → IsCovered
        (record p { refunds = update_where (is_open_refund id) (settle_refund at) p.refunds })
settled-IsCovered id at p h = record {
  linked =
      All-update_where_cases (HasCharge p.charges) (HasCharge p.charges) (is_open_refund id)
        (settle_refund at) p.refunds (λ r hit there. there) (λ r miss there. there) h.linked;
  within = All-map (IsWithin p.refunds) _ p.charges (λ c w. rw (still c.id p.refunds) w) h.within;
}
  where
    still :
        (c : ℕ) (rs : List Refund)
        → given_back c (update_where (is_open_refund id) (settle_refund at) rs) ≡ given_back c rs
    still c [] = refl
    still c (r ∷ rs) = elim (Bool-cases (is_open_refund id r)) [
      | inl hit ↦ ground (arith, hit, still c rs)
      | inr miss ↦ ground (arith, miss, still c rs)
    ]

IsKept-IsCovered : IsKept IsCovered
unfolding claim
IsKept-IsCovered = record {
  claims = λ r. aside-IsCovered (claim r) (λ p. (ground arith, ground arith));
  replays = λ s k. aside-IsCovered (update_slot s k replayed_once) (λ p. (refl, refl));
  accepts = λ s k. aside-IsCovered (update_slot s k accept) (λ p. (refl, refl));
  inserts = insert-IsCovered;
  backfills = λ id o. update-IsCovered (with_id id) (backfill o) (λ c. (refl, refl, refl));
  counts = λ id. update-IsCovered (with_id id) count_attempt (λ c. (refl, refl, refl));
  settles = λ id s at. update-IsCovered (is_open id) (settle s at) (λ c. (refl, refl, refl));
  refunds = refund-IsCovered;
  refund_settles = settled-IsCovered;
  deliveries = λ ds p h. record { linked = h.linked; within = h.within };
}

abbrev pub empty_ledger : PostgresLedger
empty_ledger = record { charges = []; refunds = []; idempotency = []; deliveries = [] }

-- Whatever calls the provider's ledger answered since it was empty, every refund is of a charge
-- that is there, the refunds of a charge add up to no more than is reserved on its row, and no
-- more is reserved than the charge took.
pub History-IsCovered : (p : PostgresLedger) → History empty_ledger p → IsCovered p
History-IsCovered p h =
    History-keeps IsCovered IsKept-IsCovered empty_ledger p h (record { linked = tt; within = tt })
