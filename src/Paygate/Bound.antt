-- ===== src/Paygate/Bound.antt =====
-- apps/paygate/src/ledger/postgres.ts: a key stays with the charge it was claimed for.
use project_atrium.Base.{
  ℕ, ◌≡◌, refl, ◌∙◌, Bool, true, false, some, [], ◌∷◌, if◌then◌else◌, find_first, find_first-append,
  find_first-update_where_if, arith, ◌++◌,
}
use project_atrium.Paygate.Types.{
  Fingerprint, IdempotencyRecord, Scope, is_slot, replayed_once, accept, OpenRefundInput,
}
use project_atrium.Paygate.Tables.{
  ChargeRow, PostgresLedger, with_id, Query, claim, update_slot, insert_charge, insert_refund,
  update_charges, reserve, reserve_amount,
}
use project_atrium.Paygate.Postgres.{backfill, is_open, settle, record_refund}
use project_atrium.Paygate.Deliveries.{count_attempt}
use project_atrium.Paygate.Keeps.{Keeps, Commits, Commits-of, Keeps-pure, Keeps-bind, branches}
use project_atrium.Paygate.Kept.{IsKept}

abbrev pub NamesCharge : Fingerprint → ℕ → IdempotencyRecord → Type 0
NamesCharge f id r = (r.resource_id ≡ id) × (r.fingerprint ≡ f)

abbrev pub IsFor : ℕ → ℕ → ChargeRow → Type 0
IsFor reference amount c = (c.reference ≡ reference) × (c.amount_minor ≡ amount)

-- The slot of a key names a charge that is there, with a reference and an amount.
pub record IsBound (k : ℕ) (f : Fingerprint) (id reference amount : ℕ) (p : PostgresLedger)
    : Type 0 where
  pub slot : IdempotencyRecord
  pub row : ChargeRow
  pub slot_there : find_first (is_slot Scope.charge k) p.idempotency ≡ some slot
  pub row_there : find_first (with_id id) p.charges ≡ some row
  pub names : NamesCharge f id slot
  pub for : IsFor reference amount row

module _ (k : ℕ) (f : Fingerprint) (id reference amount : ℕ) where
  abbrev Bound : PostgresLedger → Type 0
  Bound = IsBound k f id reference amount

  aside-IsBound {ℓ} :
      {A : Type ℓ} (m : Query A)
      → ((p : PostgresLedger)
          → ((m p).1.charges ≡ p.charges) × ((m p).1.idempotency ≡ p.idempotency))
      → Keeps Bound m
  aside-IsBound m same = record {
    keep = λ p h. record {
      slot = h.slot;
      row = h.row;
      slot_there = rw ((same p).1) h.slot_there;
      row_there = rw ((same p).0) h.row_there;
      names = h.names;
      for = h.for;
    };
  }

  either_keeps {ℓ} :
      {A : Type 0} (P : A → Type ℓ) (c : Bool) (g : A → A) (a : A)
      → P a
      → P (g a)
      → P (if c then g a else a)
  either_keeps P true g a h hg = hg
  either_keeps P false g a h hg = h

  slots-IsBound :
      (s : Scope) (j : ℕ) (g : IdempotencyRecord → IdempotencyRecord)
      → ((r : IdempotencyRecord)
          → (is_slot Scope.charge k (g r) ≡ is_slot Scope.charge k r)
            × ((g r).resource_id ≡ r.resource_id)
            × ((g r).fingerprint ≡ r.fingerprint))
      → Keeps Bound (update_slot s j g)
  slots-IsBound s j g same = record {
    keep = λ p h. record {
      slot = if is_slot s j h.slot then g h.slot else h.slot;
      row = h.row;
      slot_there =
          find_first-update_where_if (is_slot s j) (is_slot Scope.charge k) g p.idempotency h.slot
            (λ r. (same r).0) h.slot_there;
      row_there = h.row_there;
      names =
          either_keeps (NamesCharge f id) (is_slot s j h.slot) g h.slot h.names
            ((same h.slot).1 ∙ h.names.0, (same h.slot).2 ∙ h.names.1);
      for = h.for;
    };
  }

  charges-IsBound :
      (q : ChargeRow → Bool) (g : ChargeRow → ChargeRow)
      → ((c : ChargeRow)
          → ((g c).id ≡ c.id)
            × ((g c).reference ≡ c.reference)
            × ((g c).amount_minor ≡ c.amount_minor))
      → Keeps Bound (update_charges q g)
  charges-IsBound q g same = record {
    keep = λ p h. record {
      slot = h.slot;
      row = if q h.row then g h.row else h.row;
      slot_there = h.slot_there;
      row_there =
          find_first-update_where_if q (with_id id) g p.charges h.row (λ c. rw ((same c).0) refl)
            h.row_there;
      names = h.names;
      for =
          either_keeps (IsFor reference amount) (q h.row) g h.row h.for
            ((same h.row).1 ∙ h.for.0, (same h.row).2 ∙ h.for.1);
    };
  }

  claim-IsBound : (r : IdempotencyRecord) → Keeps Bound (claim r)
  unfolding claim
  claim-IsBound r = record { keep = λ p h. search (branches {0} Bound, claimed) }
    where
      claimed :
          (p : PostgresLedger)
          → Bound p
          → Bound (record p { idempotency = p.idempotency ++ (r ∷ []) })
      claimed p h = record {
        slot = h.slot;
        row = h.row;
        slot_there =
            find_first-append (is_slot Scope.charge k) p.idempotency (r ∷ []) h.slot h.slot_there;
        row_there = h.row_there;
        names = h.names;
        for = h.for;
      }

  insert-IsBound : (c : ChargeRow) → Keeps Bound (insert_charge c)
  unfolding insert_charge
  insert-IsBound c = record { keep = λ p h. search (branches {0} Bound, inserted) }
    where
      inserted :
          (p : PostgresLedger) → Bound p → Bound (record p { charges = p.charges ++ (c ∷ []) })
      inserted p h = record {
        slot = h.slot;
        row = h.row;
        slot_there = h.slot_there;
        row_there = find_first-append (with_id id) p.charges (c ∷ []) h.row h.row_there;
        names = h.names;
        for = h.for;
      }

  reserve-IsBound : (j n : ℕ) → Keeps Bound (reserve_amount j n)
  unfolding reserve_amount
  reserve-IsBound j n = record { keep = λ p h. search (branches {0} Bound, reserved) }
    where
      reserved : (p : PostgresLedger) → Bound p → Bound (update_charges (with_id j) (reserve n) p).1
      reserved p h = (charges-IsBound (with_id j) (reserve n) (λ c. (refl, refl, refl))).keep p h

  refund-IsBound :
      (j now : ℕ) (input : OpenRefundInput) (charge : ChargeRow)
      → Commits Bound (record_refund j now input charge)
  unfolding record_refund insert_refund
  refund-IsBound j now input charge = Commits-of Bound _ (
      Keeps-bind Bound _ _ (aside-IsBound (insert_refund _) (λ p. (ground arith, ground arith)))
        λ _.
          Keeps-bind Bound _ _ (reserve-IsBound charge.id input.amount_minor)
            λ _. Keeps-pure Bound _)

  pub IsKept-IsBound : IsKept Bound
  IsKept-IsBound = record {
    claims = claim-IsBound;
    replays = λ s j. slots-IsBound s j replayed_once (λ r. (refl, refl, refl));
    accepts = λ s j. slots-IsBound s j accept (λ r. (refl, refl, refl));
    inserts = insert-IsBound;
    backfills = λ j o. charges-IsBound (with_id j) (backfill o) (λ c. (refl, refl, refl));
    counts = λ j. charges-IsBound (with_id j) count_attempt (λ c. (refl, refl, refl));
    settles = λ j s at. charges-IsBound (is_open j) (settle s at) (λ c. (refl, refl, refl));
    refunds = refund-IsBound;
    refund_settles = λ j at p h. record {
      slot = h.slot;
      row = h.row;
      slot_there = h.slot_there;
      row_there = h.row_there;
      names = h.names;
      for = h.for;
    };
    deliveries = λ ds p h. record {
      slot = h.slot;
      row = h.row;
      slot_there = h.slot_there;
      row_there = h.row_there;
      names = h.names;
      for = h.for;
    };
  }
