-- ===== src/Paygate/Settled.antt =====
-- apps/paygate/src/ledger/postgres.ts: a charge is brought to its outcome once.
use project_atrium.Base.{
  ℕ, ◌≡◌, refl, ap, ◌∙◌, Bool, true, false, ◌||◌, none, some, [], ◌∷◌, if◌then◌else◌, any_of,
  any_of-find_first, Bool-cases, inl, inr, ◌⊎◌, ◌==◌, find_first, find_first-append,
  find_first-update_where_if, find_first-holds, ==→eq, All, All-of, All-append,
  All-update_where_cases, find_first-absent, update_where-absent, arith,
}
use project_atrium.Paygate.Types.{ChargeStatus, replayed_once, accept, OpenRefundInput, returned}
use project_atrium.Paygate.Tables.{
  ChargeRow, PostgresLedger, with_id, Query, claim, update_slot, breaks_check, is_taken_by,
  insert_charge, insert_refund, update_charges, reserve, reserve_amount,
}
use project_atrium.Paygate.Postgres.{backfill, is_open, settle, materialise_charge, record_refund}
use project_atrium.Paygate.Deliveries.{count_attempt}
use project_atrium.Paygate.Keeps.{Keeps, Commits, Commits-of, Keeps-pure, Keeps-bind, branches}
use project_atrium.Paygate.Shares.{fresh_id}
use project_atrium.Paygate.Kept.{IsKept, History-keeps}
use project_atrium.Paygate.Step.{History}

abbrev pub HasOutcome : ChargeStatus → ℕ → ChargeRow → Type 0
HasOutcome s at c = (c.materialised ≡ true) × (c.status ≡ s) × (c.occurred_at ≡ some at)

abbrev pub IsClosed : ℕ → ChargeRow → Type 0
IsClosed id c = is_open id c ≡ false

pub record IsSettled (id : ℕ) (s : ChargeStatus) (at : ℕ) (p : PostgresLedger) : Type 0 where
  pub row : ChargeRow
  pub row_there : find_first (with_id id) p.charges ≡ some row
  pub outcome : HasOutcome s at row
  pub closed : All (IsClosed id) p.charges

module _ (id : ℕ) (s : ChargeStatus) (at : ℕ) where
  abbrev Done : PostgresLedger → Type 0
  Done = IsSettled id s at

  aside-IsSettled {ℓ} :
      {A : Type ℓ} (m : Query A)
      → ((p : PostgresLedger) → (m p).1.charges ≡ p.charges)
      → Keeps Done m
  aside-IsSettled m same = record {
    keep = λ p h. record {
      row = h.row;
      row_there = rw (same p) h.row_there;
      outcome = h.outcome;
      closed = rw (same p) h.closed;
    };
  }

  -- An update of columns that are no part of the outcome.
  update-IsSettled :
      (q : ChargeRow → Bool) (g : ChargeRow → ChargeRow)
      → ((c : ChargeRow)
          → ((g c).id ≡ c.id)
            × ((g c).materialised ≡ c.materialised)
            × ((g c).status ≡ c.status)
            × ((g c).occurred_at ≡ c.occurred_at))
      → Keeps Done (update_charges q g)
  update-IsSettled q g same = record {
    keep = λ p h. record {
      row = if q h.row then g h.row else h.row;
      row_there =
          find_first-update_where_if q (with_id id) g p.charges h.row (λ c. rw ((same c).0) refl)
            h.row_there;
      outcome = either (q h.row) h.row h.outcome;
      closed =
          All-update_where_cases (IsClosed id) (IsClosed id) q g p.charges
            (λ c hit closed. rw ((same c).0, (same c).1) closed) (λ c miss closed. closed) h.closed;
    };
  }
    where
      either :
          (b : Bool) (c : ChargeRow) → HasOutcome s at c → HasOutcome s at (if b then g c else c)
      either true c h = ((same c).1 ∙ h.0, (same c).2 ∙ h.1, (same c).3 ∙ h.2)
      either false c h = h

  settle-IsSettled :
      (j : ℕ) (s' : ChargeStatus) (at' : ℕ)
      → Keeps Done (update_charges (is_open j) (settle s' at'))
  settle-IsSettled j s' at' = record {
    keep = λ p h. record {
      row = if is_open j h.row then settle s' at' h.row else h.row;
      row_there =
          find_first-update_where_if (is_open j) (with_id id) (settle s' at') p.charges h.row
            (λ c. refl) h.row_there;
      outcome = settled_before h.row h.outcome;
      closed =
          All-update_where_cases (IsClosed id) (IsClosed id) (is_open j) (settle s' at') p.charges
            (λ c hit closed. ground arith) (λ c miss closed. closed) h.closed;
    };
  }
    where
      settled_before :
          (c : ChargeRow)
          → HasOutcome s at c
          → HasOutcome s at (if is_open j c then settle s' at' c else c)
      settled_before c h = (ground (arith, h), ground (arith, h), ground (arith, h))

  insert-IsSettled : (c : ChargeRow) → Keeps Done (insert_charge c)
  unfolding insert_charge
  insert-IsSettled c = record {
    keep = λ p h. inserted p h (Bool-cases (breaks_check c || any_of (is_taken_by c) p.charges));
  }
    where
      foreign :
          (p : PostgresLedger) → Done p → any_of (is_taken_by c) p.charges ≡ false → IsClosed id c
      foreign p h fresh = elim (Bool-cases (c.id == id)) [
        | inl same ↦ ground (
          arith,
          fresh_id c p.charges fresh,
          any_of-find_first (with_id id) p.charges h.row h.row_there,
          ap (λ i. any_of (with_id i) p.charges) (==→eq c.id id same),
        )
        | inr other ↦ ground (arith, other)
      ]

      inserted :
          (p : PostgresLedger)
          → Done p
          → ((breaks_check c || any_of (is_taken_by c) p.charges) ≡ true)
            ⊎ ((breaks_check c || any_of (is_taken_by c) p.charges) ≡ false)
          → Done (insert_charge c p).1
      inserted p h (inl refused) = rw refused h
      inserted p h (inr fine) = rw fine (record {
        row = h.row;
        row_there = find_first-append (with_id id) p.charges (c ∷ []) h.row h.row_there;
        outcome = h.outcome;
        closed = All-append (IsClosed id) p.charges c h.closed (foreign p h (ground (arith, fine)));
      })

  reserve-IsSettled : (j n : ℕ) → Keeps Done (reserve_amount j n)
  unfolding reserve_amount
  reserve-IsSettled j n = record { keep = λ p h. search (branches {0} Done, reserved) }
    where
      reserved : (p : PostgresLedger) → Done p → Done (update_charges (with_id j) (reserve n) p).1
      reserved p h =
          (update-IsSettled (with_id j) (reserve n) (λ c. (refl, refl, refl, refl))).keep p h

  refund-IsSettled :
      (j now : ℕ) (input : OpenRefundInput) (charge : ChargeRow)
      → Commits Done (record_refund j now input charge)
  unfolding record_refund insert_refund
  refund-IsSettled j now input charge = Commits-of Done _ (
      Keeps-bind Done _ _ (aside-IsSettled (insert_refund _) (λ p. ground arith)) λ _.
        Keeps-bind Done _ _ (reserve-IsSettled charge.id input.amount_minor) λ _. Keeps-pure Done _)

  IsKept-IsSettled : IsKept Done
  unfolding claim
  IsKept-IsSettled = record {
    claims = λ r. aside-IsSettled (claim r) (λ p. ground arith);
    replays = λ c k. aside-IsSettled (update_slot c k replayed_once) (λ p. refl);
    accepts = λ c k. aside-IsSettled (update_slot c k accept) (λ p. refl);
    inserts = insert-IsSettled;
    backfills = λ j o. update-IsSettled (with_id j) (backfill o) (λ c. (refl, refl, refl, refl));
    counts = λ j. update-IsSettled (with_id j) count_attempt (λ c. (refl, refl, refl, refl));
    settles = settle-IsSettled;
    refunds = refund-IsSettled;
    refund_settles = λ j t p h. record {
      row = h.row;
      row_there = h.row_there;
      outcome = h.outcome;
      closed = h.closed;
    };
    deliveries = λ ds p h. record {
      row = h.row;
      row_there = h.row_there;
      outcome = h.outcome;
      closed = h.closed;
    };
  }

module _ (p q : PostgresLedger) (id at : ℕ) (s : ChargeStatus) (c : ChargeRow) where
  first_outcome :
      find_first (with_id id) p.charges ≡ some c
      → c.materialised ≡ false
      → IsSettled id s at (materialise_charge id s at p).1
  unfolding materialise_charge
  first_outcome there fresh = record {
    row = settle s at c;
    row_there =
        find_first-update_where_if (is_open id) (with_id id) (settle s at) p.charges c (λ d. refl)
          there
        ∙ ground (arith, find_first-holds (with_id id) p.charges c there, fresh);
    outcome = (refl, refl, refl);
    closed =
        All-update_where_cases (λ d. Unit {0}) (IsClosed id) (is_open id) (settle s at) p.charges
          (λ d hit t. ground arith) (λ d miss t. miss) (All-of (λ d. Unit {0}) (λ d. tt) p.charges);
  }

  -- Where a charge that had no outcome was given one, and any calls were answered since, its row
  -- still has that outcome and that instant, and a further call to give it one returns nothing and
  -- writes nothing.
  pub materialise_once :
      find_first (with_id id) p.charges ≡ some c
      → c.materialised ≡ false
      → History (materialise_charge id s at p).1 q
      → (s' : ChargeStatus) (at' : ℕ)
      → (materialise_charge id s' at' q ≡ (returned none, q))
        × ((row : ChargeRow) × (find_first (with_id id) q.charges ≡ some row)
            × (row.status ≡ s)
            × (row.occurred_at ≡ some at))
  unfolding materialise_charge
  materialise_once there fresh since s' at' =
      let h =
        History-keeps (IsSettled id s at) (IsKept-IsSettled id s at) _ q since
          (first_outcome there fresh) in
      (
        rw
            (
              find_first-absent (is_open id) q.charges h.closed,
              update_where-absent (is_open id) (settle s' at') q.charges h.closed,
            )
            refl,
        (h.row, h.row_there, h.outcome.1, h.outcome.2),
      )
