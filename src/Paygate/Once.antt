-- ===== src/Paygate/Once.antt =====
-- apps/paygate/src/ledger/postgres.ts: one charge for a key, whatever is called in between, and
-- one outcome for a charge.
use project_atrium.Base.{
  ℕ, ◌≡◌, refl, sym, ap, ◌∙◌, subst, true, false, ◌||◌, ◌++◌, none, some, [], ◌∷◌, any_of,
  find_first, find_first-holds, ==→eq, find_first-append_new, Bool-cases, Option-cases, inl, inr,
  arith, ==_refl,
}
use project_atrium.Paygate.Types.{
  Charge, is_fingerprint, IdempotencyRecord, Scope, is_slot, replayed_once, OpenChargeInput,
  OpenChargeResult, returned,
}
use project_atrium.Paygate.Tables.{
  ChargeRow, PostgresLedger, to_charge, with_id, breaks_check, is_taken_by,
}
use project_atrium.Paygate.Postgres.{charge_slot, new_row, open_charge}
use project_atrium.Paygate.Kept.{History-keeps}
use project_atrium.Paygate.Bound.{IsBound, IsKept-IsBound}
use project_atrium.Paygate.Step.{History}
use project_atrium.Paygate.Opened.{
  unclaimed_id, with_slot, open_charge_known, open_charge_mismatch, open_charge_dangling,
  open_charge_new, open_charge_refused,
}

module _ (p p1 : PostgresLedger) (id now : ℕ) (input : OpenChargeInput) (c : Charge) where
  abbrev BoundTo : PostgresLedger → Type 0
  BoundTo = IsBound input.idempotency_key input.fingerprint c.id input.reference input.amount_minor

  fresh-IsBound :
      find_first (is_slot Scope.charge input.idempotency_key) p.idempotency ≡ none
      → any_of (is_taken_by (new_row id now input)) p.charges ≡ false
      → c.id ≡ id
      → p1
        ≡ record (with_slot id now input p) { charges = p.charges ++ (new_row id now input ∷ []) }
      → BoundTo p1
  fresh-IsBound unknown fresh named grown =
      rw (grown, named)
        (record {
          slot = charge_slot id now input;
          row = new_row id now input;
          slot_there =
              find_first-append_new (is_slot Scope.charge input.idempotency_key) p.idempotency
                (charge_slot id now input) unknown (==_refl input.idempotency_key);
          row_there =
              find_first-append_new (with_id id) p.charges (new_row id now input)
                (unclaimed_id (new_row id now input) p.charges fresh) (==_refl id);
          names = (refl, refl);
          for = (refl, refl);
        })

  -- Where `openCharge` answers that it created a charge, the key is bound to it.
  created-IsBound :
      open_charge id now input p ≡ (returned (OpenChargeResult.created c), p1) → BoundTo p1
  created-IsBound e =
      elim (Option-cases (find_first (is_slot Scope.charge input.idempotency_key) p.idempotency)) [
        | inl unknown ↦
            elim (Bool-cases (
              breaks_check (new_row id now input)
              || any_of (is_taken_by (new_row id now input)) p.charges)) [
                | inl refused ↦
                    ground (arith, sym e ∙ open_charge_refused id now input p unknown refused)
                | inr fine ↦
                    let outcome =
                      sym e
                      ∙ open_charge_new id now input p unknown (ground (arith, fine))
                          (ground (arith, fine)) in
                    fresh-IsBound unknown (ground (arith, fine)) (ground (arith, outcome))
                      (ap (λ x. x.1) outcome)
              ]
        | inr known ↦ elim (Bool-cases (is_fingerprint known.0.fingerprint input.fingerprint)) [
          | inl same ↦ elim (Option-cases (find_first (with_id known.0.resource_id) p.charges)) [
            | inl gone ↦
                ground
                  (arith, sym e ∙ open_charge_dangling id now input p known.0 known.1 same gone)
            | inr there ↦ ground (
              arith,
              sym e ∙ open_charge_known id now input p known.0 there.0 known.1 same there.1,
            )
          ]
          | inr other ↦
              ground (arith, sym e ∙ open_charge_mismatch id now input p known.0 known.1 other)
        ]
      ]

module _ (p p1 q : PostgresLedger) (id now : ℕ) (input : OpenChargeInput) (c : Charge)
    (id' now' : ℕ) (later : OpenChargeInput) where
  still-IsBound :
      open_charge id now input p ≡ (returned (OpenChargeResult.created c), p1)
      → History p1 q
      → IsBound input.idempotency_key input.fingerprint c.id input.reference input.amount_minor q
  still-IsBound e since =
      History-keeps (BoundTo p p1 id now input c)
        (IsKept-IsBound input.idempotency_key input.fingerprint c.id input.reference
          input.amount_minor)
        p1 q since (created-IsBound p p1 id now input c e)

  -- Where a charge was created under a key, and any calls were answered since, the same key with
  -- the same body is answered with that charge: its id, reference and amount. No charge is added
  -- or changed; only the replay is counted.
  pub charge_once :
      open_charge id now input p ≡ (returned (OpenChargeResult.created c), p1)
      → History p1 q
      → later.idempotency_key ≡ input.idempotency_key
      → is_fingerprint input.fingerprint later.fingerprint ≡ true
      → (row : ChargeRow) × (r : IdempotencyRecord) × ((open_charge id' now' later q).0
          ≡ returned (OpenChargeResult.replayed (to_charge row [] []) (replayed_once r)))
        × (row.id ≡ c.id)
        × (row.reference ≡ input.reference)
        × (row.amount_minor ≡ input.amount_minor)
        × ((open_charge id' now' later q).1.charges ≡ q.charges)
  charge_once e since key same =
      let b = still-IsBound e since in
      let outcome =
        open_charge_known id' now' later q b.slot b.row
          (subst (λ k. find_first (is_slot Scope.charge k) q.idempotency ≡ some b.slot) (sym key)
            b.slot_there)
          (subst (λ f. is_fingerprint f later.fingerprint ≡ true) (sym b.names.1) same)
          (subst (λ n. find_first (with_id n) q.charges ≡ some b.row) (sym b.names.0)
            b.row_there) in
      (
        b.row,
        b.slot,
        ap (λ x. x.0) outcome,
        ==→eq b.row.id c.id (find_first-holds (with_id c.id) q.charges b.row b.row_there),
        b.for.0,
        b.for.1,
        ap (λ x. x.1.charges) outcome,
      )

  -- Where a charge was created under a key, and any calls were answered since, the same key with
  -- another body is refused and nothing is written.
  charge_key_reuse :
      open_charge id now input p ≡ (returned (OpenChargeResult.created c), p1)
      → History p1 q
      → later.idempotency_key ≡ input.idempotency_key
      → is_fingerprint input.fingerprint later.fingerprint ≡ false
      → open_charge id' now' later q ≡ (returned OpenChargeResult.fingerprint_mismatch, q)
  charge_key_reuse e since key other =
      let b = still-IsBound e since in
      open_charge_mismatch id' now' later q b.slot
        (subst (λ k. find_first (is_slot Scope.charge k) q.idempotency ≡ some b.slot) (sym key)
          b.slot_there)
        (subst (λ f. is_fingerprint f later.fingerprint ≡ false) (sym b.names.1) other)
