-- ===== src/Paygate/Opened.antt =====
-- apps/paygate/src/ledger/postgres.ts: the outcomes of `openCharge`.
use project_atrium.Base.{
  ℕ, ◌≡◌, refl, ◌∙◌, true, false, ◌||◌, ◌++◌, none, some, List, [], ◌∷◌, any_of, find_first,
  update_where, arith,
}
use project_atrium.Paygate.Types.{
  is_fingerprint, IdempotencyRecord, Scope, is_slot, replayed_once, OpenChargeInput,
  OpenChargeResult, returned, threw,
}
use project_atrium.Paygate.Tables.{
  ChargeRow, PostgresLedger, to_charge, with_id, claim, select_slot, select_charge, breaks_check,
  is_taken_by, insert_charge,
}
use project_atrium.Paygate.Runs.{
  transaction_returned, transaction_threw, bind_returned, claim_taken, claim_new,
}
use project_atrium.Paygate.Postgres.{
  charge_slot, new_row, claimed_charge, replay_charge, open_charge,
}

pub unclaimed_id :
    (row : ChargeRow) (charges : List ChargeRow)
    → any_of (is_taken_by row) charges ≡ false
    → find_first (with_id row.id) charges ≡ none
unclaimed_id row [] h = refl
unclaimed_id row (c ∷ cs) h = ground (arith, h, unclaimed_id row cs)

module _ (id now : ℕ) (input : OpenChargeInput) (p : PostgresLedger) where
  -- The outcomes of `openCharge`.
  replay_known :
      (r : IdempotencyRecord) (c : ChargeRow)
      → find_first (is_slot Scope.charge input.idempotency_key) p.idempotency ≡ some r
      → is_fingerprint r.fingerprint input.fingerprint ≡ true
      → find_first (with_id r.resource_id) p.charges ≡ some c
      → replay_charge input p ≡ (
        returned (OpenChargeResult.replayed (to_charge c [] []) (replayed_once r)),
        record p {
          idempotency =
              update_where (is_slot Scope.charge input.idempotency_key) replayed_once p.idempotency;
        },
      )
  unfolding replay_charge select_slot select_charge
  replay_known r c known same there = ground (arith, known, same, there)

  pub open_charge_known :
      (r : IdempotencyRecord) (c : ChargeRow)
      → find_first (is_slot Scope.charge input.idempotency_key) p.idempotency ≡ some r
      → is_fingerprint r.fingerprint input.fingerprint ≡ true
      → find_first (with_id r.resource_id) p.charges ≡ some c
      → open_charge id now input p ≡ (
        returned (OpenChargeResult.replayed (to_charge c [] []) (replayed_once r)),
        record p {
          idempotency =
              update_where (is_slot Scope.charge input.idempotency_key) replayed_once p.idempotency;
        },
      )
  unfolding open_charge claimed_charge
  open_charge_known r c known same there = transaction_returned _ p _ _ (
      bind_returned (claim (charge_slot id now input)) (claimed_charge id now input) p p false
        (claim_taken (charge_slot id now input) p r known)
      ∙ replay_known r c known same there)

  replay_mismatch :
      (r : IdempotencyRecord)
      → find_first (is_slot Scope.charge input.idempotency_key) p.idempotency ≡ some r
      → is_fingerprint r.fingerprint input.fingerprint ≡ false
      → replay_charge input p ≡ (returned OpenChargeResult.fingerprint_mismatch, p)
  unfolding replay_charge select_slot
  replay_mismatch r known other = ground (arith, known, other)

  replay_dangling :
      (r : IdempotencyRecord)
      → find_first (is_slot Scope.charge input.idempotency_key) p.idempotency ≡ some r
      → is_fingerprint r.fingerprint input.fingerprint ≡ true
      → find_first (with_id r.resource_id) p.charges ≡ none
      → replay_charge input p ≡ (
        threw,
        record p {
          idempotency =
              update_where (is_slot Scope.charge input.idempotency_key) replayed_once p.idempotency;
        },
      )
  unfolding replay_charge select_slot select_charge
  replay_dangling r known same gone = ground (arith, known, same, gone)

  pub open_charge_mismatch :
      (r : IdempotencyRecord)
      → find_first (is_slot Scope.charge input.idempotency_key) p.idempotency ≡ some r
      → is_fingerprint r.fingerprint input.fingerprint ≡ false
      → open_charge id now input p ≡ (returned OpenChargeResult.fingerprint_mismatch, p)
  unfolding open_charge claimed_charge
  open_charge_mismatch r known other = transaction_returned _ p _ _ (
      bind_returned (claim (charge_slot id now input)) (claimed_charge id now input) p p false
        (claim_taken (charge_slot id now input) p r known)
      ∙ replay_mismatch r known other)

  pub open_charge_dangling :
      (r : IdempotencyRecord)
      → find_first (is_slot Scope.charge input.idempotency_key) p.idempotency ≡ some r
      → is_fingerprint r.fingerprint input.fingerprint ≡ true
      → find_first (with_id r.resource_id) p.charges ≡ none
      → open_charge id now input p ≡ (threw, p)
  unfolding open_charge claimed_charge
  open_charge_dangling r known same gone = transaction_threw _ p _ (
      bind_returned (claim (charge_slot id now input)) (claimed_charge id now input) p p false
        (claim_taken (charge_slot id now input) p r known)
      ∙ replay_dangling r known same gone)

  abbrev pub with_slot : PostgresLedger
  with_slot = record p { idempotency = p.idempotency ++ (charge_slot id now input ∷ []) }

  inserted_new :
      breaks_check (new_row id now input) ≡ false
      → any_of (is_taken_by (new_row id now input)) p.charges ≡ false
      → claimed_charge id now input true with_slot ≡ (
        returned (OpenChargeResult.created (to_charge (new_row id now input) [] [])),
        record with_slot { charges = p.charges ++ (new_row id now input ∷ []) },
      )
  unfolding claimed_charge insert_charge
  inserted_new whole fresh = ground (arith, whole, fresh)

  inserted_refused :
      (breaks_check (new_row id now input) || any_of (is_taken_by (new_row id now input)) p.charges)
        ≡ true
      → claimed_charge id now input true with_slot ≡ (threw, with_slot)
  unfolding claimed_charge insert_charge
  inserted_refused refused = ground (arith, refused)

  pub open_charge_new :
      find_first (is_slot Scope.charge input.idempotency_key) p.idempotency ≡ none
      → breaks_check (new_row id now input) ≡ false
      → any_of (is_taken_by (new_row id now input)) p.charges ≡ false
      → open_charge id now input p ≡ (
        returned (OpenChargeResult.created (to_charge (new_row id now input) [] [])),
        record with_slot { charges = p.charges ++ (new_row id now input ∷ []) },
      )
  unfolding open_charge
  open_charge_new unknown whole fresh = transaction_returned _ p _ _ (
      bind_returned (claim (charge_slot id now input)) (claimed_charge id now input) p _ true
        (claim_new (charge_slot id now input) p unknown)
      ∙ inserted_new whole fresh)

  pub open_charge_refused :
      find_first (is_slot Scope.charge input.idempotency_key) p.idempotency ≡ none
      → (breaks_check (new_row id now input)
          || any_of (is_taken_by (new_row id now input)) p.charges)
        ≡ true
      → open_charge id now input p ≡ (threw, p)
  unfolding open_charge
  open_charge_refused unknown refused = transaction_threw _ p _ (
      bind_returned (claim (charge_slot id now input)) (claimed_charge id now input) p _ true
        (claim_new (charge_slot id now input) p unknown)
      ∙ inserted_refused refused)
