-- ===== src/Paygate/Burnt.antt =====
-- apps/paygate/src/ledger/postgres.ts: `openRefund` claims its key before it tests the charge, and
-- a refusal returns, so the claim commits with no refund behind it.
use project_atrium.Base.{
  ℕ, ◌≡◌, sym, ap, ◌∙◌, subst, true, false, none, some, [], ◌∷◌, ◌++◌, find_first,
  find_first-append_new, ==_refl, update_where, arith,
}
use project_atrium.Paygate.Types.{
  is_fingerprint, Scope, is_slot, IdempotencyRecord, replayed_once, OpenRefundResult,
  OpenRefundInput, returned, threw,
}
use project_atrium.Paygate.Tables.{
  PostgresLedger, with_id, refund_with_id, claim, select_slot, select_refund, select_charge,
}
use project_atrium.Paygate.Postgres.{refund_slot, replay_refund, claimed_refund, open_refund}
use project_atrium.Paygate.Runs.{
  transaction_threw, transaction-returned, bind_returned, claim_taken, claim_new,
}
use project_atrium.Paygate.Refunding.{fingerprint_refl, is_refusal, charge_refused}

module _ (id now : ℕ) (input : OpenRefundInput) (p : PostgresLedger) where
  abbrev with_claim : PostgresLedger
  with_claim = record p { idempotency = p.idempotency ++ (refund_slot id now input ∷ []) }

  replay_dangling :
      (r : IdempotencyRecord)
      → find_first (is_slot Scope.refund input.idempotency_key) p.idempotency ≡ some r
      → is_fingerprint r.fingerprint input.fingerprint ≡ true
      → find_first (refund_with_id r.resource_id) p.refunds ≡ none
      → replay_refund input p ≡ (
        threw,
        record p {
          idempotency =
              update_where (is_slot Scope.refund input.idempotency_key) replayed_once p.idempotency;
        },
      )
  unfolding replay_refund select_slot select_refund
  replay_dangling r known same gone = ground (arith, known, same, gone)

  open_refund_dangling :
      (r : IdempotencyRecord)
      → find_first (is_slot Scope.refund input.idempotency_key) p.idempotency ≡ some r
      → is_fingerprint r.fingerprint input.fingerprint ≡ true
      → find_first (refund_with_id r.resource_id) p.refunds ≡ none
      → open_refund id now input p ≡ (threw, p)
  unfolding open_refund claimed_refund
  open_refund_dangling r known same gone = transaction_threw _ p _ (
      bind_returned (claim (refund_slot id now input)) (claimed_refund id now input) p p false
        (claim_taken (refund_slot id now input) p r known)
      ∙ replay_dangling r known same gone)

  -- What a refusal commits.
  refusal_commits :
      (a : OpenRefundResult) (p1 : PostgresLedger)
      → find_first (is_slot Scope.refund input.idempotency_key) p.idempotency ≡ none
      → is_refusal a ≡ true
      → open_refund id now input p ≡ (returned a, p1)
      → p1 ≡ with_claim
  unfolding open_refund claimed_refund select_charge
  refusal_commits a p1 unknown refusal e =
      charge_refused id now input with_claim a p1 (find_first (with_id input.charge_id) p.charges)
        refusal
        (sym (
            bind_returned (claim (refund_slot id now input)) (claimed_refund id now input) p
              with_claim true (claim_new (refund_slot id now input) p unknown))
          ∙ transaction-returned a p p1 _ e)

-- Where a refund under a new key, with an id that no refund has, is refused, as the charge is
-- unknown, not yet settled, not captured or would be exceeded, then the same request under the
-- same key throws: on any later tables with the same keys and refunds, so also where the charge
-- has been settled since, and whatever id is drawn.
pub refused_refund_burns_key :
    (id now id' now' : ℕ) (input : OpenRefundInput) (p p1 q : PostgresLedger) (a : OpenRefundResult)
    → find_first (is_slot Scope.refund input.idempotency_key) p.idempotency ≡ none
    → find_first (refund_with_id id) p.refunds ≡ none
    → open_refund id now input p ≡ (returned a, p1)
    → is_refusal a ≡ true
    → q.idempotency ≡ p1.idempotency
    → q.refunds ≡ p1.refunds
    → open_refund id' now' input q ≡ (threw, q)
refused_refund_burns_key id now id' now' input p p1 q a unknown fresh e refusal keys refunds =
    let committed = refusal_commits id now input p a p1 unknown refusal e in
    open_refund_dangling id' now' input q (refund_slot id now input)
      (subst
        (λ rs.
          find_first (is_slot Scope.refund input.idempotency_key) rs
          ≡ some (refund_slot id now input))
        (sym (keys ∙ ap (λ x. x.idempotency) committed))
        (find_first-append_new (is_slot Scope.refund input.idempotency_key) p.idempotency
          (refund_slot id now input) unknown (==_refl input.idempotency_key)))
      (fingerprint_refl input.fingerprint)
      (subst (λ rs. find_first (refund_with_id id) rs ≡ none)
        (sym (refunds ∙ ap (λ x. x.refunds) committed)) fresh)
