-- ===== src/Paygate/Runs.antt =====
-- How a method of `PostgresLedger` runs, statement by statement.
use project_atrium.Base.{true, false, [], ◌∷◌, ◌++◌, none, some, find_first, ◌≡◌, arith}
use project_atrium.Paygate.Types.{Answer, IdempotencyRecord, is_slot, returned, threw}
use project_atrium.Paygate.Tables.{PostgresLedger, Query, ◌>>=◌, transaction, claim}

module _ {ℓ} {A : Type ℓ} where
  pub transaction_returned :
      (m : Query A) (p p' : PostgresLedger) (a : A)
      → m p ≡ (returned a, p')
      → transaction m p ≡ (returned a, p')
  unfolding transaction
  transaction_returned m p p' a e = ground (arith, e)

  pub transaction_threw :
      (m : Query A) (p p' : PostgresLedger) → m p ≡ (threw, p') → transaction m p ≡ (threw, p)
  unfolding transaction
  transaction_threw m p p' e = ground (arith, e)

  pub bind_returned {κ} :
      {B : Type κ} (m : Query A) (f : A → Query B) (p p' : PostgresLedger) (a : A)
      → m p ≡ (returned a, p')
      → (m >>= f) p ≡ f a p'
  bind_returned m f p p' a e = ground (arith, e)

  pub bind_threw {κ} :
      {B : Type κ} (m : Query A) (f : A → Query B) (p p' : PostgresLedger)
      → m p ≡ (threw, p')
      → (m >>= f) p ≡ (threw, p')
  bind_threw m f p p' e = ground (arith, e)

pub claim_taken :
    (s : IdempotencyRecord) (p : PostgresLedger) (r : IdempotencyRecord)
    → find_first (is_slot s.scope s.key) p.idempotency ≡ some r
    → claim s p ≡ (returned false, p)
unfolding claim
claim_taken s p r known = ground (arith, known)

pub claim_new :
    (s : IdempotencyRecord) (p : PostgresLedger)
    → find_first (is_slot s.scope s.key) p.idempotency ≡ none
    → claim s p ≡ (returned true, record p { idempotency = p.idempotency ++ (s ∷ []) })
unfolding claim
claim_new s p unknown = ground (arith, unknown)

-- What a transaction returns, its method returned.
module _ {ℓ} {A : Type ℓ} (a : A) (p p1 : PostgresLedger) where
  committed :
      (r : Answer A) (p' : PostgresLedger)
      → ◌≡◌ {A = Answer A × PostgresLedger}
          (elim r as (λ x. Answer A × PostgresLedger) [
            | returned b ↦ (returned b, p')
            | threw ↦ (threw, p)
          ])
          (returned a, p1)
      → ◌≡◌ {A = Answer A × PostgresLedger} (r, p') (returned a, p1)
  committed (returned b) p' e = e
  committed threw p' e = ground (arith, e)

  pub transaction-returned :
      (m : Query A) → transaction m p ≡ (returned a, p1) → m p ≡ (returned a, p1)
  unfolding transaction
  transaction-returned m e = committed (m p).0 (m p).1 e
