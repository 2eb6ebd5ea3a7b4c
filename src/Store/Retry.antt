-- ===== src/Store/Retry.antt =====
-- apps/api/src/common/retry-transaction.ts: `withTransientRetry`, with `isTransientRollback` of
-- apps/api/src/common/pg-errors.ts. The wait between two attempts is left out.
use project_atrium.Base.{ℕ, zero, suc, Bool, true, false, if◌then◌else◌}
use project_atrium.Store.Transaction.{Failure, ok, err, Tx}

-- `isTransientRollback`
unfoldable pub is_transient_rollback : Failure → Bool
is_transient_rollback Failure.transient_rollback = true
is_transient_rollback _ = false

-- The loop, from an attempt on, with the attempts that are left and the last error.
unfoldable pub retry_from {ℓ} : {A : Type ℓ} → ℕ → ℕ → Failure → (ℕ → Tx A) → Tx A
unfolding is_transient_rollback
retry_from zero attempt last run db = (err last, db)
retry_from (suc left) attempt last run db =
    let (r, db') = run attempt db in
    elim r [
      | ok a ↦ (ok a, db')
      | err e ↦
          if is_transient_rollback e then retry_from left (suc attempt) e run db' else (err e, db')
    ]

-- `withTransientRetry`; a run is told the number of its attempt.
unfoldable pub with_transient_retry {ℓ} : {A : Type ℓ} → ℕ → (ℕ → Tx A) → Tx A
unfolding retry_from
with_transient_retry attempts run = retry_from attempts 1 Failure.thrown run
