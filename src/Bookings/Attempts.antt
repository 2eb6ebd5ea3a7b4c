-- ===== src/Bookings/Attempts.antt =====
-- apps/api/src/bookings/bookings.service.ts: `hold`, behind the load of the room and the test of
-- the venue's rules: the hold transaction, retried while Postgres rolls it back.
--
-- Which attempts Postgres aborts with a deadlock or a serialization failure is an argument. An
-- aborted attempt leaves nothing behind.
use project_atrium.Base.{
  ℕ, zero, suc, ◌+◌, ◌≤◌, ◌<◌, ◌≡◌, refl, Bool, true, false, ◌==◌, inl, inr, arith, if◌then◌else◌,
  Bool-cases, ==→eq, ◌∙◌, ap,
}
use project_atrium.Store.Tables.{AuthPrincipal, Booking, Database}
use project_atrium.Store.Transaction.{Conflict, Failure, Result, ok, err, Tx}
use project_atrium.Store.Retry.{is_transient_rollback, retry_from, with_transient_retry}
use project_atrium.Bookings.Service.{Env}
use project_atrium.Bookings.Final.{once-IsFinal}
use project_atrium.Bookings.Hold.{HoldInput, RoomContext, hold_once}

-- The `catch` behind the retries.
unfoldable pub contention_on_rollback : Result Booking → Result Booking
unfolding is_transient_rollback
contention_on_rollback (ok b) = ok b
contention_on_rollback (err e) =
    if is_transient_rollback e then err (Failure.conflict Conflict.contention) else err e

module _ (now : ℕ) (env : Env) (id : ℕ) (input : HoldInput) (ctx : RoomContext) (p : AuthPrincipal)
    (aborted : ℕ → Bool) where
  unfoldable pub attempt : ℕ → Tx Booking
  attempt n db =
      if aborted n
      then (err Failure.transient_rollback, db)
      else hold_once now env id input ctx p db

  -- `hold`
  unfoldable pub hold : Tx Booking
  unfolding contention_on_rollback attempt with_transient_retry
  hold db =
      let (r, db') = with_transient_retry env.transient_retry_attempts attempt db in
      (contention_on_rollback r, db')

  after_attempt : ℕ → ℕ → Result Booking × Database → Result Booking × Database
  after_attempt left first (ok b, db) = (ok b, db)
  after_attempt left first (err e, db) =
      if is_transient_rollback e then retry_from left (suc first) e attempt db else (err e, db)

  one_attempt :
      (left first : ℕ) (last : Failure) (db : Database)
      → retry_from (suc left) first last attempt db ≡ after_attempt left first (attempt first db)
  unfolding retry_from after_attempt
  one_attempt left first last db = by_result (attempt first db)
    where
      by_result :
          (r : Result Booking × Database)
          → (elim r.0 as (λ x. Result Booking × Database) [
            | ok b ↦ (ok b, r.1)
            | err e ↦
                if is_transient_rollback e
                then retry_from left (suc first) e attempt r.1
                else (err e, r.1)
          ])
            ≡ after_attempt left first r
      by_result (ok b, db') = refl
      by_result (err e, db') = refl

  attempt_aborted :
      (n : ℕ) (db : Database)
      → aborted n ≡ true
      → attempt n db ≡ (err Failure.transient_rollback, db)
  unfolding attempt
  attempt_aborted n db stop = rw (attempt, stop)

  attempt_live :
      (n : ℕ) (db : Database)
      → aborted n ≡ false
      → attempt n db ≡ hold_once now env id input ctx p db
  unfolding attempt
  attempt_live n db live = ground (arith, live)

  aborted_step :
      (left first : ℕ) (last : Failure) (db : Database)
      → aborted first ≡ true
      → retry_from (suc left) first last attempt db
        ≡ retry_from left (suc first) Failure.transient_rollback attempt db
  unfolding after_attempt is_transient_rollback
  aborted_step left first last db stop =
      one_attempt left first last db ∙ ap (after_attempt left first) (attempt_aborted first db stop)

  last_attempt :
      (left first : ℕ) (r : Result Booking × Database)
      → ((e : Failure) → r.0 ≡ err e → is_transient_rollback e ≡ false)
      → after_attempt left first r ≡ r
  unfolding after_attempt
  last_attempt left first (ok b, db) h = refl
  last_attempt left first (err e, db) h = rw (h e refl)

  live_step :
      (left first : ℕ) (last : Failure) (db : Database)
      → aborted first ≡ false
      → retry_from (suc left) first last attempt db ≡ hold_once now env id input ctx p db
  live_step left first last db live =
      one_attempt left first last db
      ∙ ap (after_attempt left first) (attempt_live first db live)
      ∙ last_attempt left first (hold_once now env id input ctx p db)
          ((once-IsFinal now env id input ctx p).final db)

  -- Up to the first attempt that is not aborted nothing is written; that attempt decides.
  retry_decides :
      (left first k : ℕ) (last : Failure) (db : Database)
      → first ≤ k
      → k < first + left
      → ((i : ℕ) → first ≤ i → i < k → aborted i ≡ true)
      → aborted k ≡ false
      → retry_from left first last attempt db ≡ hold_once now env id input ctx p db
  retry_decides zero first k last db low high before here = absurd (omega (arith, low, high))
  retry_decides (suc left) first k last db low high before here = elim (Bool-cases (first == k)) [
    | inl same ↦ live_step left first last db (rw (==→eq first k same) here)
    | inr apart ↦
        aborted_step left first last db (before first (omega arith) (ground (arith, apart, low)))
        ∙ retry_decides left (suc first) k Failure.transient_rollback db
            (ground (arith, apart, low)) (omega (arith, high))
            (λ i le lt. before i (omega (arith, le)) lt) here
  ]

  retry_exhausted :
      (left first : ℕ) (db : Database)
      → ((i : ℕ) → first ≤ i → i < first + left → aborted i ≡ true)
      → retry_from left first Failure.transient_rollback attempt db
        ≡ (err Failure.transient_rollback, db)
  retry_exhausted zero first db all = unfold retry_from in refl
  retry_exhausted (suc left) first db all =
      aborted_step left first Failure.transient_rollback db (all first (omega arith) (omega arith))
      ∙ retry_exhausted left (suc first) db
          (λ i le lt. all i (omega (arith, le)) (omega (arith, lt)))

  retry_all :
      (left : ℕ) (last : Failure) (db : Database)
      → 0 < left
      → ((i : ℕ) → 0 < i → i ≤ left → aborted i ≡ true)
      → retry_from left 1 last attempt db ≡ (err Failure.transient_rollback, db)
  retry_all zero last db some_attempt all = absurd (omega (arith, some_attempt))
  retry_all (suc left) last db some_attempt all =
      aborted_step left 1 last db (all 1 (omega arith) (omega arith))
      ∙ retry_exhausted left 2 db (λ i le lt. all i (omega (arith, le)) (omega (arith, lt)))

  abbrev answered : Result Booking × Database → Result Booking × Database
  answered r = (contention_on_rollback r.0, r.1)

  answered_final :
      (r : Result Booking × Database)
      → ((e : Failure) → r.0 ≡ err e → is_transient_rollback e ≡ false)
      → answered r ≡ r
  unfolding contention_on_rollback
  answered_final (ok b, db) h = refl
  answered_final (err e, db) h = rw (h e refl)

  -- Where Postgres aborts the first attempts of a hold and lets through one that is within the
  -- budget of attempts, the hold answers, and leaves, what that one attempt does on the database
  -- as it was.
  pub hold_decided :
      (k : ℕ) (db : Database)
      → 0 < k
      → k ≤ env.transient_retry_attempts
      → ((i : ℕ) → 0 < i → i < k → aborted i ≡ true)
      → aborted k ≡ false
      → hold db ≡ hold_once now env id input ctx p db
  unfolding hold with_transient_retry
  hold_decided k db low high before here =
      ap answered (
        retry_decides env.transient_retry_attempts 1 k Failure.thrown db (omega (arith, low))
          (omega (arith, high)) (λ i le lt. before i (omega (arith, le)) lt) here)
      ∙ answered_final (hold_once now env id input ctx p db)
          ((once-IsFinal now env id input ctx p).final db)

  -- Where Postgres aborts every attempt of a hold, of a budget of at least one, it is a 409 and
  -- nothing is written.
  hold_contended :
      (db : Database)
      → 0 < env.transient_retry_attempts
      → ((i : ℕ) → 0 < i → i ≤ env.transient_retry_attempts → aborted i ≡ true)
      → hold db ≡ (err (Failure.conflict Conflict.contention), db)
  unfolding hold with_transient_retry contention_on_rollback is_transient_rollback
  hold_contended db some_attempt all =
      ap answered (retry_all env.transient_retry_attempts Failure.thrown db some_attempt all)
