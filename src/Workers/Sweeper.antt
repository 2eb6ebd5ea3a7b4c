-- ===== src/Workers/Sweeper.antt =====
-- apps/api/src/bookings/hold-sweeper.service.ts: one tick of the hold sweeper.
--
-- Whether `pg_try_advisory_xact_lock` gives the lock is an argument, and so are the ids of the rows
-- that other transactions have locked at that time. The timer and the log are left
-- out.
use project_atrium.Base.{
  ℕ, zero, suc, ◌≤◌, ◌≡◌, refl, ap, ◌∙◌, Bool, true, false, ◌||◌, List, [], ◌∷◌, map, ◌==◌,
  filter_by, any_of, update_where, length, All, arith, Bool-cases, inl, inr, ==_refl,
}
use project_atrium.Store.Tables.{Booking, Database}
use project_atrium.Store.Transaction.{Result, ok, err, Tx, pure, ◌>>=◌, transaction}
use project_atrium.Bookings.Expiry.{
  is_stale, is_sweepable, insert_by_expiry, order_by_expiry, first_ids, is_among, expire_row,
  expire_where, expire_stale_holds,
}

-- `BATCH_SIZE`
abbrev pub batch_size : ℕ
batch_size = 500

-- The transaction of a tick: a replica that loses the election does nothing.
unfoldable pub sweep : Bool → (ℕ → Bool) → ℕ → Tx ℕ
unfolding expire_stale_holds
sweep false locked now = pure 0
sweep true locked now = do ids ← expire_stale_holds locked now batch_size; pure (length ids)

abbrev pub caught : Result ℕ → ℕ
caught (ok n) = n
caught (err e) = 0

-- `tick`: `running` is the flag of the replica, which is unset again afterwards.
unfoldable pub tick : Bool → Bool → (ℕ → Bool) → ℕ → Database → ℕ × Database
unfolding sweep transaction
tick true elected locked now db = (0, db)
tick false elected locked now db =
    let (answer, after) = transaction (sweep elected locked now) db in (caught answer, after)

abbrev stale_ids : List Booking → List ℕ
stale_ids bs = map (λ (b : Booking). b.id) bs

first_ids-all : (n : ℕ) (bs : List Booking) → length bs ≤ n → first_ids n bs ≡ stale_ids bs
unfolding first_ids
first_ids-all zero [] h = refl
first_ids-all zero (b ∷ bs) h = absurd (omega arith)
first_ids-all (suc n) [] h = refl
first_ids-all (suc n) (b ∷ bs) h = ap (λ is. b.id ∷ is) (first_ids-all n bs (omega arith))

any_of-insert :
    (i : ℕ) (b : Booking) (bs : List Booking)
    → any_of (λ j. j == i) (stale_ids (insert_by_expiry b bs))
      ≡ any_of (λ j. j == i) (stale_ids (b ∷ bs))
unfolding insert_by_expiry
any_of-insert i b [] = refl
any_of-insert i b (c ∷ cs) = ground (arith, any_of-insert i b cs)

any_of-order :
    (i : ℕ) (bs : List Booking)
    → any_of (λ j. j == i) (stale_ids (order_by_expiry bs)) ≡ any_of (λ j. j == i) (stale_ids bs)
unfolding order_by_expiry
any_of-order i [] = refl
any_of-order i (b ∷ bs) =
    any_of-insert i b (order_by_expiry bs) ∙ ap (λ found. (b.id == i) || found) (any_of-order i bs)

length-insert : (b : Booking) (bs : List Booking) → length (insert_by_expiry b bs) ≡ suc (length bs)
unfolding insert_by_expiry
length-insert b [] = refl
length-insert b (c ∷ cs) = ground (arith, length-insert b cs)

length-order : (bs : List Booking) → length (order_by_expiry bs) ≡ length bs
unfolding order_by_expiry
length-order [] = refl
length-order (b ∷ bs) = omega (arith, length-insert b (order_by_expiry bs), length-order bs)

module _ (locked : ℕ → Bool) (now : ℕ) where
  -- Every hold that is to be swept is among ids that hold those of all of them.
  sweepable-among :
      (is : List ℕ) (bs : List Booking)
      → ((k : ℕ)
          → any_of (λ j. j == k) (stale_ids (filter_by (is_sweepable locked now) bs)) ≡ true
          → any_of (λ j. j == k) is ≡ true)
      → All (λ (b : Booking). is_sweepable locked now b ≡ true → is_among is b ≡ true) bs
  sweepable-among is [] sub = tt
  sweepable-among is (b ∷ bs) sub = (
    (λ hit. sub b.id (rw hit (rw (==_refl b.id) refl))),
    sweepable-among is bs (λ k found. sub k (elim (Bool-cases (is_sweepable locked now b)) [
      | inl hit ↦ rw hit (ground (arith, found))
      | inr miss ↦ rw miss found
    ])),
  )

  -- A hold that has lapsed is one that another transaction has locked.
  abbrev IsLeft : Booking → Type 0
  IsLeft b = is_stale now b ≡ true → locked b.id ≡ true

  not_swept-IsLeft :
      (is : List ℕ) (b : Booking)
      → (is_sweepable locked now b ≡ true → is_among is b ≡ true)
      → is_among is b ≡ false
      → IsLeft b
  unfolding is_sweepable
  not_swept-IsLeft is b h miss lapsed = elim (Bool-cases (locked b.id)) [
    | inl held_back ↦ held_back
    | inr free ↦ absurd (cc (h (ground (arith, lapsed, free)), miss))
  ]

  expired-IsLeft : (b : Booking) → IsLeft (expire_row now b)
  unfolding is_stale
  expired-IsLeft b lapsed = cc

  -- Where the ids take every hold that is to be swept, none but those are left.
  swept-IsLeft :
      (is : List ℕ) (bs : List Booking)
      → All (λ (b : Booking). is_sweepable locked now b ≡ true → is_among is b ≡ true) bs
      → All IsLeft (update_where (is_among is) (expire_row now) bs)
  swept-IsLeft is [] h = tt
  swept-IsLeft is (b ∷ bs) h = elim (Bool-cases (is_among is b)) [
    | inl hit ↦ rw hit (expired-IsLeft b, swept-IsLeft is bs h.1)
    | inr miss ↦ rw miss (not_swept-IsLeft is b h.0 miss, swept-IsLeft is bs h.1)
  ]

  -- A tick that is not kept back by one that still runs, and that wins the election, leaves no
  -- lapsed hold but those whose rows another transaction has locked, where there were no more than
  -- a batch of lapsed holds that none has locked.
  pub tick_clears :
      (db : Database)
      → length (filter_by (is_sweepable locked now) db.bookings) ≤ batch_size
      → All
          (λ b. is_stale now b ≡ true → locked b.id ≡ true)
          (tick false true locked now db).1.bookings
  unfolding tick sweep transaction expire_stale_holds expire_where
  tick_clears db few =
      let stale = filter_by (is_sweepable locked now) db.bookings in
      let is = first_ids batch_size (order_by_expiry stale) in
      let taken : is ≡ stale_ids (order_by_expiry stale) =
        first_ids-all batch_size (order_by_expiry stale) (rw (length-order stale) few) in
      swept-IsLeft is db.bookings (
        sweepable-among is db.bookings
          (λ k found. ap (any_of (λ j. j == k)) taken ∙ (any_of-order k stale ∙ found)))

-- A tick that loses the election, or that finds one still running, does nothing.
tick_idle :
    (locked : ℕ → Bool) (now : ℕ) (db : Database)
    → (tick false false locked now db ≡ (0, db))
      × ((elected : Bool) → tick true elected locked now db ≡ (0, db))
unfolding tick sweep transaction
tick_idle locked now db = (refl, λ elected. refl)
