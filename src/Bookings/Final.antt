-- ===== src/Bookings/Final.antt =====
-- The hold transaction throws no deadlock and no serialization failure of its own: the code has no
-- statement that makes one, only Postgres does.
use project_atrium.Base.{ℕ, ◌≡◌, false, List, [], ◌∷◌, arith}
use project_atrium.Store.Tables.{AuthPrincipal, Database}
use project_atrium.Store.Transaction.{Failure, Result, ok, err, Tx, pure, ◌>>=◌, transaction}
use project_atrium.Store.Retry.{is_transient_rollback}
use project_atrium.Bookings.StateMachine.{HeldValues, create_held, insert_booking}
use project_atrium.Bookings.Expiry.{expire_stale_holds_for_room, expire_where}
use project_atrium.Bookings.Service.{Env}
use project_atrium.Bookings.Hold.{
  HoldInput, RoomContext, held_values, hold_once, book, create_or_conflict, slot_taken_on_exclusion,
  insert_line_items, admit_equipment, admit_types, requested_from, Priced,
}

-- A transaction that Postgres does not abort throws no transient error of its own.
pub record IsFinal {ℓ} {A : Type ℓ} (m : Tx A) : Type ℓ where
  pub final : (db : Database) (e : Failure) → (m db).0 ≡ err e → is_transient_rollback e ≡ false

bind-IsFinal {ℓ κ} :
    {A : Type ℓ} {B : Type κ} (m : Tx A) (f : A → Tx B)
    → IsFinal m
    → ((a : A) → IsFinal (f a))
    → IsFinal (m >>= f)
bind-IsFinal {A = A} {B = B} m f hm hf = record {
  final = λ db. by_result (m db).0 (m db).1 (hm.final db);
}
  where
    by_result :
        (r : Result A) (db' : Database)
        → ((e : Failure) → r ≡ err e → is_transient_rollback e ≡ false)
        → (e : Failure)
        → (elim r as (λ x. Result B × Database) [ ok a ↦ f a db' | err e ↦ (err e, db') ]).0 ≡ err e
        → is_transient_rollback e ≡ false
    by_result (ok a) db' h e eq = (hf a).final db' e eq
    by_result (err d) db' h e eq = h e (ground (arith, eq))

pure-IsFinal {ℓ} : {A : Type ℓ} (a : A) → IsFinal (pure a)
pure-IsFinal a = record { final = λ db e eq. ground (arith, eq) }

transaction-IsFinal {ℓ} : {A : Type ℓ} (m : Tx A) → IsFinal m → IsFinal (transaction m)
unfolding transaction
transaction-IsFinal {A = A} m hm = record {
  final = λ db. by_result (m db).0 db (m db).1 (hm.final db);
}
  where
    by_result :
        (r : Result A) (db db' : Database)
        → ((e : Failure) → r ≡ err e → is_transient_rollback e ≡ false)
        → (e : Failure)
        → (elim r as (λ x. Result A × Database) [ ok a ↦ (ok a, db') | err e ↦ (err e, db) ]).0
          ≡ err e
        → is_transient_rollback e ≡ false
    by_result (ok a) db db' h e eq = ground (arith, eq)
    by_result (err d) db db' h e eq = h e eq

module _ (now : ℕ) (env : Env) (id : ℕ) (input : HoldInput) (ctx : RoomContext)
    (p : AuthPrincipal) where
  create-IsFinal : (v : HeldValues) → IsFinal (create_or_conflict now id v p)
  unfolding create_or_conflict create_held insert_booking slot_taken_on_exclusion
      is_transient_rollback
  create-IsFinal v = record { final = λ db e eq. ground (arith, eq) }

  insert-IsFinal : (i : ℕ) (priced : List Priced) → IsFinal (insert_line_items i priced)
  unfolding insert_line_items
  insert-IsFinal i priced = record { final = λ db e eq. ground (arith, eq) }

  book-IsFinal : (priced : List Priced) → IsFinal (book now env id input ctx p priced)
  unfolding book
  book-IsFinal priced =
      bind-IsFinal _ _ (create-IsFinal (held_values now env input ctx p priced))
        λ b. bind-IsFinal _ _ (insert-IsFinal b.id priced) λ u. pure-IsFinal b

  admit-IsFinal : (requested : List (ℕ × ℕ)) → IsFinal (admit_equipment now input ctx requested)
  unfolding admit_equipment admit_types is_transient_rollback
  admit-IsFinal [] = record { final = λ db e eq. ground (arith, eq) }
  admit-IsFinal (r ∷ rs) = record { final = λ db e eq. ground (arith, eq) }

  expire-IsFinal : IsFinal (expire_stale_holds_for_room now input.room_id)
  unfolding expire_stale_holds_for_room expire_where
  expire-IsFinal = record { final = λ db e eq. ground (arith, eq) }

  pub once-IsFinal : IsFinal (hold_once now env id input ctx p)
  unfolding hold_once
  once-IsFinal = transaction-IsFinal _ (
      bind-IsFinal _ _ expire-IsFinal λ ids.
        bind-IsFinal _ _ (admit-IsFinal (requested_from [] input.line_items))
          λ priced. book-IsFinal priced)
