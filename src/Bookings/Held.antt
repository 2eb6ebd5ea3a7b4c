-- ===== src/Bookings/Held.antt =====
-- The hold transaction and the sweeper's expiry keep the laws of the table `bookings`.
use project_atrium.Base.{
  ℕ, zero, suc, ◌≡◌, refl, Bool, true, false, List, [], ◌∷◌, any_of, ◌==◌, arith, All, All-map,
  filter_by, ◌≢◌, subst, sym,
}
use project_atrium.Store.Status.{held, is_status_sound}
use project_atrium.Store.Tables.{
  AuthPrincipal, AuditEvent, Actor, Booking, Database, system_actor, user_actor,
}
use Prim.Native.String.{String}
use project_atrium.Store.Transaction.{Result, ok, err, Tx, pure, ◌>>=◌, ◌>>◌}
use project_atrium.Bookings.StateMachine.{HeldValues}
use project_atrium.Bookings.Expiry.{
  is_stale, is_sweepable, insert_by_expiry, order_by_expiry, first_ids, is_among,
  expire_stale_holds, audit_expired, expiry_event, expire_where, expire_row,
  expire_stale_holds_for_room, is_stale_in,
}
use project_atrium.Bookings.Trail.{IsSound, ids, ids-update_where}
use project_atrium.Bookings.Creation.{IsFresh, create_held-IsSound}
use project_atrium.Bookings.Expired.{
  IsSelected, All-IsSelected, filter_by-ids, expire_where-IsSound, expire_room-IsSound,
}
use project_atrium.Bookings.Keeps.{Keeps, same-IsSound, transaction-IsSound}
use project_atrium.Bookings.Service.{Env}
use project_atrium.Bookings.Hold.{
  HoldInput, RoomContext, Priced, admit_types, admit_equipment, create_or_conflict,
  insert_line_items, held_values, book, hold_once, requested_from,
}

abbrev has : ℕ → List ℕ → Bool
has i l = any_of (λ j. j == i) l

insert-has :
    (i : ℕ) (b : Booking) (bs : List Booking)
    → has i (ids (insert_by_expiry b bs)) ≡ true
    → has i (ids (b ∷ bs)) ≡ true
unfolding insert_by_expiry
insert-has i b [] h = h
insert-has i b (c ∷ cs) h = ground (arith, insert-has i b cs)

order-has :
    (i : ℕ) (bs : List Booking) → has i (ids (order_by_expiry bs)) ≡ true → has i (ids bs) ≡ true
unfolding order_by_expiry
order-has i [] h = h
order-has i (b ∷ bs) h = ground (arith, insert-has i b (order_by_expiry bs), order-has i bs)

first-has : (i n : ℕ) (bs : List Booking) → has i (first_ids n bs) ≡ true → has i (ids bs) ≡ true
unfolding first_ids
first-has i zero bs h = cc
first-has i (suc n) [] h = cc
first-has i (suc n) (b ∷ bs) h = ground (arith, first-has i n bs)

-- The sweeper's expiry, for any limit.
pub Keeps-expire_stale_holds :
    (locked : ℕ → Bool) (now limit : ℕ) → Keeps (expire_stale_holds locked now limit)
unfolding expire_stale_holds is_sweepable is_stale
Keeps-expire_stale_holds locked now limit = record {
  keep = λ db s.
      let stale : List Booking = filter_by (is_sweepable locked now) db.bookings in
      let chosen : List ℕ = first_ids limit (order_by_expiry stale) in
      expire_where-IsSound now (is_among chosen) system_actor "hold.expired.sweeper" db
        (All-map (IsSelected (is_sweepable locked now) (ids stale))
          (λ b. is_among chosen b ≡ true → b.status ≡ held) db.bookings
          (λ b selected hit. is_status_sound b.status held (
            ground (
              arith,
              selected,
              order-has b.id stale,
              first-has b.id limit (order_by_expiry stale),
            )))
          (All-IsSelected (is_sweepable locked now) db.bookings s.unique))
        s;
}

events_elsewhere :
    (id : ℕ) (actor : Actor) (reason : String) (is : List ℕ) (trail : List AuditEvent)
    → has id is ≡ false
    → All (λ e. e.booking_id ≢ id) trail
    → All (λ e. e.booking_id ≢ id) (audit_expired actor reason is trail)
unfolding audit_expired
events_elsewhere id actor reason [] trail none_of h = h
events_elsewhere id actor reason (i ∷ is) trail none_of h =
    events_elsewhere id actor reason is (expiry_event actor reason i ∷ trail) (ground arith)
      ((λ same. ground (arith, same)), h)

-- An expiry draws no id.
expire_room-IsFresh :
    (now room id : ℕ) (db : Database)
    → IsFresh id db
    → IsFresh id (expire_stale_holds_for_room now room db).1
unfolding expire_stale_holds_for_room expire_where
expire_room-IsFresh now room id db fresh = record {
  no_booking =
      subst (λ l. has id l ≡ false)
        (sym (ids-update_where (is_stale_in now room) (expire_row now) db.bookings (λ x. refl)))
        fresh.no_booking;
  no_event =
      events_elsewhere id system_actor "hold.expired.in_transaction"
        (ids (filter_by (is_stale_in now room) db.bookings)) db.audit
        (filter_by-ids (is_stale_in now room) id db.bookings fresh.no_booking) fresh.no_event;
}

-- The admission of equipment writes nothing.
admit_equipment-same :
    (now : ℕ) (input : HoldInput) (ctx : RoomContext) (requested : List (ℕ × ℕ)) (db : Database)
    → (admit_equipment now input ctx requested db).1 ≡ db
unfolding admit_equipment admit_types
admit_equipment-same now input ctx [] db = refl
admit_equipment-same now input ctx (r ∷ rs) db = ground arith

module _ (now : ℕ) (env : Env) (id : ℕ) (input : HoldInput) (ctx : RoomContext)
    (p : AuthPrincipal) where
  create-IsSound :
      (v : HeldValues) (db : Database)
      → IsFresh id db
      → IsSound db
      → IsSound (create_or_conflict now id v p db).1
  unfolding create_or_conflict
  create-IsSound v db fresh s =
      create_held-IsSound now id v (user_actor p) "hold.created" db fresh s

  inserted-IsSound :
      (r : Result Booking) (db : Database) (priced : List Priced)
      → IsSound db
      → IsSound
          (elim r as (λ x. Result Booking × Database) [
            | ok b ↦ (do insert_line_items b.id priced; pure b) db
            | err e ↦ (err e, db)
          ]).1
  unfolding insert_line_items
  inserted-IsSound (ok b) db priced s = same-IsSound db _ refl refl s
  inserted-IsSound (err e) db priced s = s

  book-IsSound :
      (priced : List Priced) (db : Database)
      → IsFresh id db
      → IsSound db
      → IsSound (book now env id input ctx p priced db).1
  unfolding book
  book-IsSound priced db fresh s =
      let v : HeldValues = held_values now env input ctx p priced in
      inserted-IsSound (create_or_conflict now id v p db).0 (create_or_conflict now id v p db).1
        priced (create-IsSound v db fresh s)

  admitted-IsSound :
      (r : Result (List Priced)) (db db' : Database)
      → db' ≡ db
      → IsFresh id db
      → IsSound db
      → IsSound
          (elim r as (λ x. Result Booking × Database) [
            | ok priced ↦ book now env id input ctx p priced db'
            | err e ↦ (err e, db')
          ]).1
  admitted-IsSound (ok priced) db db' same fresh s = rw same (book-IsSound priced db fresh s)
  admitted-IsSound (err e) db db' same fresh s = rw same s

  expired : Database → Database
  expired db = (expire_stale_holds_for_room now input.room_id db).1

  body-IsSound :
      (db : Database)
      → IsFresh id db
      → IsSound db
      → IsSound
          ((do
            expire_stale_holds_for_room now input.room_id
            priced ← admit_equipment now input ctx (requested_from [] input.line_items)
            book now env id input ctx p priced)
            db).1
  unfolding expired expire_stale_holds_for_room expire_where
  body-IsSound db fresh s =
      let requested : List (ℕ × ℕ) = requested_from [] input.line_items in
      let after : Tx (List Priced) = admit_equipment now input ctx requested in
      admitted-IsSound (after (expired db)).0 (expired db) (after (expired db)).1
        (admit_equipment-same now input ctx requested (expired db))
        (expire_room-IsFresh now input.room_id id db fresh)
        (expire_room-IsSound now input.room_id db s)

  -- The hold transaction, on every branch and under an id that the database has not drawn, leaves
  -- a sound table of bookings sound: audit chains, unique ids, no overlap of active bookings.
  pub hold_once-IsSound :
      (db : Database) → IsFresh id db → IsSound db → IsSound (hold_once now env id input ctx p db).1
  unfolding hold_once
  hold_once-IsSound db fresh s = transaction-IsSound _ db s (body-IsSound db fresh s)
