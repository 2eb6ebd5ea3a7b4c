-- ===== src/Bookings/Expiry.antt =====
-- apps/api/src/bookings/booking-state-machine.service.ts: the expiry of holds that lapsed, in the
-- hold transaction of their room and by the sweeper.
use project_atrium.Base.{
  ℕ, suc, Bool, false, not, ◌&&◌, Option, none, some, List, [], ◌∷◌, map, ltb, ◌==◌, if◌then◌else◌,
  update_where, filter_by, any_of, zero,
}
use Prim.Native.String.{String}
use project_atrium.Store.Status.{BookingStatus, held, is_status}
use project_atrium.Store.Tables.{Booking, AuditEvent, Actor, system_actor}
use project_atrium.Store.Transaction.{ok, Tx}
use project_atrium.Bookings.StateMachine.{written}

-- `expires_at < now()`, which is not true of NULL.
abbrev pub is_before : Option ℕ → ℕ → Bool
is_before none now = false
is_before (some t) now = ltb t now

-- The condition of `expireStaleHoldsForRoom`.
unfoldable pub is_stale_in : ℕ → ℕ → Booking → Bool
is_stale_in now room b =
    b.room_id == room && (is_status b.status held && is_before b.expires_at now)

abbrev pub expire_row : ℕ → Booking → Booking
expire_row now b = record b { status = BookingStatus.expired; updated_at = now }

abbrev pub expiry_event : Actor → String → ℕ → AuditEvent
expiry_event actor reason id = record {
  booking_id = id;
  actor = actor;
  from_state = held;
  to_state = BookingStatus.expired;
  reason = reason;
}

-- The loop that audits each row that was expired.
unfoldable pub audit_expired : Actor → String → List ℕ → List AuditEvent → List AuditEvent
audit_expired actor reason [] trail = trail
audit_expired actor reason (id ∷ ids) trail =
    audit_expired actor reason ids (expiry_event actor reason id ∷ trail)

-- An UPDATE to EXPIRED of all rows that meet a condition, with the audit of each.
unfoldable pub expire_where : ℕ → (Booking → Bool) → Actor → String → Tx (List ℕ)
unfolding audit_expired
expire_where now stale actor reason db =
    let ids = map (λ (b : Booking). b.id) (filter_by stale db.bookings) in
    (
      ok ids,
      record db {
        bookings = update_where stale (expire_row now) db.bookings;
        audit = audit_expired actor reason ids db.audit;
      },
    )

-- `expireStaleHoldsForRoom`
unfoldable pub expire_stale_holds_for_room : ℕ → ℕ → Tx (List ℕ)
expire_stale_holds_for_room now room =
    expire_where now (is_stale_in now room) system_actor "hold.expired.in_transaction"

-- The CTE of `expireStaleHolds`: the stale holds, those that lapsed first before the others, and
-- at most `limit` of them.
unfoldable pub is_stale : ℕ → Booking → Bool
is_stale now b = is_status b.status held && is_before b.expires_at now

abbrev pub expiry_or_zero : Booking → ℕ
expiry_or_zero b = written b.expires_at 0

unfoldable pub insert_by_expiry : Booking → List Booking → List Booking
insert_by_expiry b [] = b ∷ []
insert_by_expiry b (c ∷ cs) =
    let rest = insert_by_expiry b cs in
    if ltb (expiry_or_zero c) (expiry_or_zero b) then c ∷ rest else b ∷ c ∷ cs

unfoldable pub order_by_expiry : List Booking → List Booking
unfolding insert_by_expiry
order_by_expiry [] = []
order_by_expiry (b ∷ bs) = insert_by_expiry b (order_by_expiry bs)

unfoldable pub first_ids : ℕ → List Booking → List ℕ
first_ids zero bs = []
first_ids (suc n) [] = []
first_ids (suc n) (b ∷ bs) = b.id ∷ first_ids n bs

abbrev pub is_among : List ℕ → Booking → Bool
is_among ids b = any_of (λ id. id == b.id) ids

-- A stale hold that no other transaction has locked: `FOR UPDATE SKIP LOCKED` leaves the others out
-- before the LIMIT counts.
unfoldable pub is_sweepable : (ℕ → Bool) → ℕ → Booking → Bool
unfolding is_stale
is_sweepable locked now b = is_stale now b && not (locked b.id)

-- `expireStaleHolds`, the sweeper's half, while other transactions hold the locks of some ids.
unfoldable pub expire_stale_holds : (ℕ → Bool) → ℕ → ℕ → Tx (List ℕ)
unfolding expire_where is_sweepable order_by_expiry first_ids
expire_stale_holds locked now limit db =
    let ids = first_ids limit (order_by_expiry (filter_by (is_sweepable locked now) db.bookings)) in
    expire_where now (is_among ids) system_actor "hold.expired.sweeper" db
