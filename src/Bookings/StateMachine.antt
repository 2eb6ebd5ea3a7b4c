-- ===== src/Bookings/StateMachine.antt =====
-- apps/api/src/bookings/booking-state-machine.service.ts, method by method, and the constraint
-- `no_room_overlap` of apps/api/src/db/migrations/0001_constraints.sql that its INSERT meets.
--
-- The id of a new row is an argument, as the database draws it. `metadata` is left out: it is
-- written and never read.
use project_atrium.Base.{
  ℕ, ◌+◌, Bool, false, not, ◌&&◌, Option, none, some, List, ◌∷◌, ltb, ◌==◌, if◌then◌else◌,
  find_first, update_where, any_of,
}
use Prim.Native.String.{String}
use project_atrium.Store.Status.{
  BookingStatus, draft, held, includes, is_legal_transition, is_active,
}
use project_atrium.Store.Tables.{Booking, AuditEvent, Actor}
use project_atrium.Store.Transaction.{
  Conflict, Failure, ok, err, Tx, pure, throw, ◌>>=◌, ◌>>◌, throw_if,
}
use project_atrium.Refunds.Policy.{PolicySnapshot}

-- `Partial<Pick<Booking, …>>`: a field of `none` is not written.
pub record Patch : Type 0 where
  pub expires_at : Option (Option ℕ)
  pub policy_snapshot : Option (Option PolicySnapshot)
  pub total_minor : Option ℕ
  pub rearm_count : Option ℕ

abbrev pub no_patch : Patch
no_patch = record {
  expires_at = none;
  policy_snapshot = none;
  total_minor = none;
  rearm_count = none;
}

-- `TransitionInput`; an absent `expectedFrom` is `none`.
pub record TransitionInput : Type 0 where
  pub booking_id : ℕ
  pub to : BookingStatus
  pub actor : Actor
  pub reason : String
  pub expected_from : Option (List BookingStatus)
  pub patch : Patch

abbrev pub written {ℓ} : {A : Type ℓ} → Option A → A → A
written none old = old
written (some new) old = new

-- `set({ …patch, updatedAt: new Date() })`
abbrev pub apply_patch : Patch → ℕ → Booking → Booking
apply_patch p now b = record b {
  expires_at = written p.expires_at b.expires_at;
  policy_snapshot = written p.policy_snapshot b.policy_snapshot;
  total_minor = written p.total_minor b.total_minor;
  rearm_count = written p.rearm_count b.rearm_count;
  updated_at = now;
}

abbrev pub has_id : ℕ → Booking → Bool
has_id id b = b.id == id

abbrev pub or_not_found {ℓ} : {A : Type ℓ} → Option A → Tx A
or_not_found none = throw Failure.not_found
or_not_found (some a) = pure a

-- `lockForUpdate`
unfoldable pub lock_for_update : ℕ → Tx Booking
lock_for_update id db = or_not_found (find_first (has_id id) db.bookings) db

-- `tx.update(bookings).set(…).where(eq(bookings.id, id)).returning()`
unfoldable pub update_booking : ℕ → (Booking → Booking) → Tx Booking
update_booking id f db =
    let rows = update_where (has_id id) f db.bookings in
    or_not_found (find_first (has_id id) rows) (record db { bookings = rows })

-- `tx.insert(auditEvents).values(…)`
abbrev pub append_audit : AuditEvent → Tx (Unit {0})
append_audit e db = (ok tt, record db { audit = e ∷ db.audit })

-- `input.expectedFrom && !input.expectedFrom.includes(from)`
abbrev pub is_unexpected : Option (List BookingStatus) → BookingStatus → Bool
is_unexpected none s = false
is_unexpected (some ss) s = not (includes ss s)

-- `transition`
unfoldable pub transition : ℕ → TransitionInput → Tx Booking
unfolding lock_for_update update_booking
transition now input = do
  locked ← lock_for_update input.booking_id
  throw_if (is_unexpected input.expected_from locked.status)
      (Failure.conflict (Conflict.unexpected_state locked.status))
  throw_if (not (is_legal_transition locked.status input.to))
      (Failure.conflict (Conflict.illegal_transition locked.status input.to))
  updated ←
      update_booking input.booking_id
        (λ b. record (apply_patch input.patch now b) { status = input.to })
  append_audit (record {
    booking_id = updated.id;
    actor = input.actor;
    from_state = locked.status;
    to_state = input.to;
    reason = input.reason;
  })
  pure updated

-- `recordSideEffect`
unfoldable pub record_side_effect :
    ℕ → ℕ → Actor → String → Patch → Option (List BookingStatus) → Tx Booking
unfolding lock_for_update update_booking
record_side_effect now id actor reason patch expected_from = do
  locked ← lock_for_update id
  throw_if (is_unexpected expected_from locked.status)
      (Failure.conflict (Conflict.unexpected_state locked.status))
  updated ← update_booking id (apply_patch patch now)
  append_audit (record {
    booking_id = updated.id;
    actor = actor;
    from_state = locked.status;
    to_state = locked.status;
    reason = reason;
  })
  pure updated

-- The turnaround that `bookings.slot` carries: 15 minutes.
abbrev pub turnaround : ℕ
turnaround = 900000

-- `room_id WITH =, slot WITH &&`, where the slot is `[starts_at, ends_at + 15 minutes)`.
unfoldable pub clashes : Booking → Booking → Bool
clashes b c =
    b.room_id == c.room_id
    && ltb b.starts_at (c.ends_at + turnaround)
    && ltb c.starts_at (b.ends_at + turnaround)

-- `no_room_overlap`: does an active row that clashes with an active `b` stand in the table?
unfoldable pub is_excluded : Booking → List Booking → Bool
is_excluded b rows = is_active b.status && any_of (λ c. is_active c.status && clashes b c) rows

-- `tx.insert(bookings)`
unfoldable pub insert_booking : Booking → Tx Booking
unfolding is_excluded
insert_booking b db =
    if is_excluded b db.bookings
    then (err Failure.exclusion_violation, db)
    else (ok b, record db { bookings = b ∷ db.bookings })

-- The `values` of `createHeld`.
pub record HeldValues : Type 0 where
  pub venue_id : ℕ
  pub room_id : ℕ
  pub user_id : ℕ
  pub starts_at : ℕ
  pub ends_at : ℕ
  pub expires_at : ℕ
  pub total_minor : ℕ

-- The row that `createHeld` inserts, with the columns' defaults.
abbrev pub held_row : ℕ → ℕ → HeldValues → Booking
held_row now id v = record {
  id = id;
  venue_id = v.venue_id;
  room_id = v.room_id;
  user_id = v.user_id;
  starts_at = v.starts_at;
  ends_at = v.ends_at;
  status = held;
  expires_at = some v.expires_at;
  rearm_count = 0;
  policy_snapshot = none;
  total_minor = v.total_minor;
  created_at = now;
  updated_at = now;
}

-- `createHeld`
unfoldable pub create_held : ℕ → ℕ → HeldValues → Actor → String → Tx Booking
unfolding insert_booking
create_held now id values actor reason = do
  created ← insert_booking (held_row now id values)
  append_audit (record {
    booking_id = created.id;
    actor = actor;
    from_state = draft;
    to_state = held;
    reason = reason;
  })
  pure created
