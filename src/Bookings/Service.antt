-- ===== src/Bookings/Service.antt =====
-- apps/api/src/bookings/bookings.service.ts: re-arm at checkout and cancellation. `metadata` and
-- the texts of the messages are left out.
use project_atrium.Base.{
  ℕ, ◌+◌, ◌*◌, min, Bool, true, not, ◌&&◌, ◌||◌, Option, none, some, [], ◌∷◌, leb, ◌==◌,
  if◌then◌else◌, find_first,
}
use Prim.Native.String.{String}
use project_atrium.Store.Status.{
  UserRole, customer, venue_staff, venue_admin, platform_admin, BookingStatus, held,
  pending_payment, confirmed, cancelled, is_status, is_active,
}
use project_atrium.Store.Tables.{AuthPrincipal, Booking, system_actor, user_actor}
use project_atrium.Store.Transaction.{
  Conflict, Failure, Result, ok, err, Tx, throw, ◌>>=◌, ◌>>◌, throw_if, transaction,
}
use project_atrium.Bookings.StateMachine.{
  no_patch, has_id, or_not_found, transition, record_side_effect,
}
use project_atrium.Bookings.Equipment.{is_due}

-- The settings of apps/api/src/config/env.ts that the booking service reads.
pub record Env : Type 0 where
  pub hold_ttl_seconds : ℕ
  pub checkout_rearm_seconds : ℕ
  pub max_hold_rearms : ℕ
  pub max_hold_lifetime_seconds : ℕ
  pub transient_retry_attempts : ℕ

-- `scopeFilter`: the rows a principal may act on, by the role and the venue of the token.
unfoldable pub scope_of : UserRole → Option ℕ → ℕ → Result (Booking → Bool)
scope_of platform_admin venue user = ok (λ b. true)
scope_of venue_admin none user = err Failure.forbidden
scope_of venue_admin (some v) user = ok (λ b. b.venue_id == v)
scope_of venue_staff none user = err Failure.forbidden
scope_of venue_staff (some v) user = ok (λ b. b.venue_id == v)
scope_of customer venue user = ok (λ b. b.user_id == user)

unfoldable pub scope_filter : AuthPrincipal → Result (Booking → Bool)
unfolding scope_of
scope_filter p = scope_of p.role p.venue_id p.user_id

-- A select of one row by its id and a scope.
unfoldable pub select_scoped : ℕ → Result (Booking → Bool) → Tx Booking
select_scoped id (err e) db = (err e, db)
select_scoped id (ok scope) db =
    or_not_found (find_first (λ b. has_id id b && scope b) db.bookings) db

-- `loadOwnedBooking`
unfoldable pub load_owned_booking : ℕ → AuthPrincipal → Tx Booking
unfolding select_scoped scope_filter
load_owned_booking id p = select_scoped id (scope_filter p)

-- The last instant up to which a hold may live.
abbrev pub lifetime_cap : Env → Booking → ℕ
lifetime_cap env b = b.created_at + env.max_hold_lifetime_seconds * 1000

-- The body of `checkout` behind the tests on the booking's state and expiry.
unfoldable pub rearm : ℕ → Env → ℕ → AuthPrincipal → Booking → Tx Booking
rearm now env id p booking = do
  throw_if (leb env.max_hold_rearms booking.rearm_count)
      (Failure.conflict (Conflict.rearm_limit booking.rearm_count))
  throw_if (leb (lifetime_cap env booking) now) (Failure.conflict Conflict.lifetime_over)
  let requested = now + env.checkout_rearm_seconds * 1000
  record_side_effect now id (user_actor p) "hold.rearmed"
      (record {
        expires_at = some (some (min requested (lifetime_cap env booking)));
        policy_snapshot = none;
        total_minor = none;
        rearm_count = some (booking.rearm_count + 1);
      })
      (some (held ∷ pending_payment ∷ []))

-- The transition to EXPIRED of a hold that lapsed, and the 409 thrown behind it.
unfoldable pub expire_on_checkout : ℕ → ℕ → Tx Booking
expire_on_checkout now id = do
  transition now (record {
    booking_id = id;
    to = BookingStatus.expired;
    actor = system_actor;
    reason = "hold.expired.on_checkout";
    expected_from = some (held ∷ pending_payment ∷ []);
    patch = no_patch;
  })
  throw (Failure.conflict Conflict.hold_expired)

-- `checkout`
unfoldable pub checkout : ℕ → Env → ℕ → AuthPrincipal → Tx Booking
checkout now env id p = transaction (do
  booking ← load_owned_booking id p
  throw_if (not (is_active booking.status) || is_status booking.status confirmed)
      (Failure.conflict (Conflict.wrong_state booking.status))
  if is_due booking.expires_at now then expire_on_checkout now id else rearm now env id p booking)

-- `cancel`, the state only; the money is settled by the payment service behind it.
unfoldable pub cancel : ℕ → ℕ → String → AuthPrincipal → Tx Booking
cancel now id reason p = transaction (do
  booking ← load_owned_booking id p
  transition now (record {
    booking_id = booking.id;
    to = cancelled;
    actor = user_actor p;
    reason = reason;
    expected_from = none;
    patch = no_patch;
  }))
