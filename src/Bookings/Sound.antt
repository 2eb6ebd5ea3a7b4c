-- ===== src/Bookings/Sound.antt =====
-- The service's transactions keep the laws of the table `bookings`.
use project_atrium.Base.{ℕ, Bool, Option, none, some, find_first, ◌&&◌}
use Prim.Native.String.{String}
use project_atrium.Store.Tables.{AuthPrincipal, Booking}
use project_atrium.Store.Transaction.{Failure, Result, ok, err}
use project_atrium.Bookings.StateMachine.{has_id, or_not_found}
use project_atrium.Bookings.Keeps.{
  Keeps, Keeps-pure, Keeps-throw, Keeps-throw_if, Keeps-if, Keeps-bind, Keeps-transition,
  Keeps-side_effect, Keeps-transaction,
}
use project_atrium.Bookings.Service.{
  Env, select_scoped, scope_filter, load_owned_booking, rearm, expire_on_checkout, checkout, cancel,
}

Keeps-or_not_found {ℓ} : {A : Type ℓ} (o : Option A) → Keeps (or_not_found o)
Keeps-or_not_found none = Keeps-throw _ Failure.not_found
Keeps-or_not_found (some a) = Keeps-pure a

-- A select writes nothing.
pub Keeps-select_scoped :
    (id : ℕ) (scope : Result (Booking → Bool)) → Keeps (select_scoped id scope)
unfolding select_scoped
Keeps-select_scoped id (ok scope) = record {
  keep =
      λ db s. (Keeps-or_not_found (find_first (λ b. has_id id b && scope b) db.bookings)).keep db s;
}
Keeps-select_scoped id (err e) = Keeps-throw _ e

ruleset service_rules = (
  Keeps-pure, Keeps-throw, Keeps-throw_if, Keeps-if, Keeps-bind, Keeps-transition,
  Keeps-side_effect, Keeps-transaction,
)

Keeps-load_owned_booking : (id : ℕ) (p : AuthPrincipal) → Keeps (load_owned_booking id p)
unfolding load_owned_booking
Keeps-load_owned_booking id p = Keeps-select_scoped id (scope_filter p)

Keeps-rearm :
    (now : ℕ) (env : Env) (id : ℕ) (p : AuthPrincipal) (b : Booking) → Keeps (rearm now env id p b)
unfolding rearm
Keeps-rearm now env id p b = search service_rules

Keeps-expire_on_checkout : (now id : ℕ) → Keeps (expire_on_checkout now id)
unfolding expire_on_checkout
Keeps-expire_on_checkout now id = search service_rules

-- Checkout, on every branch.
pub Keeps-checkout :
    (now : ℕ) (env : Env) (id : ℕ) (p : AuthPrincipal) → Keeps (checkout now env id p)
unfolding checkout
Keeps-checkout now env id p =
    search (service_rules, Keeps-load_owned_booking, Keeps-rearm, Keeps-expire_on_checkout)

-- Cancellation.
pub Keeps-cancel :
    (now id : ℕ) (reason : String) (p : AuthPrincipal) → Keeps (cancel now id reason p)
unfolding cancel
Keeps-cancel now id reason p = search (service_rules, Keeps-load_owned_booking)
