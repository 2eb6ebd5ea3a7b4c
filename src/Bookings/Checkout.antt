-- ===== src/Bookings/Checkout.antt =====
-- Checkout: what it leaves on each branch.
use project_atrium.Base.{
  ℕ, ◌+◌, ◌*◌, ◌<◌, min, ◌≡◌, refl, ◌⊎◌, inl, inr, true, false, not, ◌||◌, none, some, ◌∷◌, [], leb,
  find_first, arith, Bool-cases, find_first-update_where, if◌then◌else◌, subst,
}
use project_atrium.Store.Status.{
  BookingStatus, held, pending_payment, confirmed, is_status, is_active, is_legal_transition,
}
use project_atrium.Store.Tables.{AuthPrincipal, Booking, Database, system_actor, user_actor}
use project_atrium.Store.Transaction.{Conflict, Failure, Result, ok, err, transaction}
use project_atrium.Bookings.StateMachine.{Patch, no_patch, TransitionInput, has_id, apply_patch}
use project_atrium.Bookings.Outcomes.{transition_found, after_side_effect, side_effect_found}
use project_atrium.Bookings.Trail.{IsDistinct, ids}
use project_atrium.Bookings.Equipment.{is_due}
use project_atrium.Bookings.Service.{
  Env, load_owned_booking, lifetime_cap, rearm, expire_on_checkout, checkout,
}
use project_atrium.Bookings.Scope.{MayActOn, load_owned_cases}

-- A booking that waits for its customer: HELD or PENDING_PAYMENT.
abbrev pub IsWaiting : Booking → Type 0
IsWaiting b = (b.status ≡ held) ⊎ (b.status ≡ pending_payment)

-- The expiry that a re-arm writes: the requested one, or the end of the hold's lifetime.
abbrev pub new_expiry : ℕ → Env → Booking → ℕ
new_expiry now env b = min (now + env.checkout_rearm_seconds * 1000) (lifetime_cap env b)

abbrev rearm_patch : ℕ → Env → Booking → Patch
rearm_patch now env b = record {
  expires_at = some (some (new_expiry now env b));
  policy_snapshot = none;
  total_minor = none;
  rearm_count = some (b.rearm_count + 1);
}

abbrev pub rearmed : ℕ → Env → Booking → Booking
rearmed now env b = apply_patch (rearm_patch now env b) now b

module _ (now : ℕ) (env : Env) (id : ℕ) (p : AuthPrincipal) (b : Booking) (db : Database) where
  abbrev after_rearm : Database
  after_rearm = after_side_effect now id (user_actor p) "hold.rearmed" (rearm_patch now env b) b db

  rearm_outcome :
      find_first (has_id id) db.bookings ≡ some b
      → IsWaiting b
      → rearm now env id p b db ≡ (
          if leb env.max_hold_rearms b.rearm_count
          then (err (Failure.conflict (Conflict.rearm_limit b.rearm_count)), db)
          else if leb (lifetime_cap env b) now
          then (err (Failure.conflict Conflict.lifetime_over), db)
          else (ok (rearmed now env b), after_rearm))
  unfolding rearm
  rearm_outcome found waiting = ground (
    arith,
    side_effect_found now id (user_actor p) "hold.rearmed" (rearm_patch now env b)
        (some (held ∷ pending_payment ∷ [])) db b found,
  )

  after_rearm_found :
      find_first (has_id id) db.bookings ≡ some b
      → find_first (has_id id) after_rearm.bookings ≡ some (rearmed now env b)
  after_rearm_found found =
      find_first-update_where (has_id id) (apply_patch (rearm_patch now env b) now) db.bookings b
        (λ x. refl) found

-- What an outcome of `checkout` for the row `b` says where it is a success.
abbrev IsRearmed : ℕ → Env → ℕ → Booking → Result Booking × Database → Type 0
IsRearmed now env id b (ok b', db') =
    (b.rearm_count < env.max_hold_rearms)
    × (now < lifetime_cap env b)
    × (b' ≡ rearmed now env b)
    × (find_first (has_id id) db'.bookings ≡ some b')
IsRearmed now env id b (err e, db') = Unit

rearm-IsRearmed :
    (now : ℕ) (env : Env) (id : ℕ) (p : AuthPrincipal) (b : Booking) (db : Database)
    → find_first (has_id id) db.bookings ≡ some b
    → IsWaiting b
    → IsRearmed now env id b (rearm now env id p b db)
rearm-IsRearmed now env id p b db found waiting =
    rw (rearm_outcome now env id p b db found waiting)
      (elim (Bool-cases (leb env.max_hold_rearms b.rearm_count)) [
        | inl full ↦ rw full tt
        | inr room ↦ rw room (elim (Bool-cases (leb (lifetime_cap env b) now)) [
          | inl over ↦ rw over tt
          | inr left ↦
              rw left (ground arith, ground arith, refl, after_rearm_found now env id p b db found)
        ])
      ])

IsWaiting-of_tests :
    (b : Booking) → not (is_active b.status) || is_status b.status confirmed ≡ false → IsWaiting b
unfolding is_active
IsWaiting-of_tests b h = ground arith

-- The transition behind the lapse of a hold goes through, and the 409 follows it.
expire_on_checkout_refuses :
    (now id : ℕ) (b : Booking) (db : Database)
    → find_first (has_id id) db.bookings ≡ some b
    → IsWaiting b
    → (expire_on_checkout now id db).0 ≡ err (Failure.conflict Conflict.hold_expired)
unfolding expire_on_checkout is_legal_transition
expire_on_checkout_refuses now id b db found waiting =
    ground (arith, transition_found now expiry db b found)
  where
    expiry : TransitionInput
    expiry = record {
      booking_id = id;
      to = BookingStatus.expired;
      actor = system_actor;
      reason = "hold.expired.on_checkout";
      expected_from = some (held ∷ pending_payment ∷ []);
      patch = no_patch;
    }

module _ (now : ℕ) (env : Env) (id : ℕ) (p : AuthPrincipal) (db : Database) (b : Booking) where
  checkout_refused :
      load_owned_booking id p db ≡ (ok b, db)
      → not (is_active b.status) || is_status b.status confirmed ≡ true
      → checkout now env id p db ≡ (err (Failure.conflict (Conflict.wrong_state b.status)), db)
  unfolding checkout transaction
  checkout_refused loaded test = ground (arith, loaded)

  checkout_due :
      load_owned_booking id p db ≡ (ok b, db)
      → find_first (has_id id) db.bookings ≡ some b
      → not (is_active b.status) || is_status b.status confirmed ≡ false
      → is_due b.expires_at now ≡ true
      → checkout now env id p db ≡ (err (Failure.conflict Conflict.hold_expired), db)
  unfolding checkout transaction
  checkout_due loaded found test due =
      ground
        (arith, loaded, expire_on_checkout_refuses now id b db found (IsWaiting-of_tests b test))

  checkout_live :
      load_owned_booking id p db ≡ (ok b, db)
      → not (is_active b.status) || is_status b.status confirmed ≡ false
      → is_due b.expires_at now ≡ false
      → checkout now env id p db ≡ transaction (rearm now env id p b) db
  unfolding checkout transaction
  checkout_live loaded test live = ground (arith, loaded)

-- Where ids are distinct, a checkout that succeeds has re-armed the row of that id, which the
-- principal may act on: it waits for its customer and has not lapsed, the number of re-arms was
-- below its limit and the lifetime was not over. In the new row only the expiry, the number of re-
-- arms and `updated_at` differ: the expiry is the requested one or the end of the lifetime,
-- whichever is earlier.
pub checkout_ok :
    (now : ℕ) (env : Env) (id : ℕ) (p : AuthPrincipal) (db : Database) (b' : Booking)
    (db' : Database)
    → IsDistinct (ids db.bookings)
    → checkout now env id p db ≡ (ok b', db')
    → (b : Booking) × (find_first (has_id id) db.bookings ≡ some b)
      × MayActOn p b
      × IsWaiting b
      × (is_due b.expires_at now ≡ false)
      × (b.rearm_count < env.max_hold_rearms)
      × (now < lifetime_cap env b)
      × (b' ≡ rearmed now env b)
      × (find_first (has_id id) db'.bookings ≡ some b')
checkout_ok now env id p db b' db' d e = elim (load_owned_cases id p db d) [
  | inl (inl no_scope) ↦ absurd (unfold checkout transaction in ground (arith, no_scope))
  | inl (inr no_row) ↦ absurd (unfold checkout transaction in ground (arith, no_row))
  | inr (b, loaded, found, may) ↦
      elim (Bool-cases (not (is_active b.status) || is_status b.status confirmed)) [
        | inl wrong ↦ ground (arith, checkout_refused now env id p db b loaded wrong)
        | inr test ↦ elim (Bool-cases (is_due b.expires_at now)) [
          | inl due ↦ ground (arith, checkout_due now env id p db b loaded found test due)
          | inr live ↦
              let waiting : IsWaiting b = IsWaiting-of_tests b test in
              let done : rearm now env id p b db ≡ (ok b', db') =
                unfold transaction in
                ground (arith, checkout_live now env id p db b loaded test live) in
              let facts : IsRearmed now env id b (ok b', db') =
                subst (IsRearmed now env id b) done
                  (rearm-IsRearmed now env id p b db found waiting) in
              (b, found, may, waiting, live, facts.0, facts.1, facts.2, facts.3)
        ]
      ]
]

-- A checkout of a hold that has lapsed answers that it has expired, and leaves the database as
-- it was: the transition to EXPIRED is undone with the transaction that throws.
pub checkout_lapsed :
    (now : ℕ) (env : Env) (id : ℕ) (p : AuthPrincipal) (db : Database) (b : Booking)
    → load_owned_booking id p db ≡ (ok b, db)
    → find_first (has_id id) db.bookings ≡ some b
    → IsWaiting b
    → is_due b.expires_at now ≡ true
    → (checkout now env id p db ≡ (err (Failure.conflict Conflict.hold_expired), db))
      × (find_first (has_id id) (checkout now env id p db).1.bookings ≡ some b)
checkout_lapsed now env id p db b loaded found waiting due =
    let e : checkout now env id p db ≡ (err (Failure.conflict Conflict.hold_expired), db) =
      checkout_due now env id p db b loaded found (unfold is_active in ground (arith, waiting))
        due in
    (e, rw e found)
