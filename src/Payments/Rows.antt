-- ===== src/Payments/Rows.antt =====
-- apps/api/src/payments/payments.service.ts: the lookups and updates of the table `payments`, the
-- scope of the caller, and the choice of a cancellation policy.
--
-- The UNIQUE columns with ids that the provider draws (`charge_id`, `refund_id`) are not checked
-- on an update: the provider draws an id once.
use project_atrium.Base.{
  ℕ, Bool, true, false, ◌&&◌, Option, none, some, List, [], ◌∷◌, ltb, ◌==◌, if◌then◌else◌,
  find_first, update_where, filter_by,
}
use project_atrium.Store.Status.{
  UserRole, customer, venue_staff, venue_admin, platform_admin, PaymentStatus, is_payment,
}
use project_atrium.Store.Tables.{
  AuthPrincipal, Booking, Payment, IdempotencyKey, is_key, PolicyRow, Database,
}
use project_atrium.Store.Transaction.{Failure, Result, ok, err, Tx}
use project_atrium.Refunds.Policy.{Tier, PolicySnapshot, ResolvedFrom, venue, platform, parse_tiers}
use project_atrium.Bookings.Service.{select_scoped}

-- The service's own `scopeFilter`: staff with no venue in the token see no row.
unfoldable pub payment_scope_of : UserRole → Option ℕ → ℕ → Booking → Bool
payment_scope_of platform_admin v user b = true
payment_scope_of venue_admin none user b = false
payment_scope_of venue_admin (some v) user b = b.venue_id == v
payment_scope_of venue_staff none user b = false
payment_scope_of venue_staff (some v) user b = b.venue_id == v
payment_scope_of customer v user b = b.user_id == user

-- `loadOwned`
unfoldable pub load_owned : ℕ → AuthPrincipal → Tx Booking
load_owned id p = select_scoped id (ok (payment_scope_of p.role p.venue_id p.user_id))

abbrev pub is_text : Option ℕ → ℕ → Bool
is_text none t = false
is_text (some u) t = u == t

abbrev pub with_key : IdempotencyKey → Payment → Bool
with_key k r = is_key r.idempotency_key k

abbrev pub with_id : ℕ → Payment → Bool
with_id id r = r.id == id

abbrev pub with_charge : ℕ → Payment → Bool
with_charge c r = is_text r.charge_id c

-- `findPaymentByKey`
unfoldable pub find_payment_by_key : IdempotencyKey → Database → Option Payment
find_payment_by_key k db = find_first (with_key k) db.payments

-- `findPaymentById`
unfoldable pub find_payment_by_id : ℕ → Database → Option Payment
find_payment_by_id id db = find_first (with_id id) db.payments

-- `findPaymentByChargeId`
unfoldable pub find_payment_by_charge_id : ℕ → Database → Option Payment
find_payment_by_charge_id c db = find_first (with_charge c) db.payments

-- `findCapturedPayment`
unfoldable pub find_captured_payment : ℕ → Database → Option Payment
find_captured_payment booking_id db =
    find_first
      (λ (r : Payment). r.booking_id == booking_id && is_payment r.status PaymentStatus.succeeded)
      db.payments

-- `tx.update(payments).set(f).where(p)`
abbrev pub update_payments : (Payment → Bool) → (Payment → Payment) → Tx (Unit {0})
update_payments p f db = (ok tt, record db { payments = update_where p f db.payments })

-- The newest row of `cancellation_policies` for a venue, or for the platform.
unfoldable pub newest : List PolicyRow → Option PolicyRow
newest [] = none
newest (r ∷ rs) = elim (newest rs) [
  | none ↦ some r
  | some best ↦ some (if ltb r.created_at best.created_at then best else r)
]

abbrev pub of_venue : ℕ → PolicyRow → Bool
of_venue v r = is_text r.venue_id v

abbrev pub of_platform : PolicyRow → Bool
of_platform r = elim r.venue_id [ none ↦ true | some v ↦ false ]

pub record Resolved : Type 0 where
  pub tiers : List Tier
  pub policy_id : ℕ
  pub from : ResolvedFrom

-- `TiersSchema.parse(row.tiers)`, which throws on a refusal.
unfoldable pub parse_row : PolicyRow → ResolvedFrom → Result Resolved
unfolding parse_tiers
parse_row row from = elim (parse_tiers row.tiers) [
  | none ↦ err Failure.thrown
  | some ts ↦ ok (record { tiers = ts; policy_id = row.id; from = from })
]

-- `resolveTiers`, of a venue that is given.
unfoldable pub resolve_tiers : ℕ → List PolicyRow → Result Resolved
unfolding newest parse_row
resolve_tiers v policies = elim (newest (filter_by (of_venue v) policies)) [
  | some row ↦ parse_row row venue
  | none ↦ elim (newest (filter_by of_platform policies)) [
    | some row ↦ parse_row row platform
    | none ↦ err Failure.unavailable
  ]
]

-- `resolvePolicySnapshot`
unfoldable pub resolve_policy_snapshot : ℕ → ℕ → Tx PolicySnapshot
unfolding resolve_tiers
resolve_policy_snapshot now v db = elim (resolve_tiers v db.policies) [
  | err e ↦ (err e, db)
  | ok r ↦ (
    ok (record {
      tiers = r.tiers;
      policy_id = r.policy_id;
      resolved_from = r.from;
      snapshot_at = now;
    }),
    db,
  )
]
