-- ===== src/Reconcile/Checks.antt =====
-- apps/api/src/admin/reconciliation.service.ts: `discrepancies`, the nine checks of the report.
--
-- The text `detail` of a row is left out. A statement runs at one instant, `now`. Since there are
-- no instants before 0, a grace period longer than `now` leaves nothing that is old enough.
use project_atrium.Base.{
  ℕ, ◌-◌, ◌*◌, max, Bool, false, not, ◌&&◌, ◌||◌, Option, none, some, List, [], ◌∷◌, ◌++◌, map, leb,
  ltb, ◌==◌, if◌then◌else◌, filter_by, any_of, is_some, length, sum_by, with_key, first_of_each,
}
use project_atrium.Store.Status.{
  BookingStatus, confirmed, completed, is_status, PaymentStatus, is_payment, charge_succeeded,
  is_event,
}
use project_atrium.Store.Tables.{Booking, Payment, PaymentEvent, Delivery, WebhookBody, Database}

pub data Kind : Type 0 where
  capture_without_confirmation confirmation_without_capture double_capture : Kind
  refund_without_capture refund_initiated_not_settled refund_accepted_not_settled : Kind
  charge_accepted_not_settled over_refunded unmatched_delivery : Kind

abbrev pub kind_rank : Kind → ℕ
kind_rank capture_without_confirmation = 0
kind_rank confirmation_without_capture = 1
kind_rank double_capture = 2
kind_rank refund_without_capture = 3
kind_rank refund_initiated_not_settled = 4
kind_rank refund_accepted_not_settled = 5
kind_rank charge_accepted_not_settled = 6
kind_rank over_refunded = 7
kind_rank unmatched_delivery = 8

pub record Discrepancy : Type 0 where
  pub kind : Kind
  pub booking_id : Option ℕ
  pub charge_id : Option ℕ
  pub amount_minor : Option ℕ
  pub observed_at : ℕ

-- The window `[from, to)` and the grace period of the report.
pub record Scope : Type 0 where
  pub from : ℕ
  pub to : ℕ
  pub grace_seconds : ℕ

abbrev pub is_within : Scope → ℕ → Bool
is_within s at = leb s.from at && ltb at s.to

-- `at < now() - grace`
abbrev pub is_old : Scope → ℕ → ℕ → Bool
is_old s now at = ltb at (now - s.grace_seconds * 1000)

-- A row of `settled`: a payment of the window, joined with the status of its booking.
pub record Settled : Type 0 where
  pub payment : Payment
  pub booking_status : BookingStatus

unfoldable pub join_bookings : Payment → List Booking → List Settled
join_bookings p bs =
    map (λ (b : Booking). record { payment = p; booking_status = b.status })
      (filter_by (λ (b : Booking). b.id == p.booking_id) bs)

unfoldable pub settled : Scope → List Booking → List Payment → List Settled
unfolding join_bookings
settled s bs [] = []
settled s bs (p ∷ ps) =
    let rest = settled s bs ps in
    if is_within s p.created_at then join_bookings p bs ++ rest else rest

-- `status IN ('SUCCEEDED','REFUNDED')`
abbrev pub is_captured : Payment → Bool
is_captured p =
    is_payment p.status PaymentStatus.succeeded || is_payment p.status PaymentStatus.refunded

abbrev pub discrepancy_of : Kind → ℕ → Settled → Discrepancy
discrepancy_of kind amount r = record {
  kind = kind;
  booking_id = some r.payment.booking_id;
  charge_id = r.payment.charge_id;
  amount_minor = some amount;
  observed_at = r.payment.updated_at;
}

unfoldable pub is_unconfirmed : Scope → ℕ → Settled → Bool
is_unconfirmed s now r =
    is_payment r.payment.status PaymentStatus.succeeded
    && (not (is_status r.booking_status confirmed)
        && (not (is_status r.booking_status completed) && is_old s now r.payment.updated_at))

unfoldable pub is_uncaptured : Scope → ℕ → List Payment → Booking → Bool
is_uncaptured s now ps b =
    (is_status b.status confirmed || is_status b.status completed)
    && (is_within s b.updated_at
        && (is_old s now b.updated_at
            && not (any_of (λ (p : Payment). (p.booking_id == b.id) && is_captured p) ps)))

abbrev pub latest_update : List Settled → ℕ
latest_update [] = 0
latest_update (r ∷ rs) = max r.payment.updated_at (latest_update rs)

abbrev pub booking_of : Settled → ℕ
booking_of r = r.payment.booking_id

-- The settled payments of the booking of `r`.
abbrev pub captures_of : Settled → List Settled → List Settled
captures_of r rs = with_key booking_of (booking_of r) rs

abbrev pub double_capture_of : List Settled → Settled → Discrepancy
double_capture_of rs r = record {
  kind = double_capture;
  booking_id = some (booking_of r);
  charge_id = none;
  amount_minor = some (sum_by (λ (x : Settled). x.payment.amount_minor) (captures_of r rs));
  observed_at = latest_update (captures_of r rs);
}

-- `GROUP BY booking_id HAVING COUNT(*) > 1`, over the captured rows.
unfoldable pub double_captures : List Settled → List Discrepancy
unfolding first_of_each
double_captures rs =
    map (double_capture_of rs)
      (filter_by (λ r. ltb 1 (length (captures_of r rs))) (first_of_each booking_of rs))

abbrev pub is_capture_event : ℕ → PaymentEvent → Bool
is_capture_event charge_id e = (e.charge_id == charge_id) && is_event e.event charge_succeeded

abbrev pub has_capture_event : List PaymentEvent → Option ℕ → Bool
has_capture_event es none = false
has_capture_event es (some charge_id) = any_of (is_capture_event charge_id) es

unfoldable pub is_refund_of_nothing : List PaymentEvent → Settled → Bool
is_refund_of_nothing es r =
    (is_payment r.payment.status PaymentStatus.refunded || ltb 0 r.payment.refunded_minor)
    && not (has_capture_event es r.payment.charge_id)

unfoldable pub is_refund_initiated : Scope → ℕ → Settled → Bool
is_refund_initiated s now r =
    is_some r.payment.refund_idempotency_key
    && (not (is_some r.payment.refund_id)
        && (not (is_payment r.payment.status PaymentStatus.refunded)
            && is_old s now r.payment.updated_at))

unfoldable pub is_refund_accepted : Scope → ℕ → Settled → Bool
is_refund_accepted s now r =
    is_some r.payment.refund_id
    && (not (is_payment r.payment.status PaymentStatus.refunded)
        && is_old s now r.payment.updated_at)

unfoldable pub is_charge_accepted : Scope → ℕ → Settled → Bool
is_charge_accepted s now r =
    is_payment r.payment.status PaymentStatus.pending
    && (is_some r.payment.charge_id && is_old s now r.payment.updated_at)

unfoldable pub is_over_refunded : Settled → Bool
is_over_refunded r = ltb r.payment.amount_minor r.payment.refunded_minor

unfoldable pub is_unmatched : Scope → ℕ → Delivery → Bool
is_unmatched s now d =
    d.signature_valid
    && (not (is_some d.processed_at) && (is_within s d.received_at && is_old s now d.received_at))

abbrev pub charge_id_of : Option WebhookBody → Option ℕ
charge_id_of none = none
charge_id_of (some body) = body.charge_id

abbrev pub unmatched_of : Delivery → Discrepancy
unmatched_of d = record {
  kind = unmatched_delivery;
  booking_id = none;
  charge_id = charge_id_of d.body;
  amount_minor = none;
  observed_at = d.received_at;
}

abbrev pub uncaptured_of : Booking → Discrepancy
uncaptured_of b = record {
  kind = confirmation_without_capture;
  booking_id = some b.id;
  charge_id = none;
  amount_minor = some b.total_minor;
  observed_at = b.updated_at;
}

-- A check on the joined payments: the rows that a test takes, each with an amount of it.
abbrev pub check_payments :
    Kind → (Settled → ℕ) → (Settled → Bool) → List Settled → List Discrepancy
check_payments kind amount test rs = map (λ r. discrepancy_of kind (amount r) r) (filter_by test rs)

abbrev pub charged_amount : Settled → ℕ
charged_amount r = r.payment.amount_minor

abbrev pub refunded_amount : Settled → ℕ
refunded_amount r = r.payment.refunded_minor

-- The checks on the joined payments, in the order of the union.
unfoldable pub payment_checks : Scope → ℕ → List PaymentEvent → List Settled → List Discrepancy
unfolding is_refund_of_nothing is_refund_initiated is_refund_accepted is_charge_accepted
    is_over_refunded
payment_checks s now es rs =
    check_payments refund_without_capture refunded_amount (is_refund_of_nothing es) rs
    ++ (check_payments refund_initiated_not_settled charged_amount (is_refund_initiated s now) rs
        ++ (check_payments refund_accepted_not_settled charged_amount (is_refund_accepted s now) rs
            ++ (check_payments charge_accepted_not_settled charged_amount (is_charge_accepted s now)
                  rs
                ++ check_payments over_refunded refunded_amount is_over_refunded rs)))

-- `discrepancies`: the union of the checks.
unfoldable pub discrepancies : Scope → ℕ → Database → List Discrepancy
unfolding settled is_unconfirmed is_uncaptured double_captures payment_checks is_unmatched
discrepancies s now db =
    let rs = settled s db.bookings db.payments in
    check_payments capture_without_confirmation charged_amount (is_unconfirmed s now) rs
    ++ (map uncaptured_of (filter_by (is_uncaptured s now db.payments) db.bookings)
        ++ (double_captures (filter_by (λ (r : Settled). is_captured r.payment) rs)
            ++ (payment_checks s now db.payment_events rs
                ++ map unmatched_of (filter_by (is_unmatched s now) db.deliveries))))
