-- ===== src/Payments/Sound.antt =====
-- Every transaction of the payment service keeps the laws of the table `bookings`, so no webhook,
-- whenever it arrives, can double-book a room (INV-1).
use project_atrium.Base.{ℕ, ◌≡◌, refl, Option, none, some, List, find_first, arith}
use Prim.Native.String.{String}
use project_atrium.Store.Tables.{Actor, Booking, Payment, Database, IdempotencyKey}
use project_atrium.Store.Transaction.{ok, Tx}
use project_atrium.Bookings.StateMachine.{has_id, lock_for_update}
use project_atrium.Bookings.Keeps.{
  Keeps, same-IsSound, Keeps-pure, Keeps-throw, Keeps-if, Keeps-bind, Keeps-throw_if, Keeps-note,
  Keeps-transition, Keeps-transaction,
}
use project_atrium.Payments.Rows.{resolve_policy_snapshot}
use project_atrium.Payments.Effects.{
  record_refund_key, note, confirm, expire_late, return_money, on_charge_succeeded, fail_booking,
  on_charge_failed, refund_booking, on_refund_succeeded,
}

-- A transaction that writes to other tables.
pub Keeps-aside {ℓ} :
    {A : Type ℓ} (m : Tx A)
    → ((db : Database) → ((m db).1.bookings ≡ db.bookings) × ((m db).1.audit ≡ db.audit))
    → Keeps m
Keeps-aside m h = record { keep = λ db s. same-IsSound db (m db).1 (h db).0 (h db).1 s }

pub Keeps-payments :
    (g : Database → List Payment)
    → Keeps {A = Unit {0}} (λ db. (ok tt, record db { payments = g db }))
Keeps-payments g = record { keep = λ db s. same-IsSound db _ refl refl s }

pub Keeps-snapshot : (now v : ℕ) → Keeps (resolve_policy_snapshot now v)
unfolding resolve_policy_snapshot
Keeps-snapshot now v =
    Keeps-aside (resolve_policy_snapshot now v) λ db. (ground arith, ground arith)

pub Keeps-key : (now id : ℕ) (k : IdempotencyKey) → Keeps (record_refund_key now id k)
unfolding record_refund_key
Keeps-key now id k = Keeps-payments _

pub Keeps-still : (actor : Actor) (reason : String) (b : Booking) → Keeps (note actor reason b)
Keeps-still actor reason b = Keeps-note _ refl

pub ruleset keeps_rules = (
  Keeps-pure, Keeps-throw, Keeps-throw_if, Keeps-if, Keeps-bind, Keeps-transition, Keeps-snapshot,
  Keeps-key, Keeps-still, Keeps-payments,
)

Keeps-confirm : (now : ℕ) (b : Booking) → Keeps (confirm now b)
unfolding confirm
Keeps-confirm now b = search keeps_rules

Keeps-expire_late : (now : ℕ) (b : Booking) → Keeps (expire_late now b)
unfolding expire_late
Keeps-expire_late now b = search keeps_rules

Keeps-return_money :
    (now : ℕ) (payment : Payment) (charge_id : ℕ) (b : Booking)
    → Keeps (return_money now payment charge_id b)
unfolding return_money
Keeps-return_money now payment charge_id b = search (keeps_rules, Keeps-expire_late)

pub Keeps-option {ℓ κ} :
    {A : Type ℓ} {B : Type κ} (o : Option B) (m : Tx A) (f : B → Tx A)
    → Keeps m
    → ((b : B) → Keeps (f b))
    → Keeps (elim o as (λ x. Tx A) [ none ↦ m | some b ↦ f b ])
Keeps-option none m f km kf = km
Keeps-option (some b) m f km kf = kf b

pub Keeps-lock : (id : ℕ) → Keeps (lock_for_update id)
unfolding lock_for_update
Keeps-lock id = Keeps-aside (lock_for_update id) λ db. (ground arith, ground arith)

pub Keeps-on_charge_succeeded :
    (now : ℕ) (payment : Payment) (charge_id : ℕ)
    → Keeps (on_charge_succeeded now payment charge_id)
unfolding on_charge_succeeded
Keeps-on_charge_succeeded now payment charge_id =
    search (keeps_rules, Keeps-lock, Keeps-confirm, Keeps-return_money)

Keeps-fail_booking : (now : ℕ) (b : Option Booking) → Keeps (fail_booking now b)
unfolding fail_booking
Keeps-fail_booking now none = search keeps_rules
Keeps-fail_booking now (some b) = search keeps_rules

-- A transaction that reads the database first.
pub Keeps-read {ℓ} :
    {A : Type ℓ} (f : Database → Tx A) → ((db : Database) → Keeps (f db)) → Keeps (λ db. f db db)
Keeps-read f h = record { keep = λ db s. (h db).keep db s }

pub Keeps-on_charge_failed : (now : ℕ) (payment : Payment) → Keeps (on_charge_failed now payment)
unfolding on_charge_failed
Keeps-on_charge_failed now payment = Keeps-bind _ _ (Keeps-payments _) λ _.
    Keeps-read (λ db. fail_booking now (find_first (has_id payment.booking_id) db.bookings))
      (λ db. Keeps-fail_booking now (find_first (has_id payment.booking_id) db.bookings))

Keeps-refund_booking : (now : ℕ) (b : Option Booking) → Keeps (refund_booking now b)
unfolding refund_booking
Keeps-refund_booking now none = search keeps_rules
Keeps-refund_booking now (some b) = search keeps_rules

pub Keeps-on_refund_succeeded :
    (now : ℕ) (payment : Payment) (refund_id amount : Option ℕ)
    → Keeps (on_refund_succeeded now payment refund_id amount)
unfolding on_refund_succeeded
Keeps-on_refund_succeeded now payment refund_id amount = Keeps-bind _ _ (Keeps-payments _) λ _.
    Keeps-read (λ db. refund_booking now (find_first (has_id payment.booking_id) db.bookings))
      (λ db. Keeps-refund_booking now (find_first (has_id payment.booking_id) db.bookings))
