-- ===== src/Reconcile/Clean.antt =====
-- apps/api/src/admin/reconciliation.service.ts: a report with no discrepancies, INV-5.
use project_atrium.Base.{
  ℕ, ◌≤◌, ◌≡◌, ◌≢◌, ◌↔◌, sym, ◌∙◌, true, false, ◌&&◌, none, List, [], ◌∷◌, ltb, ◌==◌, any_of,
  filter_by, length, All, All-map, All-both, arith, with_key, first_of_each, All-first_of_each,
  All-key, with_key-absent, Bool-cases, inl, inr,
}
use project_atrium.Store.Tables.{Booking, Payment, PaymentEvent, Delivery, Database}
use project_atrium.Reconcile.Checks.{
  Discrepancy, capture_without_confirmation, check_payments, charged_amount, Scope, Settled,
  settled, is_captured, booking_of, captures_of, double_captures, is_unconfirmed, is_uncaptured,
  is_unmatched, payment_checks, discrepancies, is_refund_of_nothing, is_refund_initiated,
  is_refund_accepted, is_charge_accepted, is_over_refunded,
}
use project_atrium.Reconcile.Accounted.{
  IsOld, IsUsed, IsAccounted, Passes, Passes-IsAccounted, IsAccounted-Passes, false_of,
}
use project_atrium.Reconcile.Joined.{
  InWindow, AllJoined, none_found, empty-append, append-empty, settled_iff,
}
use project_atrium.Reconcile.Report.{run, run_counts}

-- The captured payments of the window, joined with their bookings.
abbrev pub captured : Scope → Database → List Settled
captured s db =
    filter_by (λ (r : Settled). is_captured r.payment) (settled s db.bookings db.payments)

-- Nothing in the window is out of place, said of the tables.
pub record IsReconciled (s : Scope) (now : ℕ) (db : Database) : Type 0 where
  pub payments_accounted : AllJoined s db.bookings (IsAccounted s now db.payment_events) db.payments
  -- A booking that takes or took place was paid for.
  pub bookings_paid :
      All
        (λ (b : Booking).
          IsUsed b.status
          → InWindow s b.updated_at
          → IsOld s now b.updated_at
          → any_of (λ (p : Payment). (p.booking_id == b.id) && is_captured p) db.payments ≡ true)
        db.bookings
  -- No booking was paid for twice.
  pub paid_once : (id : ℕ) → length (with_key booking_of id (captured s db)) ≤ 1
  -- A signed delivery was applied.
  pub deliveries_applied :
      All
        (λ (d : Delivery).
          d.signature_valid ≡ true
          → InWindow s d.received_at
          → IsOld s now d.received_at
          → d.processed_at ≢ none)
        db.deliveries

-- `double_capture` finds nothing exactly where each booking was paid for at most once.
module _ (rs : List Settled) where
  single-All :
      All (λ r. ltb 1 (length (captures_of r rs)) ≡ false) (first_of_each booking_of rs)
      → (id : ℕ) → length (with_key booking_of id rs) ≤ 1
  single-All h id = elim (Bool-cases (any_of (λ x. booking_of x == id) rs)) [
    | inl found ↦
        All-key booking_of (λ k. length (with_key booking_of k rs) ≤ 1) id rs
          (All-first_of_each booking_of (λ k. length (with_key booking_of k rs) ≤ 1) rs
            (All-map _ _ (first_of_each booking_of rs) (λ r e. ground (arith, e)) h))
          found
    | inr absent ↦ rw (with_key-absent booking_of id rs absent) (omega arith)
  ]

  All-single :
      ((id : ℕ) → length (with_key booking_of id rs) ≤ 1)
      → (qs : List Settled) → All (λ r. ltb 1 (length (captures_of r rs)) ≡ false) qs
  All-single h [] = tt
  All-single h (q ∷ qs) = (ground (arith, h (booking_of q)), All-single h qs)

  double_captures_iff :
      (length (double_captures rs) ≡ 0) ↔ ((id : ℕ) → length (with_key booking_of id rs) ≤ 1)
  unfolding double_captures
  double_captures_iff =
      let checks =
        none_found _ (λ r. ltb 1 (length (captures_of r rs))) (first_of_each booking_of rs) in
      ((λ h. single-All (checks.0 h)), (λ h. checks.1 (All-single h (first_of_each booking_of rs))))

module _ (s : Scope) (now : ℕ) (es : List PaymentEvent) (rs : List Settled) where
  abbrev unconfirmed : List Discrepancy
  unconfirmed = check_payments capture_without_confirmation charged_amount (is_unconfirmed s now) rs

  passes-All :
      length unconfirmed ≡ 0 → length (payment_checks s now es rs) ≡ 0 → All (Passes s now es) rs
  unfolding payment_checks
  passes-All h k =
      let k1 = empty-append _ _ k in
      let k2 = empty-append _ _ k1.1 in
      let k3 = empty-append _ _ k2.1 in
      let k4 = empty-append _ _ k3.1 in
      All-map _ (Passes s now es) rs
        (λ r u. (u.0, u.1.0, u.1.1.0, u.1.1.1.0, u.1.1.1.1.0, u.1.1.1.1.1))
        (All-both _ _ rs ((none_found _ (is_unconfirmed s now) rs).0 h) (
          All-both _ _ rs ((none_found _ (is_refund_of_nothing es) rs).0 k1.0) (
            All-both _ _ rs ((none_found _ (is_refund_initiated s now) rs).0 k2.0) (
              All-both _ _ rs ((none_found _ (is_refund_accepted s now) rs).0 k3.0) (
                All-both _ _ rs ((none_found _ (is_charge_accepted s now) rs).0 k4.0)
                  ((none_found _ is_over_refunded rs).0 k4.1))))))

  All-pass :
      All (Passes s now es) rs
      → (length unconfirmed ≡ 0) × (length (payment_checks s now es rs) ≡ 0)
  unfolding payment_checks
  All-pass h = (
    (none_found _ (is_unconfirmed s now) rs).1 (All-map _ _ rs (λ r u. u.0) h),
    append-empty _ _ ((none_found _ (is_refund_of_nothing es) rs).1 (All-map _ _ rs (λ r u. u.1) h))
        (append-empty _ _
          ((none_found _ (is_refund_initiated s now) rs).1 (All-map _ _ rs (λ r u. u.2) h))
          (append-empty _ _
            ((none_found _ (is_refund_accepted s now) rs).1 (All-map _ _ rs (λ r u. u.3) h))
            (append-empty _ _
              ((none_found _ (is_charge_accepted s now) rs).1 (All-map _ _ rs (λ r u. u.4) h))
              ((none_found _ is_over_refunded rs).1 (All-map _ _ rs (λ r u. u.5) h))))),
  )

module _ (s : Scope) (now : ℕ) where
  abbrev IsPaid : List Payment → Booking → Type 0
  IsPaid ps b =
      IsUsed b.status
      → InWindow s b.updated_at
      → IsOld s now b.updated_at
      → any_of (λ (p : Payment). (p.booking_id == b.id) && is_captured p) ps ≡ true

  IsPaid-of : (ps : List Payment) (b : Booking) → is_uncaptured s now ps b ≡ false → IsPaid ps b
  unfolding is_uncaptured
  IsPaid-of ps b h (inl e) w old = ground (arith, h, e)
  IsPaid-of ps b h (inr e) w old = ground (arith, h, e)

  of_paid : (ps : List Payment) (b : Booking) → IsPaid ps b → is_uncaptured s now ps b ≡ true → ⊥
  unfolding is_uncaptured
  of_paid ps b h hit =
      ground (arith, hit, h (ground (arith, hit)) (ground (arith, hit)) (ground (arith, hit)))

  abbrev IsApplied : Delivery → Type 0
  IsApplied d =
      d.signature_valid ≡ true
      → InWindow s d.received_at
      → IsOld s now d.received_at
      → d.processed_at ≢ none

  IsApplied-of : (d : Delivery) → is_unmatched s now d ≡ false → IsApplied d
  unfolding is_unmatched
  IsApplied-of d h e w old none_yet = ground (arith, h, none_yet)

  of_applied : (d : Delivery) → IsApplied d → is_unmatched s now d ≡ true → ⊥
  unfolding is_unmatched
  of_applied d h hit =
      h (ground (arith, hit)) (ground (arith, hit)) (ground (arith, hit)) (ground (arith, hit))

  empty-IsReconciled : (db : Database) → length (discrepancies s now db) ≡ 0 → IsReconciled s now db
  unfolding discrepancies
  empty-IsReconciled db h =
      let rs = settled s db.bookings db.payments in
      let h1 = empty-append _ _ h in
      let h2 = empty-append _ _ h1.1 in
      let h3 = empty-append _ _ h2.1 in
      let h4 = empty-append _ _ h3.1 in
      record {
        payments_accounted =
            (settled_iff s db.bookings (IsAccounted s now db.payment_events) db.payments).0 (
              All-map _ _ rs (Passes-IsAccounted s now db.payment_events)
                (passes-All s now db.payment_events rs h1.0 h4.0));
        bookings_paid =
            All-map _ _ db.bookings (IsPaid-of db.payments)
              ((none_found _ (is_uncaptured s now db.payments) db.bookings).0 h2.0);
        paid_once = (double_captures_iff (captured s db)).0 h3.0;
        deliveries_applied =
            All-map _ _ db.deliveries IsApplied-of
              ((none_found _ (is_unmatched s now) db.deliveries).0 h4.1);
      }

  IsReconciled-empty : (db : Database) → IsReconciled s now db → length (discrepancies s now db) ≡ 0
  unfolding discrepancies
  IsReconciled-empty db a =
      let rs = settled s db.bookings db.payments in
      let pass = All-pass s now db.payment_events rs (
        All-map _ _ rs (IsAccounted-Passes s now db.payment_events) (
          (settled_iff s db.bookings (IsAccounted s now db.payment_events) db.payments).1
            a.payments_accounted)) in
      append-empty _ _ pass.0 (
        append-empty _ _
          ((none_found _ (is_uncaptured s now db.payments) db.bookings).1
            (All-map _ _ db.bookings (λ b u. false_of _ (of_paid db.payments b u)) a.bookings_paid))
          (append-empty _ _ ((double_captures_iff (captured s db)).1 a.paid_once) (
            append-empty _ _ pass.1 (
              (none_found _ (is_unmatched s now) db.deliveries).1 (
                All-map _ _ db.deliveries (λ d u. false_of _ (of_applied d u))
                  a.deliveries_applied)))))

-- The report counts no discrepancy exactly where the tables add up: every payment of the window
-- is accounted for with its booking, every booking that is confirmed or completed was paid for,
-- none twice, and every signed delivery was applied, the grace period granted where the report
-- grants it (INV-5).
pub run-IsReconciled :
    (s : Scope) (now limit : ℕ) (db : Database)
    → ((run s now limit db).discrepancy_count ≡ 0) ↔ IsReconciled s now db
run-IsReconciled s now limit db = (
  (λ h. empty-IsReconciled s now db (sym (run_counts s now limit db).0 ∙ h)),
  (λ a. (run_counts s now limit db).0 ∙ IsReconciled-empty s now db a),
)
