-- ===== src/Reconcile/Report.antt =====
-- apps/api/src/admin/reconciliation.service.ts: `run`.
--
-- The statements of a run are taken to see one database. Of rows observed at one instant the
-- order is that of the union; the source leaves it open.
use project_atrium.Base.{
  ℕ, zero, suc, min, ◌≡◌, refl, sym, ◌∙◌, Bool, ◌&&◌, List, [], ◌∷◌, map, leb, ltb, if◌then◌else◌,
  filter_by, length, take, sum_by, with_key, first_of_each, length-eq-sum_by, sum_by-first_of_each,
  arith,
}
use project_atrium.Store.Status.{confirmed, is_status}
use project_atrium.Store.Tables.{Booking, Payment, Database}
use project_atrium.Reconcile.Checks.{
  Kind, kind_rank, Discrepancy, Scope, is_within, is_captured, discrepancies,
}

pub record KindCount : Type 0 where
  pub kind : Kind
  pub n : ℕ

pub record Totals : Type 0 where
  pub captured_minor : ℕ
  pub refunded_minor : ℕ
  pub confirmed_bookings : ℕ
  pub settled_payments : ℕ

pub record Report : Type 0 where
  pub discrepancy_count : ℕ
  pub returned : ℕ
  pub truncated : Bool
  pub by_kind : List KindCount
  pub discrepancies : List Discrepancy
  pub totals : Totals

abbrev rank_of : Discrepancy → ℕ
rank_of d = kind_rank d.kind

-- `SELECT kind, COUNT(*) … GROUP BY kind`
unfoldable pub count_by_kind : List Discrepancy → List KindCount
unfolding first_of_each
count_by_kind ds =
    map (λ d. record { kind = d.kind; n = length (with_key rank_of (rank_of d) ds) })
      (first_of_each rank_of ds)

unfoldable pub insert_newest : Discrepancy → List Discrepancy → List Discrepancy
insert_newest d [] = d ∷ []
insert_newest d (e ∷ es) =
    if leb e.observed_at d.observed_at then d ∷ e ∷ es else e ∷ insert_newest d es

-- `ORDER BY observed_at DESC`
unfoldable pub newest_first : List Discrepancy → List Discrepancy
unfolding insert_newest
newest_first [] = []
newest_first (d ∷ ds) = insert_newest d (newest_first ds)

unfoldable pub totals_of : Scope → Database → Totals
totals_of s db =
    let paid : List Payment = filter_by (λ (p : Payment). is_within s p.created_at) db.payments in
    record {
      captured_minor = sum_by (λ (p : Payment). p.amount_minor) (filter_by is_captured paid);
      refunded_minor = sum_by (λ (p : Payment). p.refunded_minor) paid;
      confirmed_bookings = length (
          filter_by (λ (b : Booking). is_status b.status confirmed && is_within s b.updated_at)
            db.bookings);
      settled_payments = length (filter_by is_captured paid);
    }

-- `run`
unfoldable pub run : Scope → ℕ → ℕ → Database → Report
unfolding count_by_kind newest_first totals_of discrepancies
run s now limit db =
    let union = discrepancies s now db in
    let counts = count_by_kind union in
    let rows = take limit (newest_first union) in
    let total = sum_by (λ (c : KindCount). c.n) counts in
    record {
      discrepancy_count = total;
      returned = length rows;
      truncated = ltb (length rows) total;
      by_kind = counts;
      discrepancies = rows;
      totals = totals_of s db;
    }

length-insert_newest :
    (d : Discrepancy) (ds : List Discrepancy) → length (insert_newest d ds) ≡ suc (length ds)
unfolding insert_newest
length-insert_newest d [] = refl
length-insert_newest d (e ∷ es) = ground (arith, length-insert_newest d es)

length-newest_first : (ds : List Discrepancy) → length (newest_first ds) ≡ length ds
unfolding newest_first
length-newest_first [] = refl
length-newest_first (d ∷ ds) =
    omega (arith, length-insert_newest d (newest_first ds), length-newest_first ds)

length-take {ℓ} : {A : Type ℓ} (n : ℕ) (xs : List A) → length (take n xs) ≡ min n (length xs)
length-take zero xs = omega arith
length-take (suc n) [] = omega arith
length-take (suc n) (x ∷ xs) = omega (arith, length-take n xs)

sum_by-counts :
    (ds es : List Discrepancy)
    → sum_by
        (λ (c : KindCount). c.n)
        (map (λ d. record { kind = d.kind; n = length (with_key rank_of (rank_of d) ds) }) es)
      ≡ sum_by (λ d. sum_by (λ e. 1) (with_key rank_of (rank_of d) ds)) es
sum_by-counts ds [] = refl
sum_by-counts ds (e ∷ es) =
    omega (arith, length-eq-sum_by (with_key rank_of (rank_of e) ds), sum_by-counts ds es)

pub count_by_kind-total :
    (ds : List Discrepancy) → sum_by (λ (c : KindCount). c.n) (count_by_kind ds) ≡ length ds
unfolding count_by_kind
count_by_kind-total ds =
    sum_by-counts ds (first_of_each rank_of ds)
    ∙ (sum_by-first_of_each rank_of (λ d. 1) ds ∙ sym (length-eq-sum_by ds))

-- The headline number is the number of all discrepancies, whatever the limit: the counts by kind
-- add up to it; as many rows are returned as there are, up to the limit; and the report says that
-- it is truncated exactly when there are more discrepancies than the limit.
pub run_counts :
    (s : Scope) (now limit : ℕ) (db : Database)
    → let r = run s now limit db in
      let count = length (discrepancies s now db) in
      (r.discrepancy_count ≡ count)
      × (sum_by (λ (c : KindCount). c.n) r.by_kind ≡ count)
      × (r.returned ≡ min limit count)
      × (length r.discrepancies ≡ r.returned)
      × (r.truncated ≡ ltb limit count)
unfolding run
run_counts s now limit db =
    let total = count_by_kind-total (discrepancies s now db) in
    let rows = take limit (newest_first (discrepancies s now db)) in
    let listed : length rows ≡ min limit (length (discrepancies s now db)) =
      length-take limit (newest_first (discrepancies s now db))
      ∙ rw (length-newest_first (discrepancies s now db)) refl in
    (total, total, listed, refl, rw (listed, total) (ground arith))
