-- ===== src/Reports/Agree.antt =====
-- A revenue report as a whole: its parts agree, and what a refund of a cancelled booking does.
use project_atrium.Base.{
  ℕ, sub_ℕ, ◌+◌, ◌≡◌, refl, ap, ◌∙◌, sym, Bool, true, false, ◌&&◌, ◌||◌, leb, ltb, if◌then◌else◌,
  Bool-cases, length-eq-sum_by, Option, none, some, List, [], ◌∷◌, ◌==◌, filter_by, find_first,
  sum_by, All, All-map, All-filter_by, arith, Option-cases, inl, inr, ==→eq, ==_refl, any_of,
  with_key-absent, find_first-holds, subst,
}
use project_atrium.Store.Status.{cancelled, confirmed, completed, is_status}
use project_atrium.Store.Tables.{AuthPrincipal, Booking, Payment, Database}
use project_atrium.Store.Transaction.{ok}
use project_atrium.Store.Inventory.{Venue, Inventory}
use project_atrium.Reports.Revenue.{
  RoomRevenue, DayRevenue, totals_where, refunded_where, by_room_where, by_day_where, is_revenue,
  totals, refunded_of, by_room, by_day,
}
use project_atrium.Reports.Report.{Zones, RevenueReport, report_of, revenue_of, revenue}
use project_atrium.Reports.Sums.{
  HasRoom, earned, gross-earned, sum_by-filter_by, room_rows, day_rows, rooms_count, rooms_gross,
  days_count, days_gross,
}

-- A booking of the venue that starts in the range.
abbrev pub in_range : ℕ → ℕ → ℕ → Booking → Bool
in_range venue_id from to b =
    (b.venue_id == venue_id) && (leb from b.starts_at && ltb b.starts_at to)

-- What it has earned: its price, once it is confirmed, and still when it is completed.
abbrev pub takings : ℕ → ℕ → ℕ → Booking → ℕ
takings venue_id from to b =
    if in_range venue_id from to b && (is_status b.status confirmed || is_status b.status completed)
    then b.total_minor
    else 0

-- The summary and the refunds are of the bookings of the venue that start in the range, each row of
-- a room or a day has what the bookings of that room or day among them have earned, and the rows
-- add up to the summary.
pub record AddsUp (z : Zones) (from to : ℕ) (db : Database) (r : RevenueReport) : Type 0 where
  pub bookings :
      r.summary.bookings
      ≡ sum_by (λ (b : Booking). if in_range r.venue.id from to b then 1 else 0) db.bookings
  pub gross : r.summary.gross_minor ≡ sum_by (takings r.venue.id from to) db.bookings
  pub refunds :
      r.refunded_minor
      ≡ sum_by
          (λ (b : Booking).
            if in_range r.venue.id from to b
            then sum_by
                (λ (p : Payment). p.refunded_minor)
                (filter_by (λ (p : Payment). p.booking_id == b.id) db.payments)
            else 0)
          db.bookings
  pub net : r.net_minor ≡ sub_ℕ r.summary.gross_minor r.refunded_minor
  pub rooms :
      All
        (λ (x : RoomRevenue).
          x.gross_minor
          ≡ sum_by
              (λ b. if b.room_id == x.room_id then takings r.venue.id from to b else 0)
              db.bookings)
        r.by_room
  pub days :
      All
        (λ (x : DayRevenue).
          x.gross_minor
          ≡ sum_by
              (λ b.
                if z.local_day r.venue.timezone b.starts_at == x.day
                then takings r.venue.id from to b
                else 0)
              db.bookings)
        r.by_day
  pub room_bookings : sum_by (λ (x : RoomRevenue). x.bookings) r.by_room ≡ r.summary.bookings
  pub room_gross : sum_by (λ (x : RoomRevenue). x.gross_minor) r.by_room ≡ r.summary.gross_minor
  pub day_bookings : sum_by (λ (x : DayRevenue). x.bookings) r.by_day ≡ r.summary.bookings
  pub day_gross : sum_by (λ (x : DayRevenue). x.gross_minor) r.by_day ≡ r.summary.gross_minor

-- Of the rows that a WHERE clause takes, those of one key have earned what they have in the table.
earned-takings :
    (v from to : ℕ) (p : Booking → Bool) (bs : List Booking)
    → sum_by (λ b. if p b then earned b else 0) (filter_by (totals_where v from to) bs)
      ≡ sum_by (λ b. if p b then takings v from to b else 0) bs
unfolding totals_where
earned-takings v from to p [] = refl
earned-takings v from to p (b ∷ bs) = elim (Bool-cases (in_range v from to b)) [
  | inl hit ↦ ground (arith, hit, earned-takings v from to p bs)
  | inr miss ↦ ground (arith, miss, earned-takings v from to p bs)
]

module _ (z : Zones) (from to : ℕ) (inv : Inventory) (db : Database)
    (housed : All (HasRoom inv.rooms) db.bookings) where
  report-AddsUp : (venue : Venue) → AddsUp z from to db (report_of z venue from to inv db)
  unfolding report_of totals refunded_of refunded_where totals_where by_room_where by_day_where
  report-AddsUp venue =
      let bs = filter_by (totals_where venue.id from to) db.bookings in
      let roomed =
        All-map _ _ bs (λ b u. u.0)
          (All-filter_by (HasRoom inv.rooms) (totals_where venue.id from to) db.bookings housed) in
      let day = z.local_day venue.timezone in
      record {
        bookings =
            length-eq-sum_by bs
            ∙ sum_by-filter_by (λ b. 1) (totals_where venue.id from to) db.bookings;
        gross = gross-earned bs ∙ earned-takings venue.id from to (λ b. true) db.bookings;
        refunds = sum_by-filter_by _ (refunded_where venue.id from to) db.bookings;
        net = refl;
        rooms =
            All-map _ _ (by_room inv.rooms bs)
              (λ x e. e ∙ earned-takings venue.id from to (λ b. b.room_id == x.room_id) db.bookings)
              (room_rows inv.rooms bs roomed);
        days =
            All-map _ _ (by_day day bs)
              (λ x e.
                e ∙ earned-takings venue.id from to (λ b. day b.starts_at == x.day) db.bookings)
              (day_rows day bs);
        room_bookings = rooms_count inv.rooms bs roomed;
        room_gross = rooms_gross inv.rooms bs roomed;
        day_bookings = days_count day bs;
        day_gross = days_gross day bs;
      }

  venue_id-report :
      (venue : Venue) (v : ℕ)
      → find_first (λ (x : Venue). x.id == v) inv.venues ≡ some venue
      → (report_of z venue from to inv db).venue.id ≡ v
  unfolding report_of
  venue_id-report venue v found =
      ==→eq venue.id v (find_first-holds (λ (x : Venue). x.id == v) inv.venues venue found)

  found-AddsUp :
      (v : ℕ) (o : Option Venue) (r : RevenueReport)
      → find_first (λ (x : Venue). x.id == v) inv.venues ≡ o
      → revenue_of z o from to inv db ≡ ok r
      → (r.venue.id ≡ v) × AddsUp z from to db r
  unfolding revenue_of
  found-AddsUp v none r found e = absurd (cc e)
  found-AddsUp v (some venue) r found e =
      let same : report_of z venue from to inv db ≡ r = cc in
      (
        subst (λ (x : RevenueReport). x.venue.id ≡ v) same (venue_id-report venue v found),
        subst (AddsUp z from to db) same (report-AddsUp venue),
      )

  -- Where every booking has its room, a report that is given is of the venue on the token. It
  -- counts the bookings of that venue that start in the range, and its gross is the price of those
  -- that are confirmed or completed; what was refunded is what the payments of those bookings gave
  -- back, and the net is the gross less it. Each row of a room or a day has the takings of its
  -- bookings among them, and the bookings and the takings by room, and by day, add up to those of the
  -- summary: no booking is counted twice and none is left out.
  pub revenue-AddsUp :
      (p : AuthPrincipal) (r : RevenueReport)
      → revenue z p from to inv db ≡ ok r
      → (p.venue_id ≡ some r.venue.id) × AddsUp z from to db r
  unfolding revenue
  revenue-AddsUp p r e = elim (Option-cases p.venue_id) [
    | inl homeless ↦ absurd (ground (arith, e, homeless))
    | inr (v, at_home) ↦
        let (own, adds) =
          found-AddsUp v (find_first (λ (x : Venue). x.id == v) inv.venues) r refl
            (ground (arith, e, at_home)) in
        (at_home ∙ ap some (sym own), adds)
  ]

-- A payment of no booking of the list adds nothing.
refunded_of-others :
    (id : ℕ) (p : Payment) (bs : List Booking) (ps : List Payment)
    → p.booking_id ≡ id
    → any_of (λ (x : Booking). x.id == id) bs ≡ false
    → refunded_of (p ∷ ps) bs ≡ refunded_of ps bs
unfolding refunded_of
refunded_of-others id p [] ps own absent = refl
refunded_of-others id p (x ∷ xs) ps own absent =
    let apart : (p.booking_id == x.id) ≡ false = ground (arith, absent) in
    rw apart (
      ap
        (λ n.
          sum_by (λ (q : Payment). q.refunded_minor)
            (filter_by (λ (q : Payment). q.booking_id == x.id) ps)
          + n)
        (refunded_of-others id p xs ps own (ground (arith, absent))))

-- The refund of a booking lowers the net although its takings were never in the gross. With one
-- more cancelled booking of the range, of an id that no other row and no other payment names, and
-- its payment, the gross is what it was, and what was refunded is more by that payment's refund.
cancelled_refund_lowers_net :
    (b : Booking) (p : Payment) (bs : List Booking) (ps : List Payment)
    → b.status ≡ cancelled
    → p.booking_id ≡ b.id
    → any_of (λ (x : Booking). x.id == b.id) bs ≡ false
    → any_of (λ (x : Payment). x.booking_id == b.id) ps ≡ false
    → ((totals (b ∷ bs)).gross_minor ≡ (totals bs).gross_minor)
      × (refunded_of (p ∷ ps) (b ∷ bs) ≡ p.refunded_minor + refunded_of ps bs)
unfolding totals refunded_of
cancelled_refund_lowers_net b p bs ps gone own new_id unpaid =
    let unearned : is_revenue b ≡ false = ground (arith, gone) in
    let none_else : filter_by (λ (x : Payment). x.booking_id == b.id) ps ≡ [] =
      with_key-absent (λ (x : Payment). x.booking_id) b.id ps unpaid in
    (
      rw unearned refl,
      rw (own, ==_refl b.id, none_else) (omega (arith, refunded_of-others b.id p bs ps own new_id)),
    )
