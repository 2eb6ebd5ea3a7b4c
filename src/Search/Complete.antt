-- ===== src/Search/Complete.antt =====
-- What the pages of a search show, together.
use project_atrium.Base.{
  ℕ, ◌*◌, ◌≤◌, ◌≡◌, sym, ap, ◌∙◌, Bool, true, ◌&&◌, Option, none, some, List, filter_by, length,
  take, take-all, filter_by-filter_by, length-all,
}
use project_atrium.Store.Tables.{Booking}
use project_atrium.Store.Inventory.{Inventory}
use project_atrium.Search.Query.{
  SearchQuery, Hit, Context, matches, venues_open_for, joined, in_order, candidate_cap,
  search_rooms,
}
use project_atrium.Search.Pages.{
  is_candidate, is_free, all_rows, pages_to, pages_to-take, search_in-slice, in_order-length,
  length-in_order, in_order-length,
}

-- The rows to show: what meets the predicates and, for a window, is of a venue that is open for
-- it and not booked in it.
abbrev pub is_wanted :
    Context → SearchQuery → Option (ℕ × ℕ) → Inventory → List Booking → Hit → Bool
is_wanted c q none inv bookings h = matches c q h
is_wanted c q (some (from, to)) inv bookings h =
    is_candidate c q (venues_open_for c from to q.city inv.venues) h && is_free c from to bookings h

-- The candidates of a window are within the cap of the search.
abbrev pub FitsCap : Context → SearchQuery → Option (ℕ × ℕ) → Inventory → Type 0
FitsCap c q none inv = Unit
FitsCap c q (some (from, to)) inv =
    length (
      filter_by (is_candidate c q (venues_open_for c from to q.city inv.venues))
        (joined inv.venues inv.rooms))
    ≤ candidate_cap

module _ (c : Context) (q : SearchQuery) (inv : Inventory) (bookings : List Booking) where
  -- Under any further test, as many rows are shown as there are to show.
  all_rows-count :
      (w : Option (ℕ × ℕ)) (p : Hit → Bool)
      → FitsCap c q w inv
      → length (filter_by p (all_rows c q w inv bookings))
        ≡ length
            (filter_by (λ h. is_wanted c q w inv bookings h && p h) (joined inv.venues inv.rooms))
  all_rows-count none p fits =
      length-in_order p (filter_by (matches c q) (joined inv.venues inv.rooms))
      ∙ ap length (filter_by-filter_by p (matches c q) (joined inv.venues inv.rooms))
  all_rows-count (some (from, to)) p fits =
      let rows = joined inv.venues inv.rooms in
      let candidate = is_candidate c q (venues_open_for c from to q.city inv.venues) in
      let free = is_free c from to bookings in
      let kept = filter_by candidate rows in
      let whole : take candidate_cap (in_order kept) ≡ in_order kept =
        take-all candidate_cap (in_order kept) (rw (in_order-length kept) fits) in
      ap (λ hs. length (filter_by p (filter_by free hs))) whole
      ∙ (ap length (filter_by-filter_by p free (in_order kept))
          ∙ (length-in_order (λ h. free h && p h) kept
              ∙ (ap length (sym (filter_by-filter_by p free kept))
                  ∙ (ap (λ hs. length (filter_by p hs)) (filter_by-filter_by free candidate rows)
                      ∙ ap length (filter_by-filter_by p (λ h. candidate h && free h) rows)))))

  -- The pages of a search show each room that is wanted, and no other, exactly once. Where the
  -- candidates of a window are within the cap, the total is the number of rows to show, whatever
  -- page is asked for; and as soon as that many fit on the first `n` pages, those pages together
  -- show, of the rows that meet any further test, as many as there are to show.
  pub search_pages :
      (n : ℕ) (p : Hit → Bool)
      → FitsCap c q q.window inv
      → (search_rooms c q inv bookings).total ≤ n * q.page_size
      → let wanted : Hit → Bool = is_wanted c q q.window inv bookings in
        let rows = joined inv.venues inv.rooms in
        ((search_rooms c q inv bookings).total ≡ length (filter_by wanted rows))
        × (length (filter_by p (pages_to c q inv bookings n))
            ≡ length (filter_by (λ h. wanted h && p h) rows))
  unfolding search_rooms
  search_pages n p fits enough =
      let wanted : Hit → Bool = is_wanted c q q.window inv bookings in
      let rows = joined inv.venues inv.rooms in
      let all = all_rows c q q.window inv bookings in
      let total = (search_in-slice c q q.window inv bookings).1 in
      let pages : pages_to c q inv bookings n ≡ all =
        pages_to-take c q inv bookings n ∙ take-all (n * q.page_size) all (rw (← total) enough) in
      (
        total
            ∙ (length-all all
                ∙ (all_rows-count q.window (λ h. true) fits
                    ∙ (sym (ap length (filter_by-filter_by (λ h. true) wanted rows))
                        ∙ sym (length-all (filter_by wanted rows))))),
        ap (λ hs. length (filter_by p hs)) pages ∙ all_rows-count q.window p fits,
      )
