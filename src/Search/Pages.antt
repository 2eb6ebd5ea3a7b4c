-- ===== src/Search/Pages.antt =====
-- The pages of a search, put together.
use project_atrium.Base.{
  ℕ, zero, suc, ◌+◌, ◌*◌, ◌≡◌, refl, sym, ap, ◌∙◌, Bool, true, not, ◌&&◌, Option, none, some, List,
  [], ◌∷◌, ◌++◌, map, ◌==◌, filter_by, any_of, length, take, drop, All, arith, Bool-cases, inl, inr,
  ==_refl, ==→eq, pred, zero-times, suc-times, take-add, slice-nil, length-all, filter_by-same,
}
use project_atrium.Store.Tables.{Booking}
use project_atrium.Store.Inventory.{Inventory}
use project_atrium.Rooms.Zones.{add_minutes}
use project_atrium.Rooms.Availability.{free_room_ids, is_busy}
use project_atrium.Search.Query.{
  SearchQuery, Hit, Context, matches, venues_open_for, joined, in_order, insert_hit, slice,
  select_page, count_rows, candidate_cap, is_among, search_open, search_in, search_rooms,
}

length-insert_hit :
    (p : Hit → Bool) (h : Hit) (hs : List Hit)
    → length (filter_by p (insert_hit h hs)) ≡ length (filter_by p (h ∷ hs))
unfolding insert_hit
length-insert_hit p h [] = refl
length-insert_hit p h (g ∷ gs) = ground (arith, length-insert_hit p h gs)

-- The order changes no count.
pub length-in_order :
    (p : Hit → Bool) (hs : List Hit) → length (filter_by p (in_order hs)) ≡ length (filter_by p hs)
unfolding in_order
length-in_order p [] = refl
length-in_order p (h ∷ hs) =
    length-insert_hit p h (in_order hs) ∙ ground (arith, length-in_order p hs)

pub in_order-length : (hs : List Hit) → length (in_order hs) ≡ length hs
in_order-length hs =
    length-all (in_order hs) ∙ (length-in_order (λ h. true) hs ∙ sym (length-all hs))

-- Is a row wanted in the candidates of a window?
abbrev pub is_candidate : Context → SearchQuery → List ℕ → Hit → Bool
is_candidate c q ids h = matches c q h && is_among ids h

abbrev pub is_free : Context → ℕ → ℕ → List Booking → Hit → Bool
is_free c from to bookings h =
    not (any_of (is_busy c.now h.room.id from (add_minutes to c.turnaround_minutes)) bookings)

-- All rows that a search shows, over all its pages.
abbrev pub all_rows : Context → SearchQuery → Option (ℕ × ℕ) → Inventory → List Booking → List Hit
all_rows c q none inv bookings = in_order (filter_by (matches c q) (joined inv.venues inv.rooms))
all_rows c q (some (from, to)) inv bookings = filter_by (is_free c from to bookings) (
    take candidate_cap (
      in_order (
        filter_by (is_candidate c q (venues_open_for c from to q.city inv.venues))
          (joined inv.venues inv.rooms))))

any_of-free :
    (f : ℕ → Bool) (k : ℕ) (ids : List ℕ)
    → any_of (λ i. i == k) (filter_by f ids) ≡ (any_of (λ i. i == k) ids && f k)
any_of-free f k [] = refl
any_of-free f k (i ∷ is) = elim (Bool-cases (i == k)) [
  | inl hit ↦ ground (arith, hit, ap f (==→eq i k hit), any_of-free f k is)
  | inr miss ↦ ground (arith, miss, any_of-free f k is)
]

-- The select on the free ids, over the candidates that they were asked of.
free_candidates :
    (f : ℕ → Bool) (hs gs : List Hit)
    → All (λ (h : Hit). any_of (λ i. i == h.room.id) (map (λ (g : Hit). g.room.id) gs) ≡ true) hs
    → All
        (λ (h : Hit).
          any_of (λ i. i == h.room.id) (filter_by f (map (λ (g : Hit). g.room.id) gs))
          ≡ f h.room.id)
        hs
free_candidates f [] gs h = tt
free_candidates f (x ∷ xs) gs h = (
  any_of-free f x.room.id (map (λ (g : Hit). g.room.id) gs) ∙ rw h.0 refl,
  free_candidates f xs gs h.1,
)

-- Each candidate is among the ids of the candidates.
among_themselves :
    (hs gs : List Hit)
    → ((k : ℕ)
        → any_of (λ i. i == k) (map (λ (g : Hit). g.room.id) hs) ≡ true
        → any_of (λ i. i == k) (map (λ (g : Hit). g.room.id) gs) ≡ true)
    → All (λ (h : Hit). any_of (λ i. i == h.room.id) (map (λ (g : Hit). g.room.id) gs) ≡ true) hs
among_themselves [] gs sub = tt
among_themselves (h ∷ hs) gs sub = (
  sub h.room.id (rw (==_refl h.room.id) refl),
  among_themselves hs gs (λ k e. sub k (ground (arith, e))),
)

module _ (c : Context) (q : SearchQuery) (inv : Inventory) (bookings : List Booking) where
  free_rows :
      (from to : ℕ) (hs : List Hit)
      → filter_by
          (λ (h : Hit).
            any_of
              (λ i. i == h.room.id)
              (free_room_ids c.now c.turnaround_minutes
                (map (λ (g : Hit). g.room.id) hs)
                from
                to
                bookings))
          hs
        ≡ filter_by (is_free c from to bookings) hs
  unfolding free_room_ids
  free_rows from to hs =
      filter_by-same _ (is_free c from to bookings) hs
        (free_candidates _ hs hs (among_themselves hs hs (λ k e. e)))

  none_among :
      (taken : Hit → Bool) (hs : List Hit) → filter_by (λ h. taken h && is_among [] h) hs ≡ []
  none_among taken [] = refl
  none_among taken (h ∷ hs) = elim (Bool-cases (taken h)) [
    | inl hit ↦ rw hit (none_among taken hs)
    | inr miss ↦ rw miss (none_among taken hs)
  ]

  -- A page shows its share of all rows, and the total counts them all.
  open_lem :
      (from to : ℕ) (ids : List ℕ)
      → let rows = filter_by (is_free c from to bookings) (
          take candidate_cap
            (in_order (filter_by (is_candidate c q ids) (joined inv.venues inv.rooms)))) in
        let shown = search_open c q from to ids inv bookings in
        (shown.rows ≡ slice q.page q.page_size rows) × (shown.total ≡ length rows)
  unfolding search_open select_page
  open_lem from to [] =
      let empty = none_among (matches c q) (joined inv.venues inv.rooms) in
      (rw empty (sym (slice-nil q.page q.page_size)), rw empty refl)
  open_lem from to (v ∷ vs) =
      let rows = free_rows from to (
        take candidate_cap
          (in_order (filter_by (is_candidate c q (v ∷ vs)) (joined inv.venues inv.rooms)))) in
      (ap (slice q.page q.page_size) rows, ap length rows)

pub search_in-slice :
    (c : Context) (q : SearchQuery) (w : Option (ℕ × ℕ)) (inv : Inventory) (bookings : List Booking)
    → ((search_in c q w inv bookings).rows ≡ slice q.page q.page_size (all_rows c q w inv bookings))
      × ((search_in c q w inv bookings).total ≡ length (all_rows c q w inv bookings))
unfolding search_in select_page count_rows
search_in-slice c q none inv bookings =
    (refl, sym (in_order-length (filter_by (matches c q) (joined inv.venues inv.rooms))))
search_in-slice c q (some (from, to)) inv bookings =
    open_lem c q inv bookings from to (venues_open_for c from to q.city inv.venues)

-- The rows of the pages from the first to the `n`th.
abbrev pub pages_to : Context → SearchQuery → Inventory → List Booking → ℕ → List Hit
pages_to c q inv bookings zero = []
pages_to c q inv bookings (suc n) =
    pages_to c q inv bookings n ++ (search_rooms c (record q { page = n + 1 }) inv bookings).rows

module _ (c : Context) (q : SearchQuery) (inv : Inventory) (bookings : List Booking) where
  -- The page asked for is not a condition on the rows.
  same_rows :
      (w : Option (ℕ × ℕ)) (n : ℕ)
      → (search_in c (record q { page = n + 1 }) w inv bookings).rows
        ≡ slice (n + 1) q.page_size (all_rows c q w inv bookings)
  unfolding matches
  same_rows none n = (search_in-slice c (record q { page = n + 1 }) none inv bookings).0
  same_rows (some window) n =
      (search_in-slice c (record q { page = n + 1 }) (some window) inv bookings).0

  pub pages_to-take :
      (n : ℕ)
      → pages_to c q inv bookings n ≡ take (n * q.page_size) (all_rows c q q.window inv bookings)
  unfolding search_rooms
  pages_to-take zero = ap (λ k. take k (all_rows c q q.window inv bookings)) (sym (zero-times _))
  pages_to-take (suc n) =
      let rows = all_rows c q q.window inv bookings in
      ap (λ hs. hs ++ (search_rooms c (record q { page = n + 1 }) inv bookings).rows)
        (pages_to-take n)
      ∙ (ap (λ hs. take (n * q.page_size) rows ++ hs)
            (same_rows q.window n
              ∙ ap (λ k. take q.page_size (drop (k * q.page_size) rows)) (pred n))
          ∙ (sym (take-add (n * q.page_size) q.page_size rows)
              ∙ ap (λ k. take k rows) (sym (suc-times n q.page_size))))
