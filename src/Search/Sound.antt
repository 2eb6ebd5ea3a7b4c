-- ===== src/Search/Sound.antt =====
-- What each row that a search shows is.
use project_atrium.Base.{
  ℕ, ◌-◌, ◌*◌, ◌≤◌, ◌≡◌, refl, sym, ap, ◌∙◌, subst, Bool, true, false, ◌&&◌, Option, none, some,
  List, [], ◌∷◌, ◌++◌, map, ◌==◌, filter_by, any_of, take, All, All-map, arith, Bool-cases, inl,
  inr, ==→eq, &&-split, All-take, All-drop, All-filter_by,
}
use project_atrium.Store.Tables.{Booking}
use project_atrium.Store.Inventory.{Venue, RoomRow, Inventory}
use project_atrium.Rooms.Zones.{add_minutes}
use project_atrium.Rooms.Advice.{in_slot, meets, any_of-is_busy}
use project_atrium.Rooms.Availability.{is_busy}
use project_atrium.Search.Query.{
  SearchQuery, Hit, Context, has_all, in_city, at_least, at_most, matches, is_open_for,
  venues_open_for, joined, in_order, insert_hit, comes_before, candidate_cap, is_among,
  search_rooms,
}
use project_atrium.Search.Pages.{is_candidate, is_free, all_rows, search_in-slice}

module _ {κ} (P : Hit → Type κ) where
  All-insert_hit : (h : Hit) (hs : List Hit) → P h → All P hs → All P (insert_hit h hs)
  unfolding insert_hit
  All-insert_hit h [] ph phs = (ph, tt)
  All-insert_hit h (g ∷ gs) ph phs = elim (Bool-cases (comes_before h g)) [
    | inl first ↦ rw first (ph, phs)
    | inr later ↦ rw later (phs.0, All-insert_hit h gs ph phs.1)
  ]

  All-in_order : (hs : List Hit) → All P hs → All P (in_order hs)
  unfolding in_order
  All-in_order [] h = tt
  All-in_order (x ∷ xs) h = All-insert_hit x (in_order xs) h.0 (All-in_order xs h.1)

abbrev IsJoined : Hit → Type 0
IsJoined h = h.venue.id ≡ h.room.venue_id

venues_of-IsJoined :
    (r : RoomRow) (vs : List Venue) (rest : List Hit)
    → All IsJoined rest
    → All IsJoined (
        map
          (λ (v : Venue). record { room = r; venue = v })
          (filter_by (λ (v : Venue). v.id == r.venue_id) vs)
        ++ rest)
venues_of-IsJoined r [] rest h = h
venues_of-IsJoined r (v ∷ vs) rest h = elim (Bool-cases (v.id == r.venue_id)) [
  | inl hit ↦ rw hit (==→eq v.id r.venue_id hit, venues_of-IsJoined r vs rest h)
  | inr miss ↦ rw miss (venues_of-IsJoined r vs rest h)
]

joined-IsJoined : (vs : List Venue) (rs : List RoomRow) → All IsJoined (joined vs rs)
unfolding joined
joined-IsJoined vs [] = tt
joined-IsJoined vs (r ∷ rs) = venues_of-IsJoined r vs (joined vs rs) (joined-IsJoined vs rs)

-- Some venue of the room's id, in the city asked for, is open for the window.
abbrev pub IsOpen : Context → SearchQuery → Inventory → ℕ → ℕ → Hit → Type 0
IsOpen c q inv from to h =
    any_of
      (λ (v : Venue). (v.id == h.room.venue_id) && (in_city c q.city v && is_open_for c from to v))
      inv.venues
    ≡ true

-- A row as the query asks for it; `draft` has the columns of a booking that are not asked about.
pub record IsShown (c : Context) (q : SearchQuery) (inv : Inventory) (bookings : List Booking)
    (draft : Booking) (h : Hit) : Type 0 where
  pub is_joined : h.venue.id ≡ h.room.venue_id
  pub is_in_city : in_city c q.city h.venue ≡ true
  pub seats : (n : ℕ) → q.min_capacity ≡ some n → n ≤ h.room.capacity
  pub price : (n : ℕ) → q.max_hourly_rate_minor ≡ some n → h.room.hourly_rate_minor ≤ n
  pub has_amenities : has_all h.room.amenities q.amenity ≡ true
  pub in_window :
      (from to : ℕ)
      → q.window ≡ some (from, to)
      → IsOpen c q inv from to h
        × (any_of
              (meets c.now (in_slot draft h.room.id (record { starts_at = from; ends_at = to })))
              bookings
            ≡ false)

-- Two filters and a look for an id are one look.
any_of-open :
    (local open_then : Venue → Bool) (k : ℕ) (vs : List Venue)
    → any_of (λ i. i == k) (map (λ (v : Venue). v.id) (filter_by open_then (filter_by local vs)))
      ≡ any_of (λ (v : Venue). (v.id == k) && (local v && open_then v)) vs
any_of-open local open_then k [] = refl
any_of-open local open_then k (v ∷ vs) = elim (Bool-cases (local v)) [
  | inr away ↦ rw away (ground (arith, any_of-open local open_then k vs))
  | inl near ↦ elim (Bool-cases (open_then v)) [
    | inl hit ↦ rw (near, hit) (ground (arith, any_of-open local open_then k vs))
    | inr shut ↦ rw (near, shut) (ground (arith, any_of-open local open_then k vs))
  ]
]

module _ (c : Context) (q : SearchQuery) (inv : Inventory) (bookings : List Booking)
    (draft : Booking) where
  seats_of :
      (h : Hit) (o : Option ℕ) (n : ℕ)
      → at_least o h.room.capacity ≡ true
      → o ≡ some n
      → n ≤ h.room.capacity
  seats_of h none n e s = ground (arith, s)
  seats_of h (some low) n e s = ground (arith, s, e)

  price_of :
      (h : Hit) (o : Option ℕ) (n : ℕ)
      → at_most o h.room.hourly_rate_minor ≡ true
      → o ≡ some n
      → h.room.hourly_rate_minor ≤ n
  price_of h none n e s = ground (arith, s)
  price_of h (some high) n e s = ground (arith, s, e)

  -- What the window asks, for a given window.
  abbrev InWindow : Option (ℕ × ℕ) → Hit → Type 0
  InWindow w h =
      (from to : ℕ)
      → w ≡ some (from, to)
      → IsOpen c q inv from to h
        × (any_of
              (meets c.now (in_slot draft h.room.id (record { starts_at = from; ends_at = to })))
              bookings
            ≡ false)

  IsShown-of :
      (h : Hit)
      → IsJoined h
      → matches c q h ≡ true
      → InWindow q.window h
      → IsShown c q inv bookings draft h
  unfolding matches
  IsShown-of h j m w =
      let a = &&-split _ _ m in
      let b = &&-split _ _ a.1 in
      let d = &&-split _ _ b.1 in
      record {
        is_joined = j;
        is_in_city = a.0;
        seats = λ n e. seats_of h q.min_capacity n b.0 e;
        price = λ n e. price_of h q.max_hourly_rate_minor n d.0 e;
        has_amenities = d.1;
        in_window = w;
      }

  free_of :
      (from to : ℕ) (h : Hit)
      → c.turnaround_minutes ≡ 15
      → is_free c from to bookings h ≡ true
      → any_of
          (meets c.now (in_slot draft h.room.id (record { starts_at = from; ends_at = to })))
          bookings
        ≡ false
  free_of from to h e f =
      let asked : ℕ → Bool =
        λ minutes. any_of (is_busy c.now h.room.id from (add_minutes to minutes)) bookings in
      let clear : asked c.turnaround_minutes ≡ false = ground (arith, f) in
      sym (any_of-is_busy c.now from to h.room.id draft bookings) ∙ (ap asked (sym e) ∙ clear)

  InWindow-of :
      (from to : ℕ) (h : Hit)
      → IsOpen c q inv from to h
      → any_of
          (meets c.now (in_slot draft h.room.id (record { starts_at = from; ends_at = to })))
          bookings
        ≡ false
      → InWindow (some (from, to)) h
  InWindow-of from to h open_then clear f t e =
      let starts : from ≡ f = cc in
      let ends : to ≡ t = cc in rw (← starts, ← ends) (open_then, clear)

  IsOpen-of :
      (from to : ℕ) (h : Hit)
      → is_among (venues_open_for c from to q.city inv.venues) h ≡ true
      → IsOpen c q inv from to h
  unfolding venues_open_for
  IsOpen-of from to h among =
      sym (any_of-open (in_city c q.city) (is_open_for c from to) h.room.venue_id inv.venues)
      ∙ among

  rows_shown :
      (w : Option (ℕ × ℕ))
      → c.turnaround_minutes ≡ 15
      → All (λ h. IsJoined h × (matches c q h ≡ true) × InWindow w h) (all_rows c q w inv bookings)
  rows_shown none e = All-in_order _ _ (
      All-map _ _ (filter_by (matches c q) (joined inv.venues inv.rooms))
        (λ h u. (u.0, u.1, λ from to none_is. cc))
        (All-filter_by IsJoined (matches c q) (joined inv.venues inv.rooms)
          (joined-IsJoined inv.venues inv.rooms)))
  rows_shown (some (from, to)) e =
      let candidate = is_candidate c q (venues_open_for c from to q.city inv.venues) in
      let rows = joined inv.venues inv.rooms in
      All-map _ _
        (filter_by (is_free c from to bookings)
          (take candidate_cap (in_order (filter_by candidate rows))))
        (λ h u.
          let tests = &&-split _ _ u.0.1 in
          (
            u.0.0,
            tests.0,
            InWindow-of from to h (IsOpen-of from to h tests.1) (free_of from to h e u.1),
          ))
        (All-filter_by _ (is_free c from to bookings)
          (take candidate_cap (in_order (filter_by candidate rows)))
          (All-take _ candidate_cap (in_order (filter_by candidate rows)) (
            All-in_order _ (filter_by candidate rows)
              (All-filter_by IsJoined candidate rows (joined-IsJoined inv.venues inv.rooms)))))

  -- Where the turnaround of the settings is the 15 minutes of the constraint, every row that a
  -- search shows, on any page, is a room with its venue, in the city asked for, with the seats,
  -- the price and the amenities asked for; and where a window is asked for, a venue of the room
  -- is open for it, and a booking of the window would meet no booking of the table that occupies
  -- its slot.
  pub search_rooms-IsShown :
      c.turnaround_minutes ≡ 15
      → All (IsShown c q inv bookings draft) (search_rooms c q inv bookings).rows
  unfolding search_rooms
  search_rooms-IsShown e =
      subst (All (IsShown c q inv bookings draft))
        (sym (search_in-slice c q q.window inv bookings).0)
        (All-take _ q.page_size _ (
          All-drop _ ((q.page - 1) * q.page_size) (all_rows c q q.window inv bookings) (
            All-map _ _ (all_rows c q q.window inv bookings) (λ h u. IsShown-of h u.0 u.1 u.2)
              (rows_shown q.window e))))
