-- ===== src/Search/Query.antt =====
-- apps/api/src/search/search.service.ts: the search for rooms across venues.
--
-- How Postgres compares cities (`lower`) is a parameter, as is the calendar of the time zones; a
-- time zone is the number that names it there. The statements of a search see one database.
use project_atrium.Base.{
  ℕ, ◌-◌, ◌*◌, Bool, true, false, ◌&&◌, Option, none, some, List, [], ◌∷◌, ◌++◌, map, leb, ◌==◌,
  if◌then◌else◌, filter_by, any_of, is_some, length, take, drop,
}
use Prim.Native.String.{String}
use text.Mathlib.Text.{◌==◌ as ◌is◌}
use project_atrium.Store.Tables.{Booking}
use project_atrium.Store.Inventory.{Venue, RoomRow, Inventory}
use project_atrium.Rooms.Zones.{Calendar}
use project_atrium.Rooms.Hours.{is_within_operating_hours}
use project_atrium.Rooms.Availability.{free_room_ids}

-- `SearchQuery`; the schema takes a window with both ends or none.
pub record SearchQuery : Type 0 where
  pub city : Option String
  pub min_capacity : Option ℕ
  pub amenity : List String
  pub max_hourly_rate_minor : Option ℕ
  pub window : Option (ℕ × ℕ)
  pub page : ℕ
  pub page_size : ℕ

-- A room joined with its venue.
pub record Hit : Type 0 where
  pub room : RoomRow
  pub venue : Venue

pub data Filter : Type 0 where
  by_city by_min_capacity by_max_hourly_rate by_amenity by_availability_window : Filter

pub record SearchPage : Type 0 where
  pub rows : List Hit
  pub page : ℕ
  pub page_size : ℕ
  pub total : ℕ
  pub filters_applied : List Filter
  pub truncated_at_candidates : Option ℕ

-- What the service reads besides the tables: the clock, the turnaround of the settings, the time
-- zones, and when two cities are the same.
pub record Context : Type 0 where
  pub now : ℕ
  pub turnaround_minutes : ℕ
  pub calendar : Calendar
  pub same_city : String → String → Bool

abbrev pub has_amenity : List String → String → Bool
has_amenity amenities a = any_of (λ b. b is a) amenities

-- `@>`: every amenity asked for.
abbrev pub has_all : List String → List String → Bool
has_all amenities [] = true
has_all amenities (a ∷ asked) = has_amenity amenities a && has_all amenities asked

abbrev pub in_city : Context → Option String → Venue → Bool
in_city c none v = true
in_city c (some city) v = c.same_city v.city city

abbrev pub at_least : Option ℕ → ℕ → Bool
at_least none n = true
at_least (some low) n = leb low n

abbrev pub at_most : Option ℕ → ℕ → Bool
at_most none n = true
at_most (some high) n = leb n high

-- The predicates of the query but the availability window.
unfoldable pub matches : Context → SearchQuery → Hit → Bool
matches c q h =
    in_city c q.city h.venue
    && (at_least q.min_capacity h.room.capacity
        && (at_most q.max_hourly_rate_minor h.room.hourly_rate_minor
            && has_all h.room.amenities q.amenity))

abbrev pub applied_if : Bool → Filter → List Filter → List Filter
applied_if used f rest = if used then f ∷ rest else rest

abbrev pub is_named : {A : Type 0} → List A → Bool
is_named [] = false
is_named (a ∷ rest) = true

unfoldable pub filters_of : SearchQuery → List Filter
filters_of q = applied_if (is_some q.city) by_city (
    applied_if (is_some q.min_capacity) by_min_capacity (
      applied_if (is_some q.max_hourly_rate_minor) by_max_hourly_rate (
        applied_if (is_named q.amenity) by_amenity
          (applied_if (is_some q.window) by_availability_window []))))

-- `venuesOpenFor`: is the venue open for the whole window?
unfoldable pub is_open_for : Context → ℕ → ℕ → Venue → Bool
is_open_for c from to v = elim v.operating_hours [
  | none ↦ false
  | some hours ↦ is_within_operating_hours c.calendar hours v.timezone from to
]

unfoldable pub venues_open_for : Context → ℕ → ℕ → Option String → List Venue → List ℕ
unfolding is_open_for
venues_open_for c from to city venues =
    map (λ (v : Venue). v.id)
      (filter_by (λ v. is_open_for c from to v) (filter_by (in_city c city) venues))

-- `innerJoin(venues, eq(venues.id, rooms.venueId))`
unfoldable pub joined : List Venue → List RoomRow → List Hit
joined venues [] = []
joined venues (r ∷ rs) =
    map (λ (v : Venue). record { room = r; venue = v })
      (filter_by (λ (v : Venue). v.id == r.venue_id) venues)
    ++ joined venues rs

-- `ORDER BY hourly_rate_minor, id`
unfoldable pub comes_before : Hit → Hit → Bool
comes_before g h =
    if g.room.hourly_rate_minor == h.room.hourly_rate_minor
    then leb g.room.id h.room.id
    else leb g.room.hourly_rate_minor h.room.hourly_rate_minor

unfoldable pub insert_hit : Hit → List Hit → List Hit
unfolding comes_before
insert_hit h [] = h ∷ []
insert_hit h (g ∷ gs) = if comes_before h g then h ∷ g ∷ gs else g ∷ insert_hit h gs

unfoldable pub in_order : List Hit → List Hit
unfolding insert_hit
in_order [] = []
in_order (h ∷ hs) = insert_hit h (in_order hs)

-- `LIMIT size OFFSET (page - 1) * size`, and `slice(start, start + size)`
abbrev pub slice : {A : Type 0} → ℕ → ℕ → List A → List A
slice page size xs = take size (drop ((page - 1) * size) xs)

-- `page`: the rows of one page that meet a condition.
unfoldable pub select_page : (Hit → Bool) → ℕ → ℕ → Inventory → List Hit
unfolding joined in_order
select_page taken page size inv =
    slice page size (in_order (filter_by taken (joined inv.venues inv.rooms)))

-- `count`
unfoldable pub count_rows : (Hit → Bool) → Inventory → ℕ
unfolding joined
count_rows taken inv = length (filter_by taken (joined inv.venues inv.rooms))

-- `CANDIDATE_CAP`
abbrev pub candidate_cap : ℕ
candidate_cap = 2000

-- `inArray(rooms.venueId, openVenueIds)`
abbrev pub is_among : List ℕ → Hit → Bool
is_among ids h = any_of (λ i. i == h.room.venue_id) ids

abbrev pub no_hits : SearchQuery → SearchPage
no_hits q = record {
  rows = [];
  page = q.page;
  page_size = q.page_size;
  total = 0;
  filters_applied = filters_of q;
  truncated_at_candidates = none;
}

-- The search with a window, behind the ids of the open venues.
unfoldable pub search_open :
    Context → SearchQuery → ℕ → ℕ → List ℕ → Inventory → List Booking → SearchPage
unfolding matches select_page filters_of
search_open c q from to [] inv bookings = no_hits q
search_open c q from to (v ∷ vs) inv bookings =
    let candidates = select_page (λ h. matches c q h && is_among (v ∷ vs) h) 1 candidate_cap inv in
    let free =
      free_room_ids c.now c.turnaround_minutes (map (λ (h : Hit). h.room.id) candidates) from to
        bookings in
    let available = filter_by (λ (h : Hit). any_of (λ i. i == h.room.id) free) candidates in
    record {
      rows = slice q.page q.page_size available;
      page = q.page;
      page_size = q.page_size;
      total = length available;
      filters_applied = filters_of q;
      truncated_at_candidates =
          if length candidates == candidate_cap then some candidate_cap else none;
    }

-- The two ways of a search, by its window.
unfoldable pub search_in :
    Context → SearchQuery → Option (ℕ × ℕ) → Inventory → List Booking → SearchPage
unfolding search_open venues_open_for select_page count_rows filters_of
search_in c q (some (from, to)) inv bookings =
    search_open c q from to (venues_open_for c from to q.city inv.venues) inv bookings
search_in c q none inv bookings = record {
  rows = select_page (matches c q) q.page q.page_size inv;
  page = q.page;
  page_size = q.page_size;
  total = count_rows (matches c q) inv;
  filters_applied = filters_of q;
  truncated_at_candidates = none;
}

-- `search`
unfoldable pub search_rooms : Context → SearchQuery → Inventory → List Booking → SearchPage
unfolding search_in
search_rooms c q inv bookings = search_in c q q.window inv bookings
