-- ===== src/Bookings/Equipment.antt =====
-- apps/api/src/bookings/equipment-availability.ts: the units of an equipment type that are out at
-- once, and the ceiling an admission is held against.
--
-- `SUM(delta) OVER (…)` is kept as what was acquired and what was released so far. The
-- subtraction stops at 0; the first event of a window always acquires, so that the maximum over
-- the rows is never negative and COALESCE's 0 is met by no other case than no rows.
use project_atrium.Base.{
  ℕ, ◌+◌, ◌-◌, ◌*◌, ◌/◌, min, max, Bool, false, not, ◌&&◌, ◌||◌, Option, none, some, List, [], ◌∷◌,
  ◌++◌, ltb, leb, ◌==◌, if◌then◌else◌, find_first,
}
use project_atrium.Store.Status.{held, is_status, is_active}
use project_atrium.Store.Tables.{Booking, Database}
use project_atrium.Refunds.Policy.{LineItem}
use project_atrium.Bookings.StateMachine.{has_id}

-- A row of the CTE `overlapping`: a use of some units, clipped to the requested window.
pub record Usage : Type 0 where
  pub window_start : ℕ
  pub window_end : ℕ
  pub quantity : ℕ

-- `b.status = 'HELD' AND b.expires_at IS NOT NULL AND b.expires_at <= now()`
abbrev pub is_due : Option ℕ → ℕ → Bool
is_due none now = false
is_due (some t) now = leb t now

unfoldable pub is_lapsed_hold : ℕ → Booking → Bool
is_lapsed_hold now b = is_status b.status held && is_due b.expires_at now

-- The bookings that occupy their units at all.
unfoldable pub occupies : ℕ → Booking → Bool
unfolding is_lapsed_hold
occupies now b = is_active b.status && not (is_lapsed_hold now b)

-- The WHERE of `overlapping` on a booking that the join finds.
unfoldable pub is_overlapping : ℕ → ℕ → ℕ → Booking → Bool
unfolding occupies
is_overlapping now s e b = occupies now b && (ltb b.starts_at e && ltb s b.ends_at)

-- The CTE `overlapping` for one equipment type.
unfoldable pub usage_of : ℕ → ℕ → ℕ → ℕ → Option Booking → List Usage → List Usage
unfolding is_overlapping
usage_of now s e quantity none rest = rest
usage_of now s e quantity (some b) rest =
    if is_overlapping now s e b
    then record {
      window_start = max b.starts_at s;
      window_end = min b.ends_at e;
      quantity = quantity;
    }
      ∷ rest
    else rest

unfoldable pub overlapping : ℕ → ℕ → ℕ → ℕ → List Booking → List LineItem → List Usage
unfolding usage_of
overlapping now type_id s e bookings [] = []
overlapping now type_id s e bookings (li ∷ lis) =
    let rest = overlapping now type_id s e bookings lis in
    if li.equipment_type_id == type_id
    then usage_of now s e li.quantity (find_first (has_id li.booking_id) bookings) rest
    else rest

-- The CTE `events`: tie_break 0 is a release, 1 an acquisition.
pub data Event : Type 0 where
  release acquire : ℕ → ℕ → Event

abbrev pub at : Event → ℕ
at (release t q) = t
at (acquire t q) = t

abbrev pub tie_break : Event → ℕ
tie_break (release t q) = 0
tie_break (acquire t q) = 1

abbrev pub acquired : Event → ℕ
acquired (release t q) = 0
acquired (acquire t q) = q

abbrev pub released : Event → ℕ
released (release t q) = q
released (acquire t q) = 0

unfoldable pub starts : List Usage → List Event
starts [] = []
starts (u ∷ us) = acquire u.window_start u.quantity ∷ starts us

unfoldable pub ends : List Usage → List Event
ends [] = []
ends (u ∷ us) = release u.window_end u.quantity ∷ ends us

-- `ORDER BY at, tie_break`
unfoldable pub comes_first : Event → Event → Bool
comes_first e f = ltb (at e) (at f) || (at e == at f && leb (tie_break e) (tie_break f))

unfoldable pub insert_event : Event → List Event → List Event
unfolding comes_first
insert_event e [] = e ∷ []
insert_event e (f ∷ fs) =
    let rest = insert_event e fs in if comes_first e f then e ∷ f ∷ fs else f ∷ rest

unfoldable pub order_events : List Event → List Event
unfolding insert_event
order_events [] = []
order_events (e ∷ es) = insert_event e (order_events es)

-- The maximum of the running totals, over the events behind those that made `a` and `r`.
unfoldable pub max_in_use : ℕ → ℕ → List Event → ℕ
max_in_use a r [] = 0
max_in_use a r (e ∷ es) =
    max (a + acquired e - (r + released e)) (max_in_use (a + acquired e) (r + released e) es)

-- `COALESCE(MAX(in_use), 0)`
unfoldable pub peak : List Usage → ℕ
unfolding starts ends order_events max_in_use
peak us = max_in_use 0 0 (order_events (starts us ++ ends us))

-- `peakConcurrentUsage` for one of the requested types.
unfoldable pub peak_concurrent_usage : ℕ → ℕ → ℕ → ℕ → Database → ℕ
unfolding overlapping peak
peak_concurrent_usage now type_id s e db =
    peak (overlapping now type_id s e db.bookings db.line_items)

-- `admissionCeiling`: `Math.floor(owned * (1 + pct / 100))`, without the rounding of floats.
unfoldable pub admission_ceiling : ℕ → ℕ → ℕ
admission_ceiling units_owned buffer_pct = units_owned * (100 + buffer_pct) / 100
