-- ===== src/Reports/Sums.antt =====
-- The parts of a revenue report against its summary.
use project_atrium.Base.{
  ℕ, suc, leb, Bool, filter_by, ◌+◌, ◌≡◌, refl, sym, ap, ◌∙◌, true, List, [], ◌∷◌, map, ◌==◌,
  if◌then◌else◌, find_first, length, sum_by, All, arith, Bool-cases, inl, inr, with_key,
  first_of_each, sum_by-first_of_each, length-eq-sum_by, is_some,
}
use project_atrium.Store.Tables.{Booking}
use project_atrium.Store.Inventory.{RoomRow}
use project_atrium.Reports.Revenue.{
  is_revenue, gross_of, RoomRevenue, DayRevenue, Occupied, with_rooms, room_of, comes_earlier,
  bookings_of, room_revenue, insert_earner, by_earnings, by_room, day_of, day_revenue, insert_day,
  in_day_order, by_day,
}

-- What a booking adds to the gross.
abbrev pub earned : Booking → ℕ
earned b = if is_revenue b then b.total_minor else 0

pub gross-earned : (bs : List Booking) → gross_of bs ≡ sum_by earned bs
gross-earned [] = refl
gross-earned (b ∷ bs) = elim (Bool-cases (is_revenue b)) [
  | inl hit ↦ rw (hit, gross-earned bs) refl
  | inr miss ↦ rw miss (gross-earned bs ∙ omega arith)
]

module _ {ℓ κ} {A : Type ℓ} {B : Type κ} where
  sum_by-map :
      (f : B → ℕ) (g : A → B) (xs : List A) → sum_by f (map g xs) ≡ sum_by (λ x. f (g x)) xs
  sum_by-map f g [] = refl
  sum_by-map f g (x ∷ xs) = ap (λ n. f (g x) + n) (sum_by-map f g xs)

sum_by-same {ℓ} :
    {A : Type ℓ} (f g : A → ℕ) (xs : List A) → ((x : A) → f x ≡ g x) → sum_by f xs ≡ sum_by g xs
sum_by-same f g [] h = refl
sum_by-same f g (x ∷ xs) h = omega (arith, h x, sum_by-same f g xs h)

sum_by-insert_earner :
    (f : RoomRevenue → ℕ) (r : RoomRevenue) (rs : List RoomRevenue)
    → sum_by f (insert_earner r rs) ≡ f r + sum_by f rs
unfolding insert_earner
sum_by-insert_earner f r [] = refl
sum_by-insert_earner f r (s ∷ ss) = elim (Bool-cases (comes_earlier r s)) [
  | inl first ↦ rw first refl
  | inr later ↦ rw later (omega (arith, sum_by-insert_earner f r ss))
]

sum_by-earnings :
    (f : RoomRevenue → ℕ) (rs : List RoomRevenue) → sum_by f (by_earnings rs) ≡ sum_by f rs
unfolding by_earnings
sum_by-earnings f [] = refl
sum_by-earnings f (r ∷ rs) =
    sum_by-insert_earner f r (by_earnings rs) ∙ ap (λ n. f r + n) (sum_by-earnings f rs)

sum_by-insert_day :
    (f : DayRevenue → ℕ) (d : DayRevenue) (ds : List DayRevenue)
    → sum_by f (insert_day d ds) ≡ f d + sum_by f ds
unfolding insert_day
sum_by-insert_day f d [] = refl
sum_by-insert_day f d (e ∷ es) = elim (Bool-cases (leb d.day e.day)) [
  | inl first ↦ rw first refl
  | inr later ↦ rw later (omega (arith, sum_by-insert_day f d es))
]

sum_by-days : (f : DayRevenue → ℕ) (ds : List DayRevenue) → sum_by f (in_day_order ds) ≡ sum_by f ds
unfolding in_day_order
sum_by-days f [] = refl
sum_by-days f (d ∷ ds) =
    sum_by-insert_day f d (in_day_order ds) ∙ ap (λ n. f d + n) (sum_by-days f ds)

-- A sum over the groups of `key`, each of which adds what `g` adds of its rows.
module _ {ℓ κ} {A : Type ℓ} {R : Type κ} (key : A → ℕ) (xs : List A) (row : A → R) where
  sum_by-groups_of :
      (f : R → ℕ) (g : A → ℕ)
      → ((x : A) → f (row x) ≡ sum_by g (with_key key (key x) xs))
      → sum_by f (map row (first_of_each key xs)) ≡ sum_by g xs
  sum_by-groups_of f g h =
      sum_by-map f row (first_of_each key xs)
      ∙ (sum_by-same _ _ (first_of_each key xs) h ∙ sum_by-first_of_each key g xs)

-- A sum over the rows that a WHERE clause takes.
pub sum_by-filter_by {ℓ} :
    {A : Type ℓ} (f : A → ℕ) (p : A → Bool) (xs : List A)
    → sum_by f (filter_by p xs) ≡ sum_by (λ x. if p x then f x else 0) xs
sum_by-filter_by f p [] = refl
sum_by-filter_by f p (x ∷ xs) = ground (arith, sum_by-filter_by f p xs)

-- A row that holds before it is sorted holds after.
All-mapped {ℓ κ μ} :
    {A : Type ℓ} {B : Type κ} (P : B → Type μ) (g : A → B)
    → ((x : A) → P (g x))
    → (xs : List A) → All P (map g xs)
All-mapped P g h [] = tt
All-mapped P g h (x ∷ xs) = (h x, All-mapped P g h xs)

module _ (P : RoomRevenue → Type 0) where
  All-insert_earner :
      (r : RoomRevenue) (rs : List RoomRevenue) → P r → All P rs → All P (insert_earner r rs)
  unfolding insert_earner
  All-insert_earner r [] p h = (p, tt)
  All-insert_earner r (s ∷ ss) p h = elim (Bool-cases (comes_earlier r s)) [
    | inl first ↦ rw first (p, h)
    | inr later ↦ rw later (h.0, All-insert_earner r ss p h.1)
  ]

  All-by_earnings : (rs : List RoomRevenue) → All P rs → All P (by_earnings rs)
  unfolding by_earnings
  All-by_earnings [] h = tt
  All-by_earnings (r ∷ rs) h = All-insert_earner r (by_earnings rs) h.0 (All-by_earnings rs h.1)

module _ (P : DayRevenue → Type 0) where
  All-insert_day :
      (d : DayRevenue) (ds : List DayRevenue) → P d → All P ds → All P (insert_day d ds)
  unfolding insert_day
  All-insert_day d [] p h = (p, tt)
  All-insert_day d (e ∷ es) p h = elim (Bool-cases (leb d.day e.day)) [
    | inl first ↦ rw first (p, h)
    | inr later ↦ rw later (h.0, All-insert_day d es p h.1)
  ]

  All-in_day_order : (ds : List DayRevenue) → All P ds → All P (in_day_order ds)
  unfolding in_day_order
  All-in_day_order [] h = tt
  All-in_day_order (d ∷ ds) h = All-insert_day d (in_day_order ds) h.0 (All-in_day_order ds h.1)

module _ (local_day : ℕ → ℕ) (bs : List Booking) where
  pub days_count : sum_by (λ (d : DayRevenue). d.bookings) (by_day local_day bs) ≡ length bs
  unfolding by_day
  days_count =
      sum_by-days _ (map (day_revenue local_day bs) (first_of_each (day_of local_day) bs))
      ∙ (sum_by-groups_of (day_of local_day) bs (day_revenue local_day bs) _ (λ b. 1)
            (λ b. length-eq-sum_by (with_key (day_of local_day) (day_of local_day b) bs))
          ∙ sym (length-eq-sum_by bs))

  pub days_gross : sum_by (λ (d : DayRevenue). d.gross_minor) (by_day local_day bs) ≡ gross_of bs
  unfolding by_day
  days_gross =
      sum_by-days _ (map (day_revenue local_day bs) (first_of_each (day_of local_day) bs))
      ∙ (sum_by-groups_of (day_of local_day) bs (day_revenue local_day bs) _ earned
            (λ b. gross-earned (with_key (day_of local_day) (day_of local_day b) bs))
          ∙ sym (gross-earned bs))

  -- What the row of a day says is what the bookings of that day have earned.
  pub day_rows :
      All
        (λ (d : DayRevenue).
          d.gross_minor ≡ sum_by (λ b. if local_day b.starts_at == d.day then earned b else 0) bs)
        (by_day local_day bs)
  unfolding by_day
  day_rows =
      All-in_day_order _ (map (day_revenue local_day bs) (first_of_each (day_of local_day) bs)) (
        All-mapped _ (day_revenue local_day bs)
          (λ b.
            gross-earned (with_key (day_of local_day) (day_of local_day b) bs)
            ∙ sum_by-filter_by earned _ bs)
          (first_of_each (day_of local_day) bs))

length-map {ℓ κ} :
    {A : Type ℓ} {B : Type κ} (g : A → B) (xs : List A) → length (map g xs) ≡ length xs
length-map g [] = refl
length-map g (x ∷ xs) = ap suc (length-map g xs)

module _ (rooms : List RoomRow) where
  -- The room of every booking is there, as its foreign key says.
  abbrev pub HasRoom : Booking → Type 0
  HasRoom b = is_some (find_first (λ (r : RoomRow). r.id == b.room_id) rooms) ≡ true

  bookings_of-with_rooms :
      (bs : List Booking) → All HasRoom bs → bookings_of (with_rooms rooms bs) ≡ bs
  unfolding with_rooms
  bookings_of-with_rooms [] h = refl
  bookings_of-with_rooms (b ∷ bs) h = ground (arith, h.0, bookings_of-with_rooms bs h.1)

  pub rooms_count :
      (bs : List Booking)
      → All HasRoom bs
      → sum_by (λ (r : RoomRevenue). r.bookings) (by_room rooms bs) ≡ length bs
  unfolding by_room
  rooms_count bs h =
      let os = with_rooms rooms bs in
      sum_by-earnings _ (map (room_revenue os) (first_of_each room_of os))
      ∙ (sum_by-groups_of room_of os (room_revenue os) _ (λ o. 1)
            (λ o.
              length-map _ (with_key room_of (room_of o) os)
              ∙ length-eq-sum_by (with_key room_of (room_of o) os))
          ∙ (sym (length-map (λ (o : Occupied). o.0) os ∙ length-eq-sum_by os)
              ∙ ap length (bookings_of-with_rooms bs h)))

  group-earned :
      (k : ℕ) (bs : List Booking)
      → All HasRoom bs
      → sum_by earned (bookings_of (with_key room_of k (with_rooms rooms bs)))
        ≡ sum_by (λ b. if b.room_id == k then earned b else 0) bs
  unfolding with_rooms
  group-earned k [] h = refl
  group-earned k (b ∷ bs) h = elim (Bool-cases (b.room_id == k)) [
    | inl hit ↦ ground (arith, h.0, hit, group-earned k bs h.1)
    | inr miss ↦ ground (arith, h.0, miss, group-earned k bs h.1)
  ]

  -- What the row of a room says is what the bookings of that room have earned.
  pub room_rows :
      (bs : List Booking)
      → All HasRoom bs
      → All
          (λ (r : RoomRevenue).
            r.gross_minor ≡ sum_by (λ b. if b.room_id == r.room_id then earned b else 0) bs)
          (by_room rooms bs)
  unfolding by_room
  room_rows bs h =
      let os = with_rooms rooms bs in
      All-by_earnings _ (map (room_revenue os) (first_of_each room_of os)) (
        All-mapped _ (room_revenue os)
          (λ o.
            gross-earned (bookings_of (with_key room_of (room_of o) os))
            ∙ group-earned (room_of o) bs h)
          (first_of_each room_of os))

  pub rooms_gross :
      (bs : List Booking)
      → All HasRoom bs
      → sum_by (λ (r : RoomRevenue). r.gross_minor) (by_room rooms bs) ≡ gross_of bs
  unfolding by_room
  rooms_gross bs h =
      let os = with_rooms rooms bs in
      sum_by-earnings _ (map (room_revenue os) (first_of_each room_of os))
      ∙ (sum_by-groups_of room_of os (room_revenue os) _ (λ o. earned o.0)
            (λ o.
              gross-earned (bookings_of (with_key room_of (room_of o) os))
              ∙ sum_by-map earned (λ (o : Occupied). o.0) (with_key room_of (room_of o) os))
          ∙ (sym (sum_by-map earned (λ (o : Occupied). o.0) os)
              ∙ (sym (gross-earned (bookings_of os)) ∙ ap gross_of (bookings_of-with_rooms bs h))))
