-- ===== src/Payments/Split.antt =====
-- The price of a hold against the split of its total: what a refund is computed from is what the
-- hold charged for the room and for the equipment.
use project_atrium.Base.{
  ℕ, ◌-◌, ◌≡◌, refl, sym, ◌∙◌, ap, subst, false, inl, inr, List, [], ◌∷◌, ◌++◌, map, All, sum_by,
  filter_by, ◌==◌, arith, Bool-cases, ◌⊎◌,
}
use project_atrium.Store.Tables.{AuthPrincipal, Booking, Database, EquipmentType}
use project_atrium.Store.Transaction.{Conflict, Failure, Result, ok, err}
use project_atrium.Refunds.Policy.{LineItem, split_totals, equipment_share, half_hours}
use project_atrium.Bookings.StateMachine.{held_row, create_held, insert_booking, is_excluded}
use project_atrium.Bookings.Service.{Env}
use project_atrium.Bookings.Hold.{
  HoldInput, RoomContext, Priced, price, admit_types, admit_equipment, room_total, held_values,
  line_item_of, insert_line_items, create_or_conflict, slot_taken_on_exclusion, book,
  lock_equipment_types,
}
use project_atrium.Payments.Settlement.{shares_of}

-- The lines of a hold at the prices of the admission.
abbrev equipment_total : List Priced → ℕ
equipment_total = sum_by (λ (i : Priced). i.line_total_minor)

-- A line whose total is that of its rate over the half hours.
abbrev IsPriced : ℕ → Priced → Type 0
IsPriced halves i = equipment_share halves (line_item_of 0 i ∷ []) ≡ i.line_total_minor

share-priced :
    (halves id : ℕ) (priced : List Priced)
    → All (IsPriced halves) priced
    → equipment_share halves (map (line_item_of id) priced) ≡ equipment_total priced
unfolding equipment_share
share-priced halves id [] h = refl
share-priced halves id (i ∷ is) h = omega (arith, h.0, share-priced halves id is h.1)

price-IsPriced :
    (halves : ℕ) (requested : List (ℕ × ℕ)) (ts : List EquipmentType)
    → All (IsPriced halves) (map (price halves requested) ts)
unfolding equipment_share
price-IsPriced halves requested [] = tt
price-IsPriced halves requested (t ∷ ts) = (omega arith, price-IsPriced halves requested ts)

the_lines : (xs ys : List Priced) → ok xs ≡ ok ys → xs ≡ ys
the_lines xs ys e = ap lines e
  where
    lines : Result (List Priced) → List Priced
    lines (ok zs) = zs
    lines (err f) = []

admitted-IsPriced :
    (now : ℕ) (input : HoldInput) (ctx : RoomContext) (requested : List (ℕ × ℕ)) (db db' : Database)
    (priced : List Priced)
    → admit_equipment now input ctx requested db ≡ (ok priced, db')
    → All (IsPriced (half_hours input.starts_at input.ends_at)) priced
unfolding admit_equipment admit_types
admitted-IsPriced now input ctx [] db db' priced e =
    subst (All (IsPriced (half_hours input.starts_at input.ends_at)))
      (the_lines [] priced (ground (arith, e))) tt
admitted-IsPriced now input ctx (r ∷ rs) db db' priced e =
    let halves = half_hours input.starts_at input.ends_at in
    let lines = map (price halves (r ∷ rs)) (lock_equipment_types (r ∷ rs) db) in
    subst (All (IsPriced halves)) (the_lines lines priced (ground (arith, e)))
      (price-IsPriced halves (r ∷ rs) (lock_equipment_types (r ∷ rs) db))

own_items :
    (id : ℕ) (priced : List Priced) (others : List LineItem)
    → All (λ (li : LineItem). (li.booking_id == id) ≡ false) others
    → filter_by (λ (li : LineItem). li.booking_id == id) (map (line_item_of id) priced ++ others)
      ≡ map (line_item_of id) priced
own_items id [] [] h = refl
own_items id [] (li ∷ lis) h = ground (arith, h.0, own_items id [] lis h.1)
own_items id (i ∷ is) others h = ground (arith, own_items id is others h)

module _ (now : ℕ) (env : Env) (id : ℕ) (input : HoldInput) (ctx : RoomContext) (p : AuthPrincipal)
    (priced : List Priced) (db : Database) where
  abbrev row : Booking
  row = held_row now id (held_values now env input ctx p priced)

  -- What `book` says and leaves.
  book_cases :
      (book now env id input ctx p priced db ≡ (err (Failure.conflict Conflict.slot_taken), db))
      ⊎ (((book now env id input ctx p priced db).0 ≡ ok row)
          × ((book now env id input ctx p priced db).1.line_items
              ≡ map (line_item_of id) priced ++ db.line_items))
  unfolding book create_or_conflict create_held insert_booking slot_taken_on_exclusion
      insert_line_items
  book_cases = elim (Bool-cases (is_excluded row db.bookings)) [
    | inl taken ↦ inl (ground (arith, taken))
    | inr free ↦ inr (ground (arith, free), ground (arith, free))
  ]

shares_of_items :
    (b : Booking) (db : Database) (items : List LineItem) (equipment : ℕ)
    → filter_by (λ (li : LineItem). li.booking_id == b.id) db.line_items ≡ items
    → equipment_share (half_hours b.starts_at b.ends_at) items ≡ equipment
    → shares_of b db ≡ (b.total_minor - equipment, equipment)
unfolding shares_of split_totals
shares_of_items b db items equipment own share = rw (own, share)

the_booking : (b c : Booking) → ok b ≡ ok c → b ≡ c
the_booking b c e = ap booking e
  where
    booking : Result Booking → Booking
    booking (ok a) = a
    booking (err f) = b

-- A booking's total is split, for its refund, into what its hold charged for the room and for the
-- equipment: where the equipment of a hold is admitted and the slot is free, and no line item
-- carries the new booking's id, the split of the total that the hold wrote gives back the price
-- of the room and the sum of the prices of the lines.
pub shares_of-book :
    (now : ℕ) (env : Env) (id : ℕ) (input : HoldInput) (ctx : RoomContext) (p : AuthPrincipal)
    (requested : List (ℕ × ℕ)) (priced : List Priced) (db : Database) (b : Booking)
    → admit_equipment now input ctx requested db ≡ (ok priced, db)
    → All (λ (li : LineItem). (li.booking_id == id) ≡ false) db.line_items
    → (book now env id input ctx p priced db).0 ≡ ok b
    → shares_of b (book now env id input ctx p priced db).1
      ≡ (room_total input ctx, equipment_total priced)
shares_of-book now env id input ctx p requested priced db b admitted fresh booked =
    elim (book_cases now env id input ctx p priced db) [
      | inl taken ↦ absurd (ground (arith, taken, booked))
      | inr (answer, items) ↦
          subst
            (λ a.
              shares_of a (book now env id input ctx p priced db).1
              ≡ (room_total input ctx, equipment_total priced))
            (the_booking (row now env id input ctx p priced db) b (sym answer ∙ booked))
            (shares_of_items (row now env id input ctx p priced db)
                (book now env id input ctx p priced db).1 (map (line_item_of id) priced)
                (equipment_total priced)
                (ap (filter_by (λ (li : LineItem). li.booking_id == id)) items
                  ∙ own_items id priced db.line_items fresh)
                (share-priced (half_hours input.starts_at input.ends_at) id priced
                  (admitted-IsPriced now input ctx requested db db priced admitted))
              ∙ ap (λ n. (n, equipment_total priced)) (omega arith))
    ]
