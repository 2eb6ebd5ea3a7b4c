-- ===== src/Bookings/Admission.antt =====
-- The admission of equipment: no type is promised beyond its ceiling at any instant (INV-2).
use project_atrium.Base.{
  ℕ, ◌+◌, ◌*◌, ◌≤◌, ◌<◌, ◌≡◌, refl, ap, ◌∙◌, Bool, true, false, not, ◌&&◌, ◌||◌, Option, none, some,
  List, [], ◌∷◌, All, any_of, find_first, filter_by, arith, Bool-cases, inl, inr, ◌==◌, leb, ltb,
  if◌then◌else◌, length, sum_by, All-find_first, find_first-holds, ==→eq, sym,
}
use project_atrium.Store.Status.{held, pending_payment, confirmed, is_status, is_active}
use project_atrium.Store.Tables.{Booking, Database, EquipmentType}
use project_atrium.Store.Transaction.{ok}
use project_atrium.Refunds.Policy.{LineItem}
use project_atrium.Bookings.StateMachine.{has_id}
use project_atrium.Bookings.Equipment.{
  Usage, is_due, is_lapsed_hold, occupies, is_overlapping, usage_of, overlapping, peak,
  peak_concurrent_usage, admission_ceiling,
}
use project_atrium.Bookings.SweepLine.{IsProper, in_use_at, peak-le_iff}
use project_atrium.Bookings.Hold.{
  HoldInput, RoomContext, Priced, has_key, insert_type, order_types, quantity_of,
  lock_equipment_types, is_short, admit_types,
}

-- A booking ends after it starts, as the CHECK of the table says.
abbrev pub IsForward : Booking → Type 0
IsForward b = b.starts_at < b.ends_at

module _ (now type_id s e : ℕ) (forward : s < e) where
  usage_of-IsProper :
      (quantity : ℕ) (o : Option Booking) (rest : List Usage)
      → ((b : Booking) → o ≡ some b → IsForward b)
      → All IsProper rest
      → All IsProper (usage_of now s e quantity o rest)
  unfolding usage_of is_overlapping
  usage_of-IsProper quantity none rest ordered h = h
  usage_of-IsProper quantity (some b) rest ordered h =
      elim (Bool-cases (is_overlapping now s e b)) [
        | inl hit ↦ rw hit (ground (arith, hit, ordered b refl), h)
        | inr miss ↦ rw miss h
      ]

  overlapping-IsProper :
      (bookings : List Booking) (items : List LineItem)
      → All IsForward bookings
      → All IsProper (overlapping now type_id s e bookings items)
  unfolding overlapping
  overlapping-IsProper bookings [] f = tt
  overlapping-IsProper bookings (li ∷ lis) f = elim (Bool-cases (li.equipment_type_id == type_id)) [
    | inl hit ↦ rw hit (
        usage_of-IsProper li.quantity (find_first (has_id li.booking_id) bookings) _
          (λ b found. All-find_first IsForward (has_id li.booking_id) bookings b f found)
          (overlapping-IsProper bookings lis f))
    | inr miss ↦ rw miss (overlapping-IsProper bookings lis f)
  ]

-- A booking has its units out at an instant: it is confirmed, waits for its payment, or is held and
-- not lapsed, and the instant is one of its own.
abbrev pub keeps_units : ℕ → Booking → Bool
keeps_units now b =
    is_status b.status confirmed
    || (is_status b.status pending_payment
        || (is_status b.status held && not (is_due b.expires_at now)))

abbrev pub is_out_at : ℕ → ℕ → Option Booking → Bool
is_out_at now i none = false
is_out_at now i (some b) = keeps_units now b && (leb b.starts_at i && ltb i b.ends_at)

-- The units of a type that are out at an instant: what the line items of that type say of the
-- bookings that have their units out.
abbrev pub units_out : ℕ → ℕ → ℕ → List Booking → List LineItem → ℕ
units_out now type_id i bookings items =
    sum_by
      (λ (li : LineItem).
        if (li.equipment_type_id == type_id)
          && is_out_at now i (find_first (λ (b : Booking). b.id == li.booking_id) bookings)
        then li.quantity
        else 0)
      items

occupies-keeps_units : (now : ℕ) (b : Booking) → occupies now b ≡ keeps_units now b
unfolding occupies is_lapsed_hold is_active
occupies-keeps_units now b = ground arith

-- In the window, what the uses of `overlapping` have out is what is out.
module _ (now type_id s e i : ℕ) (begun : s ≤ i) (open_still : i < e) where
  in_use_at-usage_of :
      (quantity : ℕ) (o : Option Booking) (rest : List Usage)
      → in_use_at i (usage_of now s e quantity o rest)
        ≡ (if is_out_at now i o then quantity else 0) + in_use_at i rest
  unfolding usage_of is_overlapping in_use_at
  in_use_at-usage_of quantity none rest = omega arith
  in_use_at-usage_of quantity (some b) rest =
      ground (arith, begun, open_still, occupies-keeps_units now b)

  in_use_at-overlapping :
      (bookings : List Booking) (items : List LineItem)
      → in_use_at i (overlapping now type_id s e bookings items)
        ≡ units_out now type_id i bookings items
  unfolding overlapping
  in_use_at-overlapping bookings [] = unfold in_use_at in refl
  in_use_at-overlapping bookings (li ∷ lis) =
      let rest = in_use_at-overlapping bookings lis in
      let this =
        in_use_at-usage_of li.quantity (find_first (has_id li.booking_id) bookings)
          (overlapping now type_id s e bookings lis) in
      elim (Bool-cases (li.equipment_type_id == type_id)) [
        | inl hit ↦ rw hit (omega (arith, this, rest))
        | inr miss ↦ rw miss (omega (arith, rest))
      ]

-- What is asked of a type is what its entry says.
quantity_of-found :
    (k : ℕ) (m : List (ℕ × ℕ)) (entry : ℕ × ℕ)
    → find_first (λ (e : ℕ × ℕ). e.0 == k) m ≡ some entry
    → quantity_of k m ≡ entry.1
unfolding quantity_of
quantity_of-found k [] entry h = cc
quantity_of-found k (e ∷ es) entry h = ground (arith, h, quantity_of-found k es entry)

found-has_key :
    (k : ℕ) (m : List (ℕ × ℕ)) (entry : ℕ × ℕ)
    → find_first (λ (e : ℕ × ℕ). e.0 == k) m ≡ some entry
    → has_key m k ≡ true
found-has_key k [] entry h = cc
found-has_key k (e ∷ es) entry h = ground (arith, h, found-has_key k es entry)

-- Sorting and selecting leave the types that are asked for.
any_of-insert_type :
    (p : EquipmentType → Bool) (t : EquipmentType) (ts : List EquipmentType)
    → any_of p (insert_type t ts) ≡ any_of p (t ∷ ts)
unfolding insert_type
any_of-insert_type p t [] = refl
any_of-insert_type p t (u ∷ us) = ground (arith, any_of-insert_type p t us)

any_of-order_types :
    (p : EquipmentType → Bool) (ts : List EquipmentType) → any_of p (order_types ts) ≡ any_of p ts
unfolding order_types
any_of-order_types p [] = refl
any_of-order_types p (t ∷ ts) =
    any_of-insert_type p t (order_types ts) ∙ ap (λ found. p t || found) (any_of-order_types p ts)

All-asked :
    (asked p : EquipmentType → Bool) (ts : List EquipmentType)
    → any_of p (filter_by asked ts) ≡ false
    → All (λ t. asked t ≡ true → p t ≡ false) ts
All-asked asked p [] h = tt
All-asked asked p (t ∷ ts) h = elim (Bool-cases (asked t)) [
  | inl hit ↦ ((λ u. ground (arith, h, hit)), All-asked asked p ts (ground (arith, h, hit)))
  | inr miss ↦ ((λ u. cc (u, miss)), All-asked asked p ts (ground (arith, h, miss)))
]

module _ (now : ℕ) (input : HoldInput) (ctx : RoomContext) (requested : List (ℕ × ℕ))
    (db : Database) (forward : input.starts_at < input.ends_at)
    (ordered : All IsForward db.bookings) where
  not_short-within :
      (i : ℕ) (t : EquipmentType)
      → input.starts_at ≤ i
      → i < input.ends_at
      → is_short now input ctx requested db t ≡ false
      → 100 * (units_out now t.id i db.bookings db.line_items + quantity_of t.id requested)
        ≤ t.units_owned * (100 + ctx.overbooking_buffer_pct)
  unfolding is_short peak_concurrent_usage admission_ceiling
  not_short-within i t begun open_still enough =
      let us = overlapping now t.id input.starts_at input.ends_at db.bookings db.line_items in
      let out : in_use_at i us ≤ peak us =
        (peak-le_iff us (peak us) (
            overlapping-IsProper now t.id input.starts_at input.ends_at forward db.bookings
              db.line_items ordered)).0
          (omega arith) i in
      ground (
        arith,
        out,
        enough,
        in_use_at-overlapping now t.id input.starts_at input.ends_at i begun open_still db.bookings
            db.line_items,
      )

-- INV-2: where a hold's equipment is admitted, and its window and the bookings end after they
-- start, then for each type that is asked for, with its row, and at every instant of the window,
-- the units that the line items of the bookings have out at that instant and those asked for are
-- together no more than the venue owns of that type with its buffer. The type is of the venue of
-- the room, all types asked for have their rows, and the admission writes nothing.
pub admit_types_within :
    (now i k : ℕ) (input : HoldInput) (ctx : RoomContext) (requested : List (ℕ × ℕ))
    (db db' : Database) (priced : List Priced) (entry : ℕ × ℕ) (t : EquipmentType)
    → input.starts_at < input.ends_at
    → All IsForward db.bookings
    → admit_types now input ctx requested db ≡ (ok priced, db')
    → find_first (λ (e : ℕ × ℕ). e.0 == k) requested ≡ some entry
    → find_first (λ (u : EquipmentType). u.id == k) db.equipment_types ≡ some t
    → input.starts_at ≤ i
    → i < input.ends_at
    → (100 * (units_out now k i db.bookings db.line_items + entry.1)
        ≤ t.units_owned * (100 + ctx.overbooking_buffer_pct))
      × (t.venue_id ≡ ctx.venue_id)
      × (length (lock_equipment_types requested db) ≡ length requested)
      × (db' ≡ db)
unfolding admit_types lock_equipment_types
admit_types_within now i k input ctx requested db db' priced entry t forward ordered admitted asked
      row begun open_still =
    let wanted : EquipmentType → Bool = λ u. has_key requested u.id in
    let short = is_short now input ctx requested db in
    let foreign : EquipmentType → Bool = λ u. not (u.venue_id == ctx.venue_id) in
    let named : t.id ≡ k =
      ==→eq t.id k (find_first-holds (λ (u : EquipmentType). u.id == k) db.equipment_types t row) in
    let is_wanted : wanted t ≡ true =
      ap (has_key requested) named ∙ found-has_key k requested entry asked in
    let passes : (p : EquipmentType → Bool)
        → any_of p (lock_equipment_types requested db) ≡ false
        → p t ≡ false =
      λ p none_does.
        All-find_first _ (λ (u : EquipmentType). u.id == k) db.equipment_types t
          (All-asked wanted p db.equipment_types
            (sym (any_of-order_types p (filter_by wanted db.equipment_types)) ∙ none_does))
          row is_wanted in
    (
      ground (
        arith,
        named,
        quantity_of-found k requested entry asked,
        not_short-within now input ctx requested db forward ordered i t begun open_still
            (passes short (ground arith)),
      ),
      ground (arith, passes foreign (ground arith)),
      ground arith,
      ground arith,
    )
