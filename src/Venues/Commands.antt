-- ===== src/Venues/Commands.antt =====
-- apps/api/src/venues/venues-admin.service.ts: the methods that write, as commands, and that they
-- touch no other venue (INV-6).
use project_atrium.Base.{
  ℕ, ◌≡◌, ◌≢◌, refl, ap, ◌∙◌, ◌⊎◌, Bool, true, false, Option, none, some, List, [], ◌∷◌, ◌==◌,
  filter_by, find_first, update_where, arith, Bool-cases, inl, inr, ==→eq, Option-cases,
}
use project_atrium.Store.Tables.{AuthPrincipal, EquipmentType}
use project_atrium.Store.Transaction.{Failure, err}
use project_atrium.Store.Inventory.{RoomRow, Inventory, part_of}
use project_atrium.Venues.Settings.{
  Method, scoped, required, SettingsInput, update_settings, update_venue, insert_equipment_type,
  update_type_of, patch_venue, is_venue, EquipmentInput, EquipmentPatch, create_equipment_type,
  update_equipment_type, patch_equipment_type, is_type_of,
}
use project_atrium.Venues.Rooms.{
  RoomInput, RoomPatch, create_room, insert_room, update_room_of, update_room, found_room,
  write_room, patch_room, is_room_of, names_a_column, refuse_room_buffer, breaks_durations,
}

-- A request that writes, with the id that a new row draws.
pub data Command : Type 0 where
  set_settings : SettingsInput → Command
  add_room : ℕ → RoomInput → Command
  set_room : ℕ → RoomPatch → Command
  add_equipment : ℕ → EquipmentInput → Command
  set_equipment : ℕ → EquipmentPatch → Command

-- The tables behind a request.
unfoldable pub perform : AuthPrincipal → Command → Inventory → Inventory
unfolding update_settings create_room update_room create_equipment_type update_equipment_type
perform p (set_settings i) inv = (update_settings p i inv).1
perform p (add_room id i) inv = (create_room p id i inv).1
perform p (set_room id i) inv = (update_room p id i inv).1
perform p (add_equipment id i) inv = (create_equipment_type p id i inv).1
perform p (set_equipment id i) inv = (update_equipment_type p id i inv).1

-- The same, for a venue.
unfoldable pub perform_at : ℕ → Command → Inventory → Inventory
unfolding update_venue insert_room update_room_of insert_equipment_type update_type_of
perform_at v (set_settings i) inv = (update_venue v i inv).1
perform_at v (add_room id i) inv = (insert_room v id i inv).1
perform_at v (set_room id i) inv = (update_room_of v id i inv).1
perform_at v (add_equipment id i) inv = (insert_equipment_type v id i inv).1
perform_at v (set_equipment id i) inv = (update_type_of v id i inv).1

-- An update is not seen by a select whose rows it does not take.
filter_by-update_where {ℓ} :
    {A : Type ℓ} (q p : A → Bool) (f : A → A) (xs : List A)
    → ((x : A) → q (f x) ≡ q x)
    → ((x : A) → p x ≡ true → q x ≡ false)
    → filter_by q (update_where p f xs) ≡ filter_by q xs
filter_by-update_where q p f [] keep apart = refl
filter_by-update_where q p f (x ∷ xs) keep apart =
    let rest = filter_by-update_where q p f xs keep apart in
    elim (Bool-cases (p x)) [
      | inl hit ↦ rw (hit, keep x, apart x hit) rest
      | inr miss ↦ rw (miss, rest) refl
    ]

pub scoped-some :
    {A : Type 0} (p : AuthPrincipal) (w : ℕ) (method : ℕ → Method A) (inv : Inventory)
    → p.venue_id ≡ some w
    → scoped p method inv ≡ method w inv
unfolding scoped
scoped-some p w method inv e = ground (arith, e)

pub scoped-none :
    {A : Type 0} (p : AuthPrincipal) (method : ℕ → Method A) (inv : Inventory)
    → p.venue_id ≡ none
    → scoped p method inv ≡ (err Failure.forbidden, inv)
unfolding scoped
scoped-none p method inv e = ground (arith, e)

pub required-tables : {A : Type 0} (o : Option A) (inv : Inventory) → (required o inv).1 ≡ inv
required-tables none inv = refl
required-tables (some row) inv = refl

module _ (p : AuthPrincipal) where
  -- A principal with a venue writes for it.
  pub perform-some :
      (w : ℕ) (c : Command) (inv : Inventory)
      → p.venue_id ≡ some w
      → perform p c inv ≡ perform_at w c inv
  unfolding perform perform_at update_settings create_room update_room create_equipment_type
      update_equipment_type
  perform-some w (set_settings i) inv e =
      ap (λ r. r.1) (scoped-some p w (λ v. update_venue v i) inv e)
  perform-some w (add_room id i) inv e =
      ap (λ r. r.1) (scoped-some p w (λ v. insert_room v id i) inv e)
  perform-some w (set_room id i) inv e =
      ap (λ r. r.1) (scoped-some p w (λ v. update_room_of v id i) inv e)
  perform-some w (add_equipment id i) inv e =
      ap (λ r. r.1) (scoped-some p w (λ v. insert_equipment_type v id i) inv e)
  perform-some w (set_equipment id i) inv e =
      ap (λ r. r.1) (scoped-some p w (λ v. update_type_of v id i) inv e)

  pub perform-none : (c : Command) (inv : Inventory) → p.venue_id ≡ none → perform p c inv ≡ inv
  unfolding perform update_settings create_room update_room create_equipment_type
      update_equipment_type
  perform-none (set_settings i) inv e = ap (λ r. r.1) (scoped-none p (λ v. update_venue v i) inv e)
  perform-none (add_room id i) inv e = ap (λ r. r.1) (scoped-none p (λ v. insert_room v id i) inv e)
  perform-none (set_room id i) inv e =
      ap (λ r. r.1) (scoped-none p (λ v. update_room_of v id i) inv e)
  perform-none (add_equipment id i) inv e =
      ap (λ r. r.1) (scoped-none p (λ v. insert_equipment_type v id i) inv e)
  perform-none (set_equipment id i) inv e =
      ap (λ r. r.1) (scoped-none p (λ v. update_type_of v id i) inv e)

-- The tables behind the write of a room: as they were, or with the rows of that room patched,
-- where the bounds agree with the row that was read.
pub write_room-tables :
    (w id : ℕ) (i : RoomPatch) (existing : RoomRow) (inv : Inventory)
    → ((write_room w id i existing inv).1 ≡ inv)
      ⊎ ((breaks_durations i existing ≡ false)
          × ((write_room w id i existing inv).1
              ≡ record inv { rooms = update_where (is_room_of w id) (patch_room i) inv.rooms }))
unfolding write_room
write_room-tables w id i existing inv = elim (Bool-cases (breaks_durations i existing)) [
  | inl breaks ↦ inl (rw breaks refl)
  | inr agrees ↦ elim (Bool-cases (names_a_column i)) [
    | inl named ↦ inr (agrees, rw (agrees, named) (required-tables _ _))
    | inr empty ↦ inl (rw (agrees, empty) refl)
  ]
]

module _ (v w : ℕ) (inv : Inventory) (apart : w ≢ v) where
  other : (k : ℕ) → (k == w) ≡ true → (k == v) ≡ false
  other k h = elim (Bool-cases (k == v)) [
    | inr miss ↦ miss
    | inl hit ↦ absurd (apart (ground (arith, h, hit)))
  ]

  foreign_settings :
      (i : SettingsInput)
      → part_of v (record inv { venues = update_where (is_venue w) (patch_venue i) inv.venues })
        ≡ part_of v inv
  unfolding patch_venue
  foreign_settings i =
      ap (λ vs. record (part_of v inv) { venues = vs })
        (filter_by-update_where (is_venue v) (is_venue w) (patch_venue i) inv.venues (λ x. refl)
          (λ x. other x.id))

  foreign_room :
      (id : ℕ) (i : RoomPatch)
      → part_of v (record inv { rooms = update_where (is_room_of w id) (patch_room i) inv.rooms })
        ≡ part_of v inv
  unfolding patch_room
  foreign_room id i =
      ap (λ rs. record (part_of v inv) { rooms = rs })
        (filter_by-update_where (λ (x : RoomRow). x.venue_id == v) (is_room_of w id) (patch_room i)
          inv.rooms (λ x. refl) (λ x h. other x.venue_id (ground (arith, h))))

  foreign_equipment :
      (id : ℕ) (i : EquipmentPatch)
      → part_of v (record inv {
        equipment_types =
            update_where (is_type_of w id) (patch_equipment_type i) inv.equipment_types;
      })
        ≡ part_of v inv
  unfolding patch_equipment_type
  foreign_equipment id i =
      ap (λ ts. record (part_of v inv) { equipment_types = ts })
        (filter_by-update_where (λ (x : EquipmentType). x.venue_id == v) (is_type_of w id)
          (patch_equipment_type i) inv.equipment_types (λ x. refl)
          (λ x h. other x.venue_id (ground (arith, h))))

  -- A row that is added belongs to the venue of the token.
  new_row : (w == v) ≡ false
  new_row = elim (Bool-cases (w == v)) [
    | inr miss ↦ miss
    | inl hit ↦ absurd (apart (==→eq w v hit))
  ]

  foreign_found :
      (id : ℕ) (i : RoomPatch) (o : Option RoomRow)
      → part_of v (found_room w id i o inv).1 ≡ part_of v inv
  unfolding found_room
  foreign_found id i none = refl
  foreign_found id i (some existing) = elim (write_room-tables w id i existing inv) [
    | inl same ↦ ap (part_of v) same
    | inr (agrees, written) ↦ ap (part_of v) written ∙ foreign_room id i
  ]

  -- For the venue `w` of the token.
  foreign_command : (c : Command) → part_of v (perform_at w c inv) ≡ part_of v inv
  unfolding perform_at update_venue insert_room update_room_of insert_equipment_type update_type_of
  foreign_command (set_settings i) = ap (part_of v) (required-tables _ _) ∙ foreign_settings i
  foreign_command (add_room id i) =
      elim (Bool-cases (refuse_room_buffer i.overbooking_buffer_pct)) [
        | inl refused ↦ rw (perform_at, refused) refl
        | inr taken ↦ rw (perform_at, taken, new_row) refl
      ]
  foreign_command (set_room id i) =
      elim (Bool-cases (refuse_room_buffer i.overbooking_buffer_pct)) [
        | inl refused ↦ rw (perform_at, refused) refl
        | inr taken ↦
            rw (perform_at, taken) (foreign_found id i (find_first (is_room_of w id) inv.rooms))
      ]
  foreign_command (add_equipment id i) = rw (perform_at, new_row) refl
  foreign_command (set_equipment id i) =
      ap (part_of v) (required-tables _ _) ∙ foreign_equipment id i

-- Whatever a principal sends, the row, the rooms and the equipment types of a venue that is not
-- the one on the token stay as they are; with no venue on the token, all tables do (INV-6).
pub perform-foreign :
    (p : AuthPrincipal) (c : Command) (inv : Inventory)
    → ((v : ℕ) → p.venue_id ≢ some v → part_of v (perform p c inv) ≡ part_of v inv)
      × (p.venue_id ≡ none → perform p c inv ≡ inv)
perform-foreign p c inv = (
  (λ v apart. elim (Option-cases p.venue_id) [
    | inl homeless ↦ ap (part_of v) (perform-none p c inv homeless)
    | inr (w, e) ↦
        ap (part_of v) (perform-some p w c inv e)
        ∙ foreign_command v w inv (λ same. apart (e ∙ ap some same)) c
  ]),
  perform-none p c inv,
)
