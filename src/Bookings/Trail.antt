-- ===== src/Bookings/Trail.antt =====
-- The audit trail as a chain of legal moves that ends at the row's state, and the other laws of
-- the table `bookings` that every method of the state machine keeps.
use project_atrium.Base.{
  ℕ, ◌≡◌, refl, ◌≢◌, inl, inr, Bool, true, false, ◌&&◌, Option, none, some, List, [], ◌∷◌, map,
  ◌==◌, if◌then◌else◌, any_of, All, update_where, arith, Bool-cases,
}
use project_atrium.Store.Status.{BookingStatus, draft, is_status, is_legal_transition, is_active}
use project_atrium.Store.Tables.{Booking, AuditEvent, Database}
use project_atrium.Bookings.StateMachine.{clashes}

-- One audit row continues a trail: a note, which names one state twice, moves nothing; any other
-- row starts where the trail ends and moves by the table of legal transitions.
abbrev pub follow : Option BookingStatus → AuditEvent → Option BookingStatus
follow none e = none
follow (some s) e =
    if is_status e.from_state e.to_state
    then some s
    else if is_status s e.from_state && is_legal_transition e.from_state e.to_state
    then some e.to_state
    else none

-- The state at which the trail of one booking ends, from DRAFT on; `none` where a row does not
-- continue it.
unfoldable pub state_after : ℕ → List AuditEvent → Option BookingStatus
state_after id [] = some draft
state_after id (e ∷ older) =
    let before = state_after id older in if e.booking_id == id then follow before e else before

-- The trail of a row ends at its state, which is not DRAFT.
abbrev pub IsTracked : List AuditEvent → Booking → Type 0
IsTracked trail b = (state_after b.id trail ≡ some b.status) × (b.status ≢ draft)

abbrev pub IsDistinct : List ℕ → Type 0
IsDistinct [] = Unit
IsDistinct (i ∷ is) = (any_of (λ j. j == i) is ≡ false) × IsDistinct is

-- INV-1 for two rows: two active bookings do not clash.
abbrev pub IsApart : Booking → Booking → Type 0
IsApart b c = is_active b.status ≡ true → is_active c.status ≡ true → clashes b c ≡ false

abbrev pub NoOverlap : List Booking → Type 0
NoOverlap [] = Unit
NoOverlap (b ∷ bs) = All (IsApart b) bs × NoOverlap bs

abbrev pub ids : List Booking → List ℕ
ids = map (λ (b : Booking). b.id)

-- What holds of the table of bookings between two transactions.
pub record IsSound (db : Database) : Type 0 where
  pub tracked : All (IsTracked db.audit) db.bookings
  pub unique : IsDistinct (ids db.bookings)
  pub apart : NoOverlap db.bookings

-- No move of the table makes a booking active that was not, but the first one.
pub active_of_legal :
    (s t : BookingStatus)
    → is_legal_transition s t ≡ true
    → s ≢ draft
    → is_active t ≡ true
    → is_active s ≡ true
unfolding is_legal_transition is_active
active_of_legal s t legal started active = ground arith

module _ (p : Booking → Bool) (f : Booking → Booking) where
  -- An update that keeps the ids keeps them distinct.
  pub ids-update_where :
      (bs : List Booking) → ((b : Booking) → (f b).id ≡ b.id) → ids (update_where p f bs) ≡ ids bs
  ids-update_where [] keep = refl
  ids-update_where (b ∷ bs) keep = ground (arith, keep b, ids-update_where bs keep)

-- `f` leaves room and period alone, and does not make a row active.
pub record IsHarmless (f : Booking → Booking) (b : Booking) : Type 0 where
  pub room : (f b).room_id ≡ b.room_id
  pub starts : (f b).starts_at ≡ b.starts_at
  pub ends : (f b).ends_at ≡ b.ends_at
  pub calm : is_active (f b).status ≡ true → is_active b.status ≡ true

IsApart-IsHarmless :
    (f : Booking → Booking) (b c : Booking)
    → IsHarmless f b
    → IsHarmless f c
    → IsApart b c
    → IsApart (f b) (f c)
unfolding clashes
IsApart-IsHarmless f b c hb hc apart active_b active_c =
    rw (hb.room, hb.starts, hb.ends, hc.room, hc.starts, hc.ends)
      (apart (hb.calm active_b) (hc.calm active_c))

module _ (p : Booking → Bool) (f : Booking → Booking) where
  abbrev changed : Booking → Booking
  changed b = if p b then f b else b

  changed-IsHarmless : (b : Booking) → (p b ≡ true → IsHarmless f b) → IsHarmless changed b
  changed-IsHarmless b h = elim (Bool-cases (p b)) [
    | inl hit ↦ record {
      room = rw hit (h hit).room;
      starts = rw hit (h hit).starts;
      ends = rw hit (h hit).ends;
      calm = rw hit (h hit).calm;
    }
    | inr miss ↦ record {
      room = rw miss;
      starts = rw miss;
      ends = rw miss;
      calm = rw miss (λ a. a);
    }
  ]

  pub NoOverlap-update_where :
      (bs : List Booking)
      → All (λ b. p b ≡ true → IsHarmless f b) bs
      → NoOverlap bs
      → NoOverlap (update_where p f bs)
  NoOverlap-update_where [] h n = tt
  NoOverlap-update_where (b ∷ bs) h n = (others bs h.1 n.0, NoOverlap-update_where bs h.1 n.1)
    where
      others :
          (cs : List Booking)
          → All (λ c. p c ≡ true → IsHarmless f c) cs
          → All (IsApart b) cs
          → All (IsApart (changed b)) (update_where p f cs)
      others [] k m = tt
      others (c ∷ cs) k m = (
        IsApart-IsHarmless changed b c (changed-IsHarmless b h.0) (changed-IsHarmless c k.0) m.0,
        others cs k.1 m.1,
      )
