-- ===== src/Bookings/Kept.antt =====
-- Every method of the state machine keeps the laws of the table `bookings`.
use project_atrium.Base.{
  ℕ, ◌≡◌, refl, sym, ◌∙◌, ◌≢◌, ◌⊎◌, inl, inr, true, false, Option, some, List, ◌∷◌, find_first,
  update_where, arith, Bool-cases, Option-cases, find_first-holds, All-find_first,
  All-update_where_cases, All-map, ==→eq, subst,
}
use Prim.Native.String.{String}
use project_atrium.Store.Status.{
  BookingStatus, draft, is_legal_transition, is_active, is_status_refl, is_status_sound,
}
use project_atrium.Store.Tables.{Booking, AuditEvent, Actor, Database}
use project_atrium.Bookings.StateMachine.{
  Patch, TransitionInput, apply_patch, has_id, is_unexpected, transition, record_side_effect,
}
use project_atrium.Bookings.Outcomes.{
  moved, after_transition, transition_missing, transition_found, after_side_effect,
  side_effect_missing, side_effect_found,
}
use project_atrium.Bookings.Trail.{
  state_after, IsTracked, IsSound, IsHarmless, NoOverlap-update_where, ids-update_where,
  active_of_legal, IsDistinct,
}

-- Nothing moves to DRAFT.
legal-ne-draft : (s t : BookingStatus) → is_legal_transition s t ≡ true → t ≢ draft
unfolding is_legal_transition
legal-ne-draft s t legal = ground arith

-- One audit row for a booking that is tracked ends its trail at the row's new state.
pub state_after-next :
    (trail : List AuditEvent) (e : AuditEvent) (id : ℕ)
    → e.booking_id ≡ id
    → state_after id trail ≡ some e.from_state
    → (e.from_state ≡ e.to_state) ⊎ (is_legal_transition e.from_state e.to_state ≡ true)
    → state_after id (e ∷ trail) ≡ some e.to_state
unfolding state_after
state_after-next trail e id same before moves =
    ground (arith, is_status_refl e.from_state, is_status_sound e.from_state e.to_state)

-- It leaves the trails of the other bookings alone.
pub state_after-other :
    (trail : List AuditEvent) (e : AuditEvent) (id : ℕ)
    → e.booking_id ≢ id
    → state_after id (e ∷ trail) ≡ state_after id trail
unfolding state_after
state_after-other trail e id other = ground arith

-- Two rows with one id have one state.
one_status :
    (trail : List AuditEvent) (b x : Booking)
    → IsTracked trail b
    → IsTracked trail x
    → x.id ≡ b.id
    → x.status ≡ b.status
one_status trail b x tb tx same = ground (arith, tb.0, tx.0)

-- What an update of one row may change: neither the id, nor the room, nor the period.
record IsKept (f : Booking → Booking) (x : Booking) : Type 0 where
  same_id : (f x).id ≡ x.id
  same_room : (f x).room_id ≡ x.room_id
  same_start : (f x).starts_at ≡ x.starts_at
  same_end : (f x).ends_at ≡ x.ends_at

-- One row rewritten by `f` and one audit row `e` for it.
module _ (id : ℕ) (f : Booking → Booking) (e : AuditEvent) (b : Booking) (db : Database)
    (found : find_first (has_id id) db.bookings ≡ some b)
    (audited : (e.booking_id ≡ b.id) × (e.from_state ≡ b.status))
    (moves : (e.from_state ≡ e.to_state) ⊎ (is_legal_transition e.from_state e.to_state ≡ true))
    (started : e.to_state ≢ draft) (calm : is_active e.to_state ≡ true → is_active b.status ≡ true)
    (kept : (x : Booking) → IsKept f x)
    (written_status : (x : Booking) → x.status ≡ b.status → (f x).status ≡ e.to_state)
    (s : IsSound db) where
  rewritten : Database
  rewritten = record db { bookings = update_where (has_id id) f db.bookings; audit = e ∷ db.audit }

  b-IsTracked : IsTracked db.audit b
  b-IsTracked = All-find_first (IsTracked db.audit) (has_id id) db.bookings b s.tracked found

  hit_id : (x : Booking) → has_id id x ≡ true → x.id ≡ b.id
  hit_id x hit =
      ==→eq x.id id hit ∙ sym (==→eq b.id id (find_first-holds (has_id id) db.bookings b found))

  hit_status : (x : Booking) → has_id id x ≡ true → IsTracked db.audit x → x.status ≡ b.status
  hit_status x hit t = one_status db.audit b x b-IsTracked t (hit_id x hit)

  hit-IsTracked :
      (x : Booking) → has_id id x ≡ true → IsTracked db.audit x → IsTracked (e ∷ db.audit) (f x)
  hit-IsTracked x hit t = (
    rw ((kept x).same_id, written_status x (hit_status x hit t))
        (state_after-next db.audit e x.id (audited.0 ∙ sym (hit_id x hit))
          (rw (audited.1, hit_id x hit) b-IsTracked.0) moves),
    rw (written_status x (hit_status x hit t)) started,
  )

  miss-IsTracked :
      (x : Booking) → has_id id x ≡ false → IsTracked db.audit x → IsTracked (e ∷ db.audit) x
  miss-IsTracked x miss t = (
    state_after-other db.audit e x.id (λ same.
          ground (arith, audited.0, same, find_first-holds (has_id id) db.bookings b found))
        ∙ t.0,
    t.1,
  )

  hit-IsHarmless : (x : Booking) → IsTracked db.audit x → has_id id x ≡ true → IsHarmless f x
  hit-IsHarmless x t hit = record {
    room = (kept x).same_room;
    starts = (kept x).same_start;
    ends = (kept x).same_end;
    calm = rw (written_status x (hit_status x hit t)) (rw (hit_status x hit t) calm);
  }

  rewritten-IsSound : IsSound rewritten
  unfolding rewritten
  rewritten-IsSound = record {
    tracked =
        All-update_where_cases (IsTracked db.audit) (IsTracked (e ∷ db.audit)) (has_id id) f
          db.bookings hit-IsTracked miss-IsTracked s.tracked;
    unique =
        subst IsDistinct (sym (ids-update_where (has_id id) f db.bookings (λ x. (kept x).same_id)))
          s.unique;
    apart =
        NoOverlap-update_where (has_id id) f db.bookings
          (All-map (IsTracked db.audit) (λ x. has_id id x ≡ true → IsHarmless f x) db.bookings
            hit-IsHarmless s.tracked)
          s.apart;
  }

after_transition-IsSound :
    (now : ℕ) (input : TransitionInput) (b : Booking) (db : Database)
    → find_first (has_id input.booking_id) db.bookings ≡ some b
    → is_legal_transition b.status input.to ≡ true
    → IsSound db
    → IsSound (after_transition now input b db)
unfolding rewritten
after_transition-IsSound now input b db found legal s =
    let t : IsTracked db.audit b =
      All-find_first (IsTracked db.audit) (has_id input.booking_id) db.bookings b s.tracked found in
    rewritten-IsSound input.booking_id (moved now input)
      (record {
        booking_id = b.id;
        actor = input.actor;
        from_state = b.status;
        to_state = input.to;
        reason = input.reason;
      })
      b db found (refl, refl) (inr legal) (legal-ne-draft b.status input.to legal)
      (active_of_legal b.status input.to legal t.1)
      (λ x. record { same_id = refl; same_room = refl; same_start = refl; same_end = refl })
      (λ x same. refl) s

-- A transition, whatever its outcome, keeps the laws of the table: each trail is a chain of
-- moves of the table that ends at the row's state, ids are unique, and no two active bookings of
-- one room clash.
pub transition-IsSound :
    (now : ℕ) (input : TransitionInput) (db : Database)
    → IsSound db
    → IsSound (transition now input db).1
transition-IsSound now input db s =
    elim (Option-cases (find_first (has_id input.booking_id) db.bookings)) [
      | inl e ↦ rw (transition_missing now input db e) s
      | inr (b, e) ↦
          rw (transition_found now input db b e)
            (elim (Bool-cases (is_unexpected input.expected_from b.status)) [
              | inl refused ↦ rw refused s
              | inr expected ↦
                  rw expected (elim (Bool-cases (is_legal_transition b.status input.to)) [
                    | inl legal ↦ rw legal (after_transition-IsSound now input b db e legal s)
                    | inr illegal ↦ rw illegal s
                  ])
            ])
    ]

after_side_effect-IsSound :
    (now id : ℕ) (actor : Actor) (reason : String) (patch : Patch) (b : Booking) (db : Database)
    → find_first (has_id id) db.bookings ≡ some b
    → IsSound db
    → IsSound (after_side_effect now id actor reason patch b db)
unfolding rewritten
after_side_effect-IsSound now id actor reason patch b db found s =
    let t : IsTracked db.audit b =
      All-find_first (IsTracked db.audit) (has_id id) db.bookings b s.tracked found in
    rewritten-IsSound id (apply_patch patch now)
      (record {
        booking_id = b.id;
        actor = actor;
        from_state = b.status;
        to_state = b.status;
        reason = reason;
      })
      b db found (refl, refl) (inl refl) t.1 (λ a. a)
      (λ x. record { same_id = refl; same_room = refl; same_start = refl; same_end = refl })
      (λ x same. same) s

-- So does a side effect that is recorded, whatever its outcome.
pub side_effect-IsSound :
    (now id : ℕ) (actor : Actor) (reason : String) (patch : Patch)
    (expected : Option (List BookingStatus)) (db : Database)
    → IsSound db
    → IsSound (record_side_effect now id actor reason patch expected db).1
side_effect-IsSound now id actor reason patch expected db s =
    elim (Option-cases (find_first (has_id id) db.bookings)) [
      | inl e ↦ rw (side_effect_missing now id actor reason patch expected db e) s
      | inr (b, e) ↦
          rw (side_effect_found now id actor reason patch expected db b e)
            (elim (Bool-cases (is_unexpected expected b.status)) [
              | inl refused ↦ rw refused s
              | inr taken ↦ rw taken (after_side_effect-IsSound now id actor reason patch b db e s)
            ])
    ]
