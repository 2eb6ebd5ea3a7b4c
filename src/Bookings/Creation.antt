-- ===== src/Bookings/Creation.antt =====
-- A new hold keeps the laws of the table `bookings`.
use project_atrium.Base.{
  ℕ, ◌≡◌, refl, ◌∙◌, ◌≢◌, inl, inr, true, false, some, List, [], ◌∷◌, ◌==◌, any_of, All, arith,
  Bool-cases,
}
use Prim.Native.String.{String}
use project_atrium.Store.Status.{draft, held, is_legal_transition}
use project_atrium.Store.Tables.{Booking, AuditEvent, Actor, Database}
use project_atrium.Store.Transaction.{Failure, err, ok}
use project_atrium.Bookings.StateMachine.{HeldValues, held_row, create_held, is_excluded}
use project_atrium.Bookings.Trail.{state_after, IsTracked, IsSound, IsApart, ids}
use project_atrium.Bookings.Kept.{state_after-next, state_after-other}

-- An id that the database has not drawn yet.
pub record IsFresh (id : ℕ) (db : Database) : Type 0 where
  pub no_booking : any_of (λ j. j == id) (ids db.bookings) ≡ false
  pub no_event : All (λ e. e.booking_id ≢ id) db.audit

state_after-fresh :
    (id : ℕ) (trail : List AuditEvent)
    → All (λ e. e.booking_id ≢ id) trail
    → state_after id trail ≡ some draft
unfolding state_after
state_after-fresh id [] h = refl
state_after-fresh id (e ∷ trail) h = ground (arith, h.0, state_after-fresh id trail h.1)

others-IsTracked :
    (trail : List AuditEvent) (e : AuditEvent) (bs : List Booking)
    → any_of (λ j. j == e.booking_id) (ids bs) ≡ false
    → All (IsTracked trail) bs
    → All (IsTracked (e ∷ trail)) bs
others-IsTracked trail e [] fresh h = tt
others-IsTracked trail e (b ∷ bs) fresh h = (
  (state_after-other trail e b.id (λ same. ground (arith, same)) ∙ h.0.0, h.0.1),
  others-IsTracked trail e bs (ground arith) h.1,
)

-- What the constraint lets in clashes with no active row.
not_excluded : (b : Booking) (bs : List Booking) → is_excluded b bs ≡ false → All (IsApart b) bs
unfolding is_excluded
not_excluded b [] h = tt
not_excluded b (c ∷ cs) h = ((λ active_b active_c. ground arith), not_excluded b cs (ground arith))

module _ (now id : ℕ) (v : HeldValues) (actor : Actor) (reason : String) (db : Database) where
  abbrev first_event : AuditEvent
  first_event = record {
    booking_id = id;
    actor = actor;
    from_state = draft;
    to_state = held;
    reason = reason;
  }

  -- The database behind a new hold: one row and one audit row more.
  abbrev pub after_create : Database
  after_create = record db {
    bookings = held_row now id v ∷ db.bookings;
    audit = first_event ∷ db.audit;
  }

  -- A hold that clashes with an active booking is the exclusion constraint's error.
  pub create_held_taken :
      is_excluded (held_row now id v) db.bookings ≡ true
      → create_held now id v actor reason db ≡ (err Failure.exclusion_violation, db)
  unfolding create_held
  create_held_taken taken = ground arith

  pub create_held_free :
      is_excluded (held_row now id v) db.bookings ≡ false
      → create_held now id v actor reason db ≡ (ok (held_row now id v), after_create)
  unfolding create_held
  create_held_free free = ground arith

  after_create-IsSound :
      is_excluded (held_row now id v) db.bookings ≡ false
      → IsFresh id db
      → IsSound db
      → IsSound after_create
  after_create-IsSound free fresh s = record {
    tracked = (
      (
        state_after-next db.audit first_event id refl (state_after-fresh id db.audit fresh.no_event)
            (inr (unfold is_legal_transition in refl)),
        λ e. cc,
      ),
      others-IsTracked db.audit first_event db.bookings fresh.no_booking s.tracked,
    );
    unique = (fresh.no_booking, s.unique);
    apart = (not_excluded (held_row now id v) db.bookings free, s.apart);
  }

  -- A new hold, whether it is let in or refused, keeps the laws of the table.
  pub create_held-IsSound :
      IsFresh id db → IsSound db → IsSound (create_held now id v actor reason db).1
  create_held-IsSound fresh s = elim (Bool-cases (is_excluded (held_row now id v) db.bookings)) [
    | inl taken ↦ rw (create_held_taken taken) s
    | inr free ↦ rw (create_held_free free) (after_create-IsSound free fresh s)
  ]
