-- ===== src/Bookings/Keeps.antt =====
-- That a transaction keeps the laws of the table `bookings`, rule by rule for the combinators the
-- services are written in.
use project_atrium.Base.{
  ℕ, ◌≡◌, Bool, true, false, List, [], ◌∷◌, All, if◌then◌else◌, arith, Option,
}
use Prim.Native.String.{String}
use project_atrium.Store.Status.{BookingStatus, is_status_refl}
use project_atrium.Store.Tables.{Booking, AuditEvent, Actor, Database}
use project_atrium.Store.Transaction.{
  Failure, Result, ok, err, Tx, pure, throw, ◌>>=◌, throw_if, transaction,
}
use project_atrium.Bookings.StateMachine.{
  TransitionInput, Patch, transition, record_side_effect, append_audit,
}
use project_atrium.Bookings.Trail.{state_after, IsTracked, IsSound}
use project_atrium.Bookings.Kept.{transition-IsSound, side_effect-IsSound}

pub record Keeps {ℓ} {A : Type ℓ} (m : Tx A) : Type 0 where
  pub keep : (db : Database) → IsSound db → IsSound (m db).1

-- A write to other tables.
pub same-IsSound :
    (db db' : Database)
    → db'.bookings ≡ db.bookings
    → db'.audit ≡ db.audit
    → IsSound db
    → IsSound db'
same-IsSound db db' b a s = record {
  tracked = rw (a, b) s.tracked;
  unique = rw b s.unique;
  apart = rw b s.apart;
}

pub Keeps-throw {ℓ} : (A : Type ℓ) (e : Failure) → Keeps (throw {A = A} e)
Keeps-throw A e = record { keep = λ db s. s }

module _ {ℓ} {A : Type ℓ} where
  pub Keeps-pure : (a : A) → Keeps (pure a)
  Keeps-pure a = record { keep = λ db s. s }

  pub Keeps-if : (c : Bool) (m n : Tx A) → Keeps m → Keeps n → Keeps (if c then m else n)
  Keeps-if true m n km kn = km
  Keeps-if false m n km kn = kn

  rolled_back :
      (r : Result A) (db db' : Database)
      → IsSound db
      → IsSound db'
      → IsSound
          (elim r as (λ x. Result A × Database) [ ok a ↦ (ok a, db') | err e ↦ (err e, db) ]).1
  rolled_back (ok a) db db' s s' = s'
  rolled_back (err e) db db' s s' = s

  -- A transaction that starts from a sound database, and would end in one, ends in one.
  pub transaction-IsSound :
      (m : Tx A) (db : Database) → IsSound db → IsSound (m db).1 → IsSound (transaction m db).1
  unfolding transaction
  transaction-IsSound m db s s' = rolled_back (m db).0 db (m db).1 s s'

  pub Keeps-transaction : (m : Tx A) → Keeps m → Keeps (transaction m)
  Keeps-transaction m km = record { keep = λ db s. transaction-IsSound m db s (km.keep db s) }

  module _ {κ} {B : Type κ} where
    bind_result :
        (r : Result A) (db' : Database) (f : A → Tx B)
        → IsSound db'
        → ((a : A) → Keeps (f a))
        → IsSound (elim r as (λ x. Result B × Database) [ ok a ↦ f a db' | err e ↦ (err e, db') ]).1
    bind_result (ok a) db' f s kf = (kf a).keep db' s
    bind_result (err e) db' f s kf = s

    pub Keeps-bind : (m : Tx A) (f : A → Tx B) → Keeps m → ((a : A) → Keeps (f a)) → Keeps (m >>= f)
    Keeps-bind m f km kf = record {
      keep = λ db s. bind_result (m db).0 (m db).1 f (km.keep db s) kf;
    }

pub Keeps-throw_if : (c : Bool) (e : Failure) → Keeps (throw_if c e)
Keeps-throw_if true e = record { keep = λ db s. s }
Keeps-throw_if false e = record { keep = λ db s. s }

note-IsTracked :
    (trail : List AuditEvent) (e : AuditEvent) (bs : List Booking)
    → e.from_state ≡ e.to_state
    → All (IsTracked trail) bs
    → All (IsTracked (e ∷ trail)) bs
unfolding state_after
note-IsTracked trail e [] still t = tt
note-IsTracked trail e (b ∷ bs) still t = (
  (ground (arith, t.0.0, is_status_refl e.from_state, still), t.0.1),
  note-IsTracked trail e bs still t.1,
)

-- An audit row that names one state twice moves no trail.
pub Keeps-note : (e : AuditEvent) → e.from_state ≡ e.to_state → Keeps (append_audit e)
Keeps-note e still = record {
  keep = λ db s. record {
    tracked = note-IsTracked db.audit e db.bookings still s.tracked;
    unique = s.unique;
    apart = s.apart;
  };
}

pub Keeps-transition : (now : ℕ) (input : TransitionInput) → Keeps (transition now input)
Keeps-transition now input = record { keep = λ db s. transition-IsSound now input db s }

pub Keeps-side_effect :
    (now id : ℕ) (actor : Actor) (reason : String) (patch : Patch)
    (expected : Option (List BookingStatus))
    → Keeps (record_side_effect now id actor reason patch expected)
Keeps-side_effect now id actor reason patch expected = record {
  keep = λ db s. side_effect-IsSound now id actor reason patch expected db s;
}
