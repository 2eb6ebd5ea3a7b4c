-- ===== src/Paygate/Keeps.antt =====
-- That the methods of `PostgresLedger` keep a law of its tables, from what each statement keeps.
use project_atrium.Base.{Bool, true, false, Option, none, some, if◌then◌else◌}
use project_atrium.Paygate.Types.{Answer, returned, threw}
use project_atrium.Paygate.Tables.{PostgresLedger, Query, pure, ◌>>=◌, transaction, found}

pub record Keeps {ℓ} (I : PostgresLedger → Type 0) {A : Type ℓ} (m : Query A) : Type 0 where
  pub keep : (p : PostgresLedger) → I p → I (m p).1

-- The same where the method returns; what a method that throws leaves is rolled back.
abbrev pub Leaves {ℓ} :
    (PostgresLedger → Type 0) → {A : Type ℓ} → Answer A × PostgresLedger → Type 0
Leaves I (returned a, p) = I p
Leaves I (threw, p) = Unit

pub record Commits {ℓ} (I : PostgresLedger → Type 0) {A : Type ℓ} (m : Query A) : Type 0 where
  pub leaves : (p : PostgresLedger) → I p → Leaves I (m p)

module _ (I : PostgresLedger → Type 0) where
  module _ {ℓ} {A : Type ℓ} where
    pub Keeps-pure : (a : A) → Keeps I (pure a)
    Keeps-pure a = record { keep = λ p h. h }

    pub Keeps-found : (o : Option A) → Keeps I (found o)
    Keeps-found none = record { keep = λ p h. h }
    Keeps-found (some a) = record { keep = λ p h. h }

    pub Keeps-if : (c : Bool) (m n : Query A) → Keeps I m → Keeps I n → Keeps I (if c then m else n)
    Keeps-if true m n km kn = km
    Keeps-if false m n km kn = kn

    pub branches :
        (c : Bool) (a b : Answer A × PostgresLedger) → I a.1 → I b.1 → I (if c then a else b).1
    branches true a b ha hb = ha
    branches false a b ha hb = hb

    pub Commits-if :
        (c : Bool) (m n : Query A) → Commits I m → Commits I n → Commits I (if c then m else n)
    Commits-if true m n km kn = km
    Commits-if false m n km kn = kn

    left : (r : Answer A) (p : PostgresLedger) → I p → Leaves I (r, p)
    left (returned a) p h = h
    left threw p h = tt

    pub Commits-of : (m : Query A) → Keeps I m → Commits I m
    Commits-of m km = record { leaves = λ p h. left (m p).0 (m p).1 (km.keep p h) }

    rolled_back :
        (r : Answer A) (p p' : PostgresLedger)
        → I p
        → Leaves I (r, p')
        → I
            (elim r as (λ x. Answer A × PostgresLedger) [
              | returned a ↦ (returned a, p')
              | threw ↦ (threw, p)
            ]).1
    rolled_back (returned a) p p' h h' = h'
    rolled_back threw p p' h h' = h

    pub Keeps-transaction : (m : Query A) → Commits I m → Keeps I (transaction m)
    unfolding transaction
    Keeps-transaction m km = record {
      keep = λ p h. rolled_back (m p).0 p (m p).1 h (km.leaves p h);
    }

    module _ {κ} {B : Type κ} where
      bind_answer :
          (r : Answer A) (p : PostgresLedger) (f : A → Query B)
          → I p
          → ((a : A) → Keeps I (f a))
          → I
              (elim r as (λ x. Answer B × PostgresLedger) [
                | returned a ↦ f a p
                | threw ↦ (threw, p)
              ]).1
      bind_answer (returned a) p f h kf = (kf a).keep p h
      bind_answer threw p f h kf = h

      pub Keeps-bind :
          (m : Query A) (f : A → Query B)
          → Keeps I m
          → ((a : A) → Keeps I (f a))
          → Keeps I (m >>= f)
      Keeps-bind m f km kf = record { keep = λ p h. bind_answer (m p).0 (m p).1 f (km.keep p h) kf }

      commit_answer :
          (r : Answer A) (p : PostgresLedger) (f : A → Query B)
          → Leaves I (r, p)
          → ((a : A) → Commits I (f a))
          → Leaves I (elim r as (λ x. Answer B × PostgresLedger) [
            | returned a ↦ f a p
            | threw ↦ (threw, p)
          ])
      commit_answer (returned a) p f h kf = (kf a).leaves p h
      commit_answer threw p f h kf = tt

      pub Commits-bind :
          (m : Query A) (f : A → Query B)
          → Commits I m
          → ((a : A) → Commits I (f a))
          → Commits I (m >>= f)
      Commits-bind m f km kf = record {
        leaves = λ p h. commit_answer (m p).0 (m p).1 f (km.leaves p h) kf;
      }
