-- ===== src/Base/Rows.antt =====
-- A table as the list of its rows: select, update and filter by a Boolean condition, as the SQL
-- statements of the services do, and the laws the proofs about them share.
use Prim.Native.Nat.{ℕ, zero, suc, ◌+◌}
use mathlib.Core.Path.{◌≡◌, refl}
use mathlib.Core.Logic.{inl, inr}
use mathlib.Core.Bool.{Bool, true, false, ◌||◌}
use mathlib.Core.List.{List, [], ◌∷◌, ◌++◌}
use mathlib.Core.Option.{Option, none, some}
use native.Mathlib.Omega.{arith}
use project_atrium.Base.Tests.{if◌then◌else◌, Bool-cases}

module _ {ℓ} {A : Type ℓ} where
  abbrev pub length : List A → ℕ
  length [] = 0
  length (x ∷ xs) = suc (length xs)

  abbrev pub take : ℕ → List A → List A
  take zero xs = []
  take (suc n) [] = []
  take (suc n) (x ∷ xs) = x ∷ take n xs

  abbrev pub drop : ℕ → List A → List A
  drop zero xs = xs
  drop (suc n) [] = []
  drop (suc n) (x ∷ xs) = drop n xs

  -- `SELECT … WHERE p LIMIT 1`
  abbrev pub find_first : (A → Bool) → List A → Option A
  find_first p [] = none
  find_first p (x ∷ xs) = if p x then some x else find_first p xs

  -- `UPDATE … SET f WHERE p`
  abbrev pub update_where : (A → Bool) → (A → A) → List A → List A
  update_where p f [] = []
  update_where p f (x ∷ xs) = (if p x then f x else x) ∷ update_where p f xs

  -- `SELECT … WHERE p`
  abbrev pub filter_by : (A → Bool) → List A → List A
  filter_by p [] = []
  filter_by p (x ∷ xs) = let rest = filter_by p xs in if p x then x ∷ rest else rest

  abbrev pub any_of : (A → Bool) → List A → Bool
  any_of p [] = false
  any_of p (x ∷ xs) = p x || any_of p xs

  abbrev pub sum_by : (A → ℕ) → List A → ℕ
  sum_by f [] = 0
  sum_by f (x ∷ xs) = f x + sum_by f xs

  abbrev pub All {κ} : (A → Type κ) → List A → Type κ
  All P [] = Unit
  All P (x ∷ xs) = P x × All P xs

module _ {ℓ} {A : Type ℓ} where
  pub find_first-holds :
      (p : A → Bool) (xs : List A) (a : A) → find_first p xs ≡ some a → p a ≡ true
  find_first-holds p [] a h = ground arith
  find_first-holds p (x ∷ xs) a h = ground (arith, find_first-holds p xs a)

  -- An update that keeps its own condition is seen by the next select on it.
  pub find_first-update_where :
      (p : A → Bool) (f : A → A) (xs : List A) (a : A)
      → ((x : A) → p (f x) ≡ p x)
      → find_first p xs ≡ some a
      → find_first p (update_where p f xs) ≡ some (f a)
  find_first-update_where p f [] a keep h = ground arith
  find_first-update_where p f (x ∷ xs) a keep h =
      ground (arith, keep x, find_first-update_where p f xs a keep)

  -- A select on another condition does not see it.
  pub find_first-update_where_ne :
      (p q : A → Bool) (f : A → A) (xs : List A)
      → ((x : A) → q (f x) ≡ q x)
      → ((x : A) → p x ≡ true → q x ≡ false)
      → find_first q (update_where p f xs) ≡ find_first q xs
  find_first-update_where_ne p q f [] keep apart = refl
  find_first-update_where_ne p q f (x ∷ xs) keep apart =
      ground (arith, keep x, apart x, find_first-update_where_ne p q f xs keep apart)

  -- A select on a condition that the update keeps finds the same row, updated or not.
  pub find_first-update_where_if :
      (p q : A → Bool) (f : A → A) (xs : List A) (a : A)
      → ((x : A) → q (f x) ≡ q x)
      → find_first q xs ≡ some a
      → find_first q (update_where p f xs) ≡ some (if p a then f a else a)
  find_first-update_where_if p q f [] a keep h = ground arith
  find_first-update_where_if p q f (x ∷ xs) a keep h =
      ground (arith, keep x, find_first-update_where_if p q f xs a keep)

  module _ {κ} (P : A → Type κ) where
    pub All-find_first :
        (p : A → Bool) (xs : List A) (a : A) → All P xs → find_first p xs ≡ some a → P a
    All-find_first p [] a h e = ground arith
    All-find_first p (x ∷ xs) a h e = ground (arith, h.0, All-find_first p xs a h.1)

    -- What holds of the rows after an update, by whether the condition takes a row.
    pub All-update_where_cases {μ} :
        (Q : A → Type μ) (p : A → Bool) (f : A → A) (xs : List A)
        → ((x : A) → p x ≡ true → P x → Q (f x))
        → ((x : A) → p x ≡ false → P x → Q x)
        → All P xs
        → All Q (update_where p f xs)
    All-update_where_cases Q p f [] hits misses h = tt
    All-update_where_cases Q p f (x ∷ xs) hits misses h = elim (Bool-cases (p x)) [
      | inl hit ↦ (rw hit (hits x hit h.0), All-update_where_cases Q p f xs hits misses h.1)
      | inr miss ↦ (rw miss (misses x miss h.0), All-update_where_cases Q p f xs hits misses h.1)
    ]

    pub All-of : ((x : A) → P x) → (xs : List A) → All P xs
    All-of f [] = tt
    All-of f (x ∷ xs) = (f x, All-of f xs)

    pub All-map {μ} : (Q : A → Type μ) (xs : List A) → ((x : A) → P x → Q x) → All P xs → All Q xs
    All-map Q [] f h = tt
    All-map Q (x ∷ xs) f h = (f x h.0, All-map Q xs f h.1)

  pub sum_by-append : (f : A → ℕ) (xs ys : List A) → sum_by f (xs ++ ys) ≡ sum_by f xs + sum_by f ys
  sum_by-append f [] ys = omega arith
  sum_by-append f (x ∷ xs) ys = omega (arith, sum_by-append f xs ys)
