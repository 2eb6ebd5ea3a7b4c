-- ===== src/Base/Growth.antt =====
-- A table to which rows are added, and a table that is read through a function.
use mathlib.Core.Path.{◌≡◌, refl, ap}
use mathlib.Core.Bool.{Bool, true, false}
use mathlib.Core.List.{List, [], ◌∷◌, ◌++◌, map}
use mathlib.Core.Option
use mathlib.Core.Option.{Option, none, some}
use native.Mathlib.Omega.{arith}
use project_atrium.Base.Rows.{find_first, update_where, any_of, All}

module _ {ℓ} {A : Type ℓ} where
  pub any_of-append :
      (p : A → Bool) (xs ys : List A) → any_of p xs ≡ true → any_of p (xs ++ ys) ≡ true
  any_of-append p [] ys h = ground arith
  any_of-append p (x ∷ xs) ys h = ground (arith, any_of-append p xs ys)

  pub any_of-update_where :
      (p q : A → Bool) (f : A → A) (xs : List A)
      → ((x : A) → q (f x) ≡ q x)
      → any_of q (update_where p f xs) ≡ any_of q xs
  any_of-update_where p q f [] keep = refl
  any_of-update_where p q f (x ∷ xs) keep =
      ground (arith, keep x, any_of-update_where p q f xs keep)

  -- Where a test finds no row, every row fails it.
  pub All-any_of : (p : A → Bool) (xs : List A) → any_of p xs ≡ false → All (λ x. p x ≡ false) xs
  All-any_of p [] h = tt
  All-any_of p (x ∷ xs) h = (ground (arith, h), All-any_of p xs (ground (arith, h)))

  pub any_of-find_first :
      (p : A → Bool) (xs : List A) (a : A) → find_first p xs ≡ some a → any_of p xs ≡ true
  any_of-find_first p [] a h = ground arith
  any_of-find_first p (x ∷ xs) a h = ground (arith, any_of-find_first p xs a)

  pub find_first-append :
      (p : A → Bool) (xs ys : List A) (a : A)
      → find_first p xs ≡ some a
      → find_first p (xs ++ ys) ≡ some a
  find_first-append p [] ys a h = ground arith
  find_first-append p (x ∷ xs) ys a h = ground (arith, find_first-append p xs ys a)

  pub All-append {κ} :
      (P : A → Type κ) (xs : List A) (y : A) → All P xs → P y → All P (xs ++ (y ∷ []))
  All-append P [] y h hy = (hy, tt)
  All-append P (x ∷ xs) y h hy = (h.0, All-append P xs y h.1 hy)

  pub All-both {κ μ} :
      (P : A → Type κ) (Q : A → Type μ) (xs : List A)
      → All P xs
      → All Q xs
      → All (λ x. P x × Q x) xs
  All-both P Q [] hp hq = tt
  All-both P Q (x ∷ xs) hp hq = ((hp.0, hq.0), All-both P Q xs hp.1 hq.1)

  pub find_first-append_new :
      (p : A → Bool) (xs : List A) (y : A)
      → find_first p xs ≡ none
      → p y ≡ true
      → find_first p (xs ++ (y ∷ [])) ≡ some y
  find_first-append_new p [] y absent hit = ground (arith, hit)
  find_first-append_new p (x ∷ xs) y absent hit =
      ground (arith, absent, hit, find_first-append_new p xs y)

  -- Where every row fails a test, a select on it finds nothing and an update writes nothing.
  pub find_first-absent :
      (p : A → Bool) (xs : List A) → All (λ x. p x ≡ false) xs → find_first p xs ≡ none
  find_first-absent p [] h = refl
  find_first-absent p (x ∷ xs) h = ground (arith, h.0, find_first-absent p xs h.1)

  pub update_where-absent :
      (p : A → Bool) (f : A → A) (xs : List A)
      → All (λ x. p x ≡ false) xs
      → update_where p f xs ≡ xs
  update_where-absent p f [] h = refl
  update_where-absent p f (x ∷ xs) h = ground (arith, h.0, update_where-absent p f xs h.1)

module _ {ℓ κ} {A : Type ℓ} {B : Type κ} (f : A → B) where
  pub find_first-map :
      (p : B → Bool) (xs : List A)
      → find_first p (map f xs) ≡ Option.map f (find_first (λ x. p (f x)) xs)
  find_first-map p [] = refl
  find_first-map p (x ∷ xs) = ground (arith, find_first-map p xs)

  pub update_where-map :
      (p : A → Bool) (g : A → A) (q : B → Bool) (h : B → B) (xs : List A)
      → ((x : A) → q (f x) ≡ p x)
      → ((x : A) → f (g x) ≡ h (f x))
      → map f (update_where p g xs) ≡ update_where q h (map f xs)
  update_where-map p g q h [] tests writes = refl
  update_where-map p g q h (x ∷ xs) tests writes =
      ground (arith, tests x, writes x, update_where-map p g q h xs tests writes)

  pub map-append_one : (xs : List A) (y : A) → map f (xs ++ (y ∷ [])) ≡ map f xs ++ (f y ∷ [])
  map-append_one [] y = refl
  map-append_one (x ∷ xs) y = ap (λ ys. f x ∷ ys) (map-append_one xs y)

  pub any_of-map : (p : B → Bool) (xs : List A) → any_of p (map f xs) ≡ any_of (λ x. p (f x)) xs
  any_of-map p [] = refl
  any_of-map p (x ∷ xs) = ground (arith, any_of-map p xs)
