-- ===== src/Base/Slices.antt =====
-- Pages of a list, and a list that is filtered twice.
use Prim.Native.Nat.{ℕ, zero, suc, ◌+◌, ◌-◌, ◌*◌, ◌≤◌}
use mathlib.Core.Path.{◌≡◌, refl, sym, ap, ◌∙◌}
use mathlib.Core.Logic.{inl, inr}
use mathlib.Core.Bool.{Bool, true, ◌&&◌}
use mathlib.Core.List.{List, [], ◌∷◌, ◌++◌}
use native.Mathlib.Omega.{arith}
use project_atrium.Base.Tests.{Bool-cases}
use project_atrium.Base.Rows.{length, take, drop, filter_by, All}

pub zero-plus : (n : ℕ) → zero + n ≡ n
zero-plus n = omega arith

pub pred : (n : ℕ) → n + 1 - 1 ≡ n
pred n = omega arith

pub zero-times : (n : ℕ) → zero * n ≡ zero
zero-times n = omega arith

pub suc-times : (m n : ℕ) → suc m * n ≡ m * n + n
suc-times m n = grind arith

pub suc-plus : (m n : ℕ) → suc m + n ≡ suc (m + n)
suc-plus m n = omega arith

module _ {ℓ} {A : Type ℓ} where
  pub take-nil : (n : ℕ) → ◌≡◌ {A = List A} (take n []) []
  take-nil zero = refl
  take-nil (suc n) = refl

  pub drop-nil : (n : ℕ) → ◌≡◌ {A = List A} (drop n []) []
  drop-nil zero = refl
  drop-nil (suc n) = refl

  pub slice-nil : (page size : ℕ) → ◌≡◌ {A = List A} (take size (drop ((page - 1) * size) [])) []
  slice-nil page size = ap (take size) (drop-nil ((page - 1) * size)) ∙ take-nil size

  pub take-add : (m n : ℕ) (xs : List A) → take (m + n) xs ≡ take m xs ++ take n (drop m xs)
  take-add zero n xs = ap (λ k. take k xs) (zero-plus n)
  take-add (suc m) n [] = take-nil (suc m + n) ∙ sym (take-nil n)
  take-add (suc m) n (x ∷ xs) =
      ap (λ k. take k (x ∷ xs)) (suc-plus m n) ∙ ap (λ ys. x ∷ ys) (take-add m n xs)

  pub take-all : (n : ℕ) (xs : List A) → length xs ≤ n → take n xs ≡ xs
  take-all zero [] h = refl
  take-all zero (x ∷ xs) h = absurd (omega arith)
  take-all (suc n) [] h = refl
  take-all (suc n) (x ∷ xs) h = ap (λ ys. x ∷ ys) (take-all n xs (omega arith))

  pub filter_by-filter_by :
      (p q : A → Bool) (xs : List A) → filter_by p (filter_by q xs) ≡ filter_by (λ x. q x && p x) xs
  filter_by-filter_by p q [] = refl
  filter_by-filter_by p q (x ∷ xs) = elim (Bool-cases (q x)) [
    | inl hit ↦ rw (hit, filter_by-filter_by p q xs) refl
    | inr miss ↦ rw (miss, filter_by-filter_by p q xs) refl
  ]

  pub filter_by-same :
      (p q : A → Bool) (xs : List A) → All (λ x. p x ≡ q x) xs → filter_by p xs ≡ filter_by q xs
  filter_by-same p q [] h = refl
  filter_by-same p q (x ∷ xs) h = rw (h.0, filter_by-same p q xs h.1) refl

pub length-all {ℓ} : {A : Type ℓ} (xs : List A) → length xs ≡ length (filter_by (λ x. true) xs)
length-all [] = refl
length-all (x ∷ xs) = ap suc (length-all xs)

module _ {ℓ κ} {A : Type ℓ} (P : A → Type κ) where
  pub All-take : (n : ℕ) (xs : List A) → All P xs → All P (take n xs)
  All-take zero xs h = tt
  All-take (suc n) [] h = tt
  All-take (suc n) (x ∷ xs) h = (h.0, All-take n xs h.1)

  pub All-drop : (n : ℕ) (xs : List A) → All P xs → All P (drop n xs)
  All-drop zero xs h = h
  All-drop (suc n) [] h = tt
  All-drop (suc n) (x ∷ xs) h = All-drop n xs h.1

  -- What is left of a filter meets its test, and what held before.
  pub All-filter_by :
      (p : A → Bool) (xs : List A) → All P xs → All (λ x. P x × (p x ≡ true)) (filter_by p xs)
  All-filter_by p [] h = tt
  All-filter_by p (x ∷ xs) h = elim (Bool-cases (p x)) [
    | inl hit ↦ rw hit ((h.0, hit), All-filter_by p xs h.1)
    | inr miss ↦ rw miss (All-filter_by p xs h.1)
  ]
