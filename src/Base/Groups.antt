-- ===== src/Base/Groups.antt =====
-- SQL's GROUP BY on a table as a list: the first row of each key stands for its group.
use Prim.Native.Nat.{ℕ, ◌+◌, ◌*◌}
use mathlib.Core.Path.{◌≡◌, refl, sym, ap, ◌∙◌, subst}
use mathlib.Core.Logic.{inl, inr}
use mathlib.Core.Bool.{true, false, not}
use mathlib.Core.List.{List, [], ◌∷◌}
use native.Mathlib.Omega.{arith}
use project_atrium.Base.Tests.{◌==◌, if◌then◌else◌, Bool-cases, ==_refl, ==→eq}
use project_atrium.Base.Rows.{length, filter_by, any_of, sum_by, All}

module _ {ℓ} {A : Type ℓ} where
  -- `COUNT(*)` as a sum.
  pub length-eq-sum_by : (xs : List A) → length xs ≡ sum_by (λ x. 1) xs
  length-eq-sum_by [] = refl
  length-eq-sum_by (x ∷ xs) = omega (arith, length-eq-sum_by xs)

  pub sum_by-add :
      (f g : A → ℕ) (xs : List A) → sum_by (λ x. f x + g x) xs ≡ sum_by f xs + sum_by g xs
  sum_by-add f g [] = refl
  sum_by-add f g (x ∷ xs) = omega (arith, sum_by-add f g xs)

module _ {ℓ} {A : Type ℓ} (key : A → ℕ) where
  -- The rows of one key.
  abbrev pub with_key : ℕ → List A → List A
  with_key k xs = filter_by (λ x. key x == k) xs

  unfoldable pub first_of_each : List A → List A
  first_of_each [] = []
  first_of_each (x ∷ xs) = x ∷ filter_by (λ y. not (key y == key x)) (first_of_each xs)

  abbrev hits : ℕ → List A → ℕ
  hits k xs = sum_by (λ x. if key x == k then 1 else 0) xs

  hits-others :
      (k j : ℕ) (xs : List A)
      → hits k (filter_by (λ y. not (key y == j)) xs) ≡ (if k == j then 0 else hits k xs)
  hits-others k j [] = ground arith
  hits-others k j (x ∷ xs) = elim (Bool-cases (key x == j)) [
    | inl hit ↦ rw hit (ground (arith, hits-others k j xs))
    | inr miss ↦ rw miss (ground (arith, hits-others k j xs))
  ]

  hits-first_of_each :
      (k : ℕ) (xs : List A)
      → hits k (first_of_each xs) ≡ (if any_of (λ x. key x == k) xs then 1 else 0)
  unfolding first_of_each
  hits-first_of_each k [] = refl
  hits-first_of_each k (x ∷ xs) =
      ground (arith, hits-others k (key x) (first_of_each xs), hits-first_of_each k xs)

  sum_by-hits :
      (k v : ℕ) (rs : List A) → sum_by (λ r. if k == key r then v else 0) rs ≡ v * hits k rs
  sum_by-hits k v [] = omega arith
  sum_by-hits k v (r ∷ rs) = elim (Bool-cases (key r == k)) [
    | inl hit ↦ grind (arith, sum_by-hits k v rs)
    | inr miss ↦ grind (arith, sum_by-hits k v rs)
  ]

  -- A row joins the sum of each group with its key.
  with_key-sum_by :
      (f : A → ℕ) (x : A) (k : ℕ) (xs : List A)
      → sum_by f (with_key k (x ∷ xs)) ≡ (if key x == k then f x else 0) + sum_by f (with_key k xs)
  with_key-sum_by f x k xs = elim (Bool-cases (key x == k)) [
    | inl hit ↦ rw hit refl
    | inr miss ↦ rw miss (omega arith)
  ]

  groups-cons :
      (f : A → ℕ) (x : A) (xs rs : List A)
      → sum_by (λ r. sum_by f (with_key (key r) (x ∷ xs))) rs
        ≡ sum_by (λ r. if key x == key r then f x else 0) rs
          + sum_by (λ r. sum_by f (with_key (key r) xs)) rs
  groups-cons f x xs [] = omega arith
  groups-cons f x xs (r ∷ rs) = omega (arith, with_key-sum_by f x (key r) xs, groups-cons f x xs rs)

  sum_by-no_groups : (f : A → ℕ) (rs : List A) → sum_by (λ r. sum_by f (with_key (key r) [])) rs ≡ 0
  sum_by-no_groups f [] = refl
  sum_by-no_groups f (r ∷ rs) = omega (arith, sum_by-no_groups f rs)

  -- Where each row's key is that of one representative, the sums of the groups add up.
  sum_by-groups :
      (f : A → ℕ) (rs xs : List A)
      → All (λ x. hits (key x) rs ≡ 1) xs
      → sum_by (λ r. sum_by f (with_key (key r) xs)) rs ≡ sum_by f xs
  sum_by-groups f rs [] h = sum_by-no_groups f rs
  sum_by-groups f rs (x ∷ xs) h =
      groups-cons f x xs rs
      ∙ omega (
        arith,
        sum_by-hits (key x) (f x) rs,
        ap (λ (n : ℕ). f x * n) h.0,
        sum_by-groups f rs xs h.1,
      )

  any_of-key :
      (xs ys : List A)
      → ((k : ℕ) → any_of (λ x. key x == k) ys ≡ true → any_of (λ x. key x == k) xs ≡ true)
      → All (λ x. hits (key x) (first_of_each xs) ≡ 1) ys
  any_of-key xs [] sub = tt
  any_of-key xs (y ∷ ys) sub = (
    rw (hits-first_of_each (key y) xs, sub (key y) (rw (==_refl (key y)) refl)) refl,
    any_of-key xs ys (λ k h. sub k (ground (arith, h))),
  )

  -- The sums of the groups add up to the sum of the table.
  pub sum_by-first_of_each :
      (f : A → ℕ) (xs : List A)
      → sum_by (λ r. sum_by f (with_key (key r) xs)) (first_of_each xs) ≡ sum_by f xs
  sum_by-first_of_each f xs = sum_by-groups f (first_of_each xs) xs (any_of-key xs xs (λ k h. h))

  All-others {κ} :
      (Q : ℕ → Type κ) (k : ℕ) (xs : List A)
      → Q k
      → All (λ x. Q (key x)) (filter_by (λ y. not (key y == k)) xs)
      → All (λ x. Q (key x)) xs
  All-others Q k [] q h = tt
  All-others Q k (x ∷ xs) q h = elim (Bool-cases (key x == k)) [
    | inl hit ↦
        let rest : All (λ x. Q (key x)) (filter_by (λ y. not (key y == k)) xs) = rw hit at h in
        (subst Q (sym (==→eq (key x) k hit)) q, All-others Q k xs q rest)
    | inr miss ↦
        let rest : Q (key x) × All (λ x. Q (key x)) (filter_by (λ y. not (key y == k)) xs) =
          rw miss at h in
        (rest.0, All-others Q k xs q rest.1)
  ]

  -- What holds of the key of each representative holds of every row's.
  pub All-first_of_each {κ} :
      (Q : ℕ → Type κ) (xs : List A)
      → All (λ x. Q (key x)) (first_of_each xs)
      → All (λ x. Q (key x)) xs
  unfolding first_of_each
  All-first_of_each Q [] h = tt
  All-first_of_each Q (x ∷ xs) h =
      (h.0, All-first_of_each Q xs (All-others Q (key x) (first_of_each xs) h.0 h.1))

  -- A key that no row has names no rows.
  pub with_key-absent :
      (k : ℕ) (xs : List A) → any_of (λ x. key x == k) xs ≡ false → with_key k xs ≡ []
  with_key-absent k [] h = refl
  with_key-absent k (x ∷ xs) h = elim (Bool-cases (key x == k)) [
    | inl hit ↦ ground (arith, h, hit)
    | inr miss ↦ rw miss (with_key-absent k xs (ground (arith, h, miss)))
  ]

  pub All-key {κ} :
      (Q : ℕ → Type κ) (k : ℕ) (xs : List A)
      → All (λ x. Q (key x)) xs
      → any_of (λ x. key x == k) xs ≡ true
      → Q k
  All-key Q k [] h found = absurd (cc found)
  All-key Q k (x ∷ xs) h found = elim (Bool-cases (key x == k)) [
    | inl hit ↦ subst Q (==→eq (key x) k hit) h.0
    | inr miss ↦ All-key Q k xs h.1 (ground (arith, found, miss))
  ]
