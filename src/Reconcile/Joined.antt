-- ===== src/Reconcile/Joined.antt =====
-- apps/api/src/admin/reconciliation.service.ts: the join of `settled`, and the rows a check takes.
use project_atrium.Base.{
  ℕ, ◌≤◌, ◌<◌, ◌≡◌, ◌↔◌, refl, Bool, true, false, List, [], ◌∷◌, ◌++◌, map, ◌==◌, filter_by, length,
  All, arith, Bool-cases, inl, inr,
}
use project_atrium.Store.Tables.{Booking, Payment}
use project_atrium.Reconcile.Checks.{Scope, is_within, Settled, join_bookings, settled}

abbrev pub InWindow : Scope → ℕ → Type 0
InWindow s at = (s.from ≤ at) × (at < s.to)

module _ {ℓ} {A : Type ℓ} where
  pub empty-append : (xs ys : List A) → length (xs ++ ys) ≡ 0 → (length xs ≡ 0) × (length ys ≡ 0)
  empty-append [] ys h = (refl, h)
  empty-append (x ∷ xs) ys h = absurd (omega arith)

  pub append-empty : (xs ys : List A) → length xs ≡ 0 → length ys ≡ 0 → length (xs ++ ys) ≡ 0
  append-empty [] ys h k = k
  append-empty (x ∷ xs) ys h k = absurd (omega arith)

module _ {ℓ κ} {A : Type ℓ} {B : Type κ} where
  -- A check finds nothing exactly where no row meets its test.
  pub none_found :
      (f : A → B) (p : A → Bool) (xs : List A)
      → (length (map f (filter_by p xs)) ≡ 0) ↔ All (λ x. p x ≡ false) xs
  none_found f p [] = ((λ h. tt), (λ h. refl))
  none_found f p (x ∷ xs) = elim (Bool-cases (p x)) [
    | inl hit ↦ rw hit ((λ h. absurd (omega arith)), (λ h. absurd (cc h.0)))
    | inr miss ↦ rw miss ((λ h. (refl, (none_found f p xs).0 h)), (λ h. (none_found f p xs).1 h.1))
  ]

  -- What holds of the rows that a test takes, where the test decides `Q`.
  All-selected {μ ν} :
      (f : A → B) (q : A → Bool) (Q : A → Type μ) (P : B → Type ν) (xs : List A)
      → ((x : A) → (q x ≡ true) ↔ Q x)
      → All P (map f (filter_by q xs)) ↔ All (λ x. Q x → P (f x)) xs
  All-selected f q Q P [] decides = ((λ h. tt), (λ h. tt))
  All-selected f q Q P (x ∷ xs) decides = elim (Bool-cases (q x)) [
    | inl hit ↦ rw hit (
      (λ h. ((λ u. h.0), (All-selected f q Q P xs decides).0 h.1)),
      (λ h. (h.0 ((decides x).0 hit), (All-selected f q Q P xs decides).1 h.1)),
    )
    | inr miss ↦ rw miss (
      (λ h. ((λ u. absurd (cc ((decides x).1 u, miss))), (All-selected f q Q P xs decides).0 h)),
      (λ h. (All-selected f q Q P xs decides).1 h.1),
    )
  ]

module _ {ℓ κ} {A : Type ℓ} (P : A → Type κ) where
  pub All-append_iff : (xs ys : List A) → All P (xs ++ ys) ↔ (All P xs × All P ys)
  All-append_iff [] ys = ((λ h. (tt, h)), (λ h. h.1))
  All-append_iff (x ∷ xs) ys = (
    (λ h. let rest = (All-append_iff xs ys).0 h.1 in ((h.0, rest.0), rest.1)),
    (λ h. (h.0.0, (All-append_iff xs ys).1 (h.0.1, h.1))),
  )

-- What holds of each payment of the window with each of its bookings.
abbrev pub AllJoined {κ} : Scope → List Booking → (Settled → Type κ) → List Payment → Type κ
AllJoined s bs P ps =
    All
      (λ (p : Payment).
        InWindow s p.created_at
        → All
            (λ (b : Booking).
              b.id ≡ p.booking_id → P (record { payment = p; booking_status = b.status }))
            bs)
      ps

pub within_iff : (s : Scope) (at : ℕ) → (is_within s at ≡ true) ↔ InWindow s at
within_iff s at = ((λ h. ground (arith, h)), (λ h. ground (arith, h)))

pub eq_iff : (a b : ℕ) → ((a == b) ≡ true) ↔ (a ≡ b)
eq_iff a b = ((λ h. ground (arith, h)), (λ h. ground (arith, h)))

module _ {κ} (s : Scope) (bs : List Booking) (P : Settled → Type κ) where
  joined_iff :
      (p : Payment)
      → All P (join_bookings p bs)
        ↔ All
            (λ (b : Booking).
              b.id ≡ p.booking_id → P (record { payment = p; booking_status = b.status }))
            bs
  unfolding join_bookings
  joined_iff p =
      All-selected _ (λ (b : Booking). b.id == p.booking_id) _ P bs (λ b. eq_iff b.id p.booking_id)

  pub settled_iff : (ps : List Payment) → All P (settled s bs ps) ↔ AllJoined s bs P ps
  unfolding settled
  settled_iff [] = ((λ h. tt), (λ h. tt))
  settled_iff (p ∷ ps) = elim (Bool-cases (is_within s p.created_at)) [
    | inl hit ↦ rw hit (
      (λ h.
          let parts = (All-append_iff P (join_bookings p bs) (settled s bs ps)).0 h in
          ((λ w. (joined_iff p).0 parts.0), (settled_iff ps).0 parts.1)),
      (λ h.
          (All-append_iff P (join_bookings p bs) (settled s bs ps)).1
            ((joined_iff p).1 (h.0 ((within_iff s p.created_at).0 hit)), (settled_iff ps).1 h.1)),
    )
    | inr miss ↦ rw miss (
      (λ h. ((λ w. absurd (cc ((within_iff s p.created_at).1 w, miss))), (settled_iff ps).0 h)),
      (λ h. (settled_iff ps).1 h.1),
    )
  ]
