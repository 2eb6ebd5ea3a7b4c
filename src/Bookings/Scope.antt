-- ===== src/Bookings/Scope.antt =====
-- The rows a principal may act on, and that nobody acts on another tenant's rows (INV-6) through
-- checkout or cancellation.
use project_atrium.Base.{
  ℕ, ◌≡◌, refl, ◌∙◌, sym, ◌⊎◌, inl, inr, Bool, true, false, ◌&&◌, Option, none, some, List, [], ◌∷◌,
  ◌==◌, any_of, find_first, arith, Bool-cases, find_first-holds, ==→eq, ap, Option-cases, &&-split,
}
use Prim.Native.String.{String}
use project_atrium.Store.Status.{UserRole, customer, venue_staff, venue_admin, platform_admin}
use project_atrium.Store.Tables.{AuthPrincipal, Booking, Database}
use project_atrium.Store.Transaction.{Result, ok, err, transaction, not_found, forbidden}
use project_atrium.Bookings.StateMachine.{has_id}
use project_atrium.Bookings.Trail.{IsDistinct, ids}
use project_atrium.Bookings.Service.{
  Env, scope_of, scope_filter, select_scoped, load_owned_booking, checkout, cancel,
}

has_no_id :
    (id : ℕ) (q : Booking → Bool) (bs : List Booking)
    → any_of (λ j. j == id) (ids bs) ≡ false
    → find_first (λ b. has_id id b && q b) bs ≡ none
has_no_id id q [] h = refl
has_no_id id q (b ∷ bs) h = ground (arith, has_no_id id q bs)

-- Where ids are distinct, a row found by its id and a scope is the row of that id.
pub find_first-scoped :
    (id : ℕ) (q : Booking → Bool) (bs : List Booking) (b : Booking)
    → IsDistinct (ids bs)
    → find_first (λ x. has_id id x && q x) bs ≡ some b
    → find_first (has_id id) bs ≡ some b
find_first-scoped id q [] b d e = e
find_first-scoped id q (x ∷ xs) b d e = elim (Bool-cases (x.id == id)) [
  | inl hit ↦ ground (arith, has_no_id id q xs (rw (← ==→eq x.id id hit) d.0))
  | inr miss ↦ ground (arith, find_first-scoped id q xs b d.1)
]

-- The rows that a principal may act on: all for a platform admin, those of the token's venue for
-- its admins and staff, the own bookings for a customer.
abbrev pub MayActOn : AuthPrincipal → Booking → Type 0
MayActOn p b =
    (p.role ≡ platform_admin)
    ⊎ ((((p.role ≡ venue_admin) ⊎ (p.role ≡ venue_staff)) × (p.venue_id ≡ some b.venue_id))
        ⊎ ((p.role ≡ customer) × (b.user_id ≡ p.user_id)))

scope_filter-MayActOn :
    (p : AuthPrincipal)
    → (scope_filter p ≡ err forbidden)
      ⊎ ((q : Booking → Bool) × (scope_filter p ≡ ok q)
          × ((b : Booking) → q b ≡ true → MayActOn p b))
unfolding scope_filter
scope_filter-MayActOn p = by_role p.role p.venue_id refl refl
  where
    by_role :
        (r : UserRole) (v : Option ℕ)
        → p.role ≡ r
        → p.venue_id ≡ v
        → (scope_of r v p.user_id ≡ err forbidden)
          ⊎ ((q : Booking → Bool) × (scope_of r v p.user_id ≡ ok q)
              × ((b : Booking) → q b ≡ true → MayActOn p b))
    by_role platform_admin v e f = inr ((λ b. true), refl, λ b h. inl e)
    by_role venue_admin none e f = inl refl
    by_role venue_admin (some w) e f = inr (
      (λ b. b.venue_id == w),
      refl,
      λ b h. inr (inl (inl e, f ∙ ap some (sym (==→eq b.venue_id w h)))),
    )
    by_role venue_staff none e f = inl refl
    by_role venue_staff (some w) e f = inr (
      (λ b. b.venue_id == w),
      refl,
      λ b h. inr (inl (inr e, f ∙ ap some (sym (==→eq b.venue_id w h)))),
    )
    by_role customer v e f =
        inr ((λ b. b.user_id == p.user_id), refl, λ b h. inr (inr (e, ==→eq b.user_id p.user_id h)))

-- A method's answer to a principal that may not act: a 403 or a 404, and nothing written.
abbrev pub IsRefused {ℓ} : {A : Type ℓ} → Database → Result A × Database → Type ℓ
IsRefused db r = (r ≡ (err forbidden, db)) ⊎ (r ≡ (err not_found, db))

-- The row that is loaded is the row of that id, and one that the principal may act on.
pub load_owned_cases :
    (id : ℕ) (p : AuthPrincipal) (db : Database)
    → IsDistinct (ids db.bookings)
    → IsRefused db (load_owned_booking id p db)
      ⊎ ((b : Booking) × (load_owned_booking id p db ≡ (ok b, db))
          × (find_first (has_id id) db.bookings ≡ some b)
          × MayActOn p b)
unfolding load_owned_booking select_scoped
load_owned_cases id p db d = elim (scope_filter-MayActOn p) [
  | inl e ↦ inl (inl (rw (e, select_scoped)))
  | inr (q, e, may) ↦ elim (Option-cases (find_first (λ b. has_id id b && q b) db.bookings)) [
    | inl absent ↦ inl (inr (rw (e, select_scoped, absent)))
    | inr (b, found) ↦ inr (
      b,
      rw (e, select_scoped, found),
      find_first-scoped id q db.bookings b d found,
      may b
          (&&-split (has_id id b) (q b)
            (find_first-holds (λ x. has_id id x && q x) db.bookings b found)).1,
    )
  ]
]

-- Who may act on no booking of that id loads none.
pub load_owned_foreign :
    (id : ℕ) (p : AuthPrincipal) (db : Database)
    → IsDistinct (ids db.bookings)
    → ((b : Booking) → find_first (has_id id) db.bookings ≡ some b → ¬ MayActOn p b)
    → IsRefused db (load_owned_booking id p db)
load_owned_foreign id p db d foreign = elim (load_owned_cases id p db d) [
  | inl refused ↦ refused
  | inr (b, loaded, found, may) ↦ absurd (foreign b found may)
]

-- Tenant isolation: where ids are distinct, for a principal who may act on no booking with that
-- id, as the role and the venue of the token say, checkout and cancellation answer 403 or 404 and
-- leave the whole database as it was.
pub foreign-IsRefused :
    (now id : ℕ) (env : Env) (reason : String) (p : AuthPrincipal) (db : Database)
    → IsDistinct (ids db.bookings)
    → ((b : Booking) → find_first (has_id id) db.bookings ≡ some b → ¬ MayActOn p b)
    → IsRefused db (checkout now env id p db) × IsRefused db (cancel now id reason p db)
unfolding checkout cancel transaction
foreign-IsRefused now id env reason p db d foreign = elim (load_owned_foreign id p db d foreign) [
  | inl e ↦ (inl (ground (arith, e)), inl (ground (arith, e)))
  | inr e ↦ (inr (ground (arith, e)), inr (ground (arith, e)))
]
