-- ===== src/Bookings/Expired.antt =====
-- An expiry keeps the laws of the table `bookings`.
use project_atrium.Base.{
  All-of, ℕ, ◌≡◌, refl, sym, ◌∙◌, inl, inr, Bool, true, false, some, List, [], ◌∷◌, ◌==◌,
  if◌then◌else◌, any_of, filter_by, All, update_where, arith, Bool-cases, All-map, ==→eq, subst, ap,
}
use Prim.Native.String.{String}
use project_atrium.Store.Status.{
  BookingStatus, held, is_status_sound, is_active, is_legal_transition,
}
use project_atrium.Store.Tables.{Booking, AuditEvent, Actor, Database, system_actor}
use project_atrium.Bookings.Expiry.{
  expire_row, expiry_event, audit_expired, expire_where, is_stale_in, expire_stale_holds_for_room,
}
use project_atrium.Bookings.Trail.{
  state_after, IsTracked, IsSound, IsHarmless, NoOverlap-update_where, ids-update_where, ids,
  IsDistinct,
}
use project_atrium.Bookings.Kept.{state_after-next, state_after-other}

module _ (actor : Actor) (reason : String) where
  -- The trail of a booking that is not among those expired does not change.
  expired_other :
      (id : ℕ) (is : List ℕ) (trail : List AuditEvent)
      → any_of (λ j. j == id) is ≡ false
      → state_after id (audit_expired actor reason is trail) ≡ state_after id trail
  unfolding audit_expired
  expired_other id [] trail h = refl
  expired_other id (i ∷ is) trail h =
      expired_other id is (expiry_event actor reason i ∷ trail) (ground arith)
      ∙ state_after-other trail (expiry_event actor reason i) id (λ same. ground (arith, same))

  -- That of a hold that is among them ends at EXPIRED.
  expired_self :
      (id : ℕ) (is : List ℕ) (trail : List AuditEvent)
      → IsDistinct is
      → any_of (λ j. j == id) is ≡ true
      → state_after id trail ≡ some held
      → state_after id (audit_expired actor reason is trail) ≡ some BookingStatus.expired
  unfolding audit_expired
  expired_self id [] trail d m h = cc
  expired_self id (i ∷ is) trail d m h = elim (Bool-cases (i == id)) [
    | inl hit ↦
        expired_other id is (expiry_event actor reason i ∷ trail) (rw (← ==→eq i id hit) d.0)
        ∙ state_after-next trail (expiry_event actor reason i) id (==→eq i id hit) h
            (inr (unfold is_legal_transition in refl))
    | inr miss ↦ expired_self id is (expiry_event actor reason i ∷ trail) d.1 (ground arith) (
        state_after-other trail (expiry_event actor reason i) id (λ same. ground (arith, same)) ∙ h)
  ]

module _ (p : Booking → Bool) where
  pub filter_by-ids :
      (i : ℕ) (bs : List Booking)
      → any_of (λ j. j == i) (ids bs) ≡ false
      → any_of (λ j. j == i) (ids (filter_by p bs)) ≡ false
  filter_by-ids i [] h = refl
  filter_by-ids i (b ∷ bs) h = ground (arith, filter_by-ids i bs)

  filter_by-IsDistinct :
      (bs : List Booking) → IsDistinct (ids bs) → IsDistinct (ids (filter_by p bs))
  filter_by-IsDistinct [] d = tt
  filter_by-IsDistinct (b ∷ bs) d = elim (Bool-cases (p b)) [
    | inl hit ↦ rw hit (filter_by-ids b.id bs d.0, filter_by-IsDistinct bs d.1)
    | inr miss ↦ rw miss (filter_by-IsDistinct bs d.1)
  ]

  -- The ids selected are those of the rows that meet the condition, and no others.
  abbrev pub IsSelected : List ℕ → Booking → Type 0
  IsSelected is b = any_of (λ j. j == b.id) is ≡ p b

  more-IsSelected :
      (b : Booking) (is : List ℕ) (bs : List Booking)
      → any_of (λ j. j == b.id) (ids bs) ≡ false
      → All (IsSelected is) bs
      → All (IsSelected (b.id ∷ is)) bs
  more-IsSelected b is [] fresh h = tt
  more-IsSelected b is (c ∷ cs) fresh h =
      (ground (arith, h.0), more-IsSelected b is cs (ground arith) h.1)

  pub All-IsSelected :
      (bs : List Booking) → IsDistinct (ids bs) → All (IsSelected (ids (filter_by p bs))) bs
  All-IsSelected [] d = tt
  All-IsSelected (b ∷ bs) d = elim (Bool-cases (p b)) [
    | inl hit ↦
        let e : filter_by p (b ∷ bs) ≡ b ∷ filter_by p bs = rw hit in
        subst (λ l. All (IsSelected (ids l)) (b ∷ bs)) (sym e)
          (ground arith, more-IsSelected b (ids (filter_by p bs)) bs d.0 (All-IsSelected bs d.1))
    | inr miss ↦
        let e : filter_by p (b ∷ bs) ≡ filter_by p bs = rw miss in
        subst (λ l. All (IsSelected (ids l)) (b ∷ bs)) (sym e)
          (filter_by-ids b.id bs d.0 ∙ sym miss, All-IsSelected bs d.1)
  ]

module _ (now : ℕ) (stale : Booking → Bool) (actor : Actor) (reason : String) (db : Database) where
  -- Rows that are expired, each with its audit row, keep the laws of the table.
  pub expire_where-IsSound :
      All (λ b. stale b ≡ true → b.status ≡ held) db.bookings
      → IsSound db
      → IsSound (expire_where now stale actor reason db).1
  unfolding expire_where
  expire_where-IsSound holds s = record {
    tracked = all_tracked db.bookings holds s.tracked (All-IsSelected stale db.bookings s.unique);
    unique =
        subst IsDistinct (sym (ids-update_where stale (expire_row now) db.bookings (λ x. refl)))
          s.unique;
    apart =
        NoOverlap-update_where stale (expire_row now) db.bookings
          (All-map (IsTracked db.audit) (λ b. stale b ≡ true → IsHarmless (expire_row now) b)
            db.bookings (λ b t hit. harmless b) s.tracked)
          s.apart;
  }
    where
      selected : List ℕ
      selected = ids (filter_by stale db.bookings)

      harmless : (b : Booking) → IsHarmless (expire_row now) b
      harmless b = record {
        room = refl;
        starts = refl;
        ends = refl;
        calm = unfold is_active in (λ a. cc);
      }

      row_tracked :
          (b : Booking)
          → (stale b ≡ true → b.status ≡ held)
          → IsTracked db.audit b
          → any_of (λ j. j == b.id) selected ≡ stale b
          → IsTracked
              (audit_expired actor reason selected db.audit)
              (if stale b then expire_row now b else b)
      row_tracked b hold t chosen = elim (Bool-cases (stale b)) [
        | inl hit ↦ rw hit (
          expired_self actor reason b.id selected db.audit
              (filter_by-IsDistinct stale db.bookings s.unique) (chosen ∙ hit)
              (t.0 ∙ ap some (hold hit)),
          λ e. cc,
        )
        | inr miss ↦
            rw miss (expired_other actor reason b.id selected db.audit (chosen ∙ miss) ∙ t.0, t.1)
      ]

      all_tracked :
          (bs : List Booking)
          → All (λ b. stale b ≡ true → b.status ≡ held) bs
          → All (IsTracked db.audit) bs
          → All (IsSelected stale selected) bs
          → All
              (IsTracked (audit_expired actor reason selected db.audit))
              (update_where stale (expire_row now) bs)
      all_tracked [] h t c = tt
      all_tracked (b ∷ bs) h t c = (row_tracked b h.0 t.0 c.0, all_tracked bs h.1 t.1 c.1)

-- The expiry of a room's stale holds keeps the laws of the table.
pub expire_room-IsSound :
    (now room : ℕ) (db : Database)
    → IsSound db
    → IsSound (expire_stale_holds_for_room now room db).1
unfolding expire_stale_holds_for_room is_stale_in
expire_room-IsSound now room db s =
    expire_where-IsSound now (is_stale_in now room) system_actor "hold.expired.in_transaction" db
      (All-of (λ b. is_stale_in now room b ≡ true → b.status ≡ held)
        (λ b hit. is_status_sound b.status held (ground arith)) db.bookings)
      s
