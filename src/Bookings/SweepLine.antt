-- ===== src/Bookings/SweepLine.antt =====
-- The sweep line against its specification: the number of units out at an instant.
use project_atrium.Base.{
  ℕ, ◌+◌, ◌-◌, ◌*◌, ◌≤◌, ◌<◌, max, ◌≡◌, refl, ◌↔◌, inl, inr, true, false, ◌&&◌, List, [], ◌∷◌, ◌++◌,
  ltb, leb, if◌then◌else◌, All, sum_by, sum_by-append, arith, Bool-cases,
}
use project_atrium.Bookings.Equipment.{
  Usage, Event, release, acquire, at, tie_break, acquired, released, starts, ends, comes_first,
  insert_event, order_events, max_in_use, peak,
}

-- The units out at the instant t: half-open intervals, so that a use that ends at t has given its
-- units back.
unfoldable pub in_use_at : ℕ → List Usage → ℕ
in_use_at t [] = 0
in_use_at t (u ∷ us) =
    (if leb u.window_start t && ltb t u.window_end then u.quantity else 0) + in_use_at t us

abbrev pub IsProper : Usage → Type 0
IsProper u = u.window_start < u.window_end

-- What the events up to the instant t acquire and release.
abbrev acquired_by : ℕ → Event → ℕ
acquired_by t e = if leb (at e) t then acquired e else 0

abbrev released_by : ℕ → Event → ℕ
released_by t e = if leb (at e) t then released e else 0

-- The place of an event in the order.
abbrev key : Event → ℕ
key e = at e * 2 + tie_break e

abbrev IsOrdered : List Event → Type 0
IsOrdered [] = Unit
IsOrdered (e ∷ es) = All (λ f. key e ≤ key f) es × IsOrdered es

comes_first-key : (e f : Event) → comes_first e f ≡ true → key e ≤ key f
unfolding comes_first
comes_first-key e f h = ground arith

key-comes_first : (e f : Event) → comes_first e f ≡ false → key f ≤ key e
unfolding comes_first
key-comes_first e f h = ground arith

All-insert_event :
    (P : Event → Type 0) (e : Event) (es : List Event) → P e → All P es → All P (insert_event e es)
unfolding insert_event
All-insert_event P e [] p h = (p, tt)
All-insert_event P e (f ∷ fs) p h = elim (Bool-cases (comes_first e f)) [
  | inl hit ↦ rw hit (p, h)
  | inr miss ↦ rw miss (h.0, All-insert_event P e fs p h.1)
]

All-key : (m n : ℕ) (es : List Event) → m ≤ n → All (λ f. n ≤ key f) es → All (λ f. m ≤ key f) es
All-key m n [] le h = tt
All-key m n (e ∷ es) le h = (omega arith, All-key m n es le h.1)

insert_event-IsOrdered :
    (e : Event) (es : List Event) → IsOrdered es → IsOrdered (insert_event e es)
unfolding insert_event
insert_event-IsOrdered e [] h = (tt, tt)
insert_event-IsOrdered e (f ∷ fs) h = elim (Bool-cases (comes_first e f)) [
  | inl hit ↦
      let le : key e ≤ key f = comes_first-key e f hit in
      rw hit ((le, All-key (key e) (key f) fs le h.0), h)
  | inr miss ↦ rw miss (
    All-insert_event (λ g. key f ≤ key g) e fs (key-comes_first e f miss) h.0,
    insert_event-IsOrdered e fs h.1,
  )
]

order_events-IsOrdered : (es : List Event) → IsOrdered (order_events es)
unfolding order_events
order_events-IsOrdered [] = tt
order_events-IsOrdered (e ∷ es) =
    insert_event-IsOrdered e (order_events es) (order_events-IsOrdered es)

module _ (g : Event → ℕ) where
  sum_by-insert_event :
      (e : Event) (es : List Event) → sum_by g (insert_event e es) ≡ g e + sum_by g es
  unfolding insert_event
  sum_by-insert_event e [] = refl
  sum_by-insert_event e (f ∷ fs) = ground (arith, sum_by-insert_event e fs)

  sum_by-order_events : (es : List Event) → sum_by g (order_events es) ≡ sum_by g es
  unfolding order_events
  sum_by-order_events [] = refl
  sum_by-order_events (e ∷ es) =
      omega (arith, sum_by-insert_event e (order_events es), sum_by-order_events es)

-- Behind the instant t nothing of an ordered rest counts.
none_by :
    (t : ℕ) (e : Event) (es : List Event)
    → t < at e
    → All (λ f. key e ≤ key f) es
    → (sum_by (acquired_by t) es ≡ 0) × (sum_by (released_by t) es ≡ 0)
none_by t e [] h o = (refl, refl)
none_by t e (f ∷ fs) h o = ground (arith, none_by t e fs h o.1)

-- What is out at t is at most the peak: the events up to t are the first ones of the order.
in_use_le_max :
    (t a r : ℕ) (es : List Event)
    → IsOrdered es
    → a + sum_by (acquired_by t) es - (r + sum_by (released_by t) es)
      ≤ max (a - r) (max_in_use a r es)
unfolding max_in_use
in_use_le_max t a r [] o = omega arith
in_use_le_max t a r (e ∷ es) o = elim (Bool-cases (leb (at e) t)) [
  | inl by ↦ rw by (omega (arith, in_use_le_max t (a + acquired e) (r + released e) es o.1))
  | inr later ↦ rw later (ground (arith, none_by t e es (ground arith) o.0))
]

-- At the instant of an acquisition all releases up to then stand before it.
no_release_by :
    (t q : ℕ) (es : List Event)
    → All (λ f. key (acquire t q) ≤ key f) es
    → sum_by (released_by t) es ≡ 0
no_release_by t q [] o = refl
no_release_by t q (release u p ∷ fs) o = ground (arith, no_release_by t q fs o.1)
no_release_by t q (acquire u p ∷ fs) o = ground (arith, no_release_by t q fs o.1)

not_before : (e : Event) (es : List Event) → All (λ f. key e ≤ key f) es → All (λ f. at e ≤ at f) es
not_before e [] o = tt
not_before (release t q) (release u p ∷ fs) o = (omega arith, not_before (release t q) fs o.1)
not_before (release t q) (acquire u p ∷ fs) o = (omega arith, not_before (release t q) fs o.1)
not_before (acquire t q) (release u p ∷ fs) o = (omega arith, not_before (acquire t q) fs o.1)
not_before (acquire t q) (acquire u p ∷ fs) o = (omega arith, not_before (acquire t q) fs o.1)

-- A bound on what is out at each instant from `from` on bounds every running total.
max_le_in_use :
    (k from a r : ℕ) (es : List Event)
    → IsOrdered es
    → All (λ f. from ≤ at f) es
    → a - r ≤ k
    → ((t : ℕ) → from ≤ t → a + sum_by (acquired_by t) es - (r + sum_by (released_by t) es) ≤ k)
    → max_in_use a r es ≤ k
unfolding max_in_use
max_le_in_use k from a r [] o f now bound = omega arith
max_le_in_use k from a r (release u q ∷ es) o f now bound =
    let rest : max_in_use (a + 0) (r + q) es ≤ k =
      max_le_in_use k u (a + 0) (r + q) es o.1 (not_before (release u q) es o.0) (omega arith)
        (λ t le. ground (arith, bound t)) in
    omega arith
max_le_in_use k from a r (acquire u q ∷ es) o f now bound =
    let here : a + q - (r + 0) ≤ k = ground (arith, bound u, no_release_by u q es o.0) in
    let rest : max_in_use (a + q) (r + 0) es ≤ k =
      max_le_in_use k u (a + q) (r + 0) es o.1 (not_before (acquire u q) es o.0) here
        (λ t le. ground (arith, bound t)) in
    omega arith

released_by-starts : (t : ℕ) (us : List Usage) → sum_by (released_by t) (starts us) ≡ 0
unfolding starts
released_by-starts t [] = refl
released_by-starts t (u ∷ us) = ground (arith, released_by-starts t us)

acquired_by-ends : (t : ℕ) (us : List Usage) → sum_by (acquired_by t) (ends us) ≡ 0
unfolding ends
acquired_by-ends t [] = refl
acquired_by-ends t (u ∷ us) = ground (arith, acquired_by-ends t us)

-- What is out at t is what started by then less what ended by then.
in_use_at-balance :
    (t : ℕ) (us : List Usage)
    → All IsProper us
    → in_use_at t us + sum_by (released_by t) (ends us) ≡ sum_by (acquired_by t) (starts us)
unfolding in_use_at starts ends
in_use_at-balance t [] h = refl
in_use_at-balance t (u ∷ us) h = ground (arith, in_use_at-balance t us h.1)

in_use_at-events :
    (t : ℕ) (us : List Usage)
    → All IsProper us
    → let es = order_events (starts us ++ ends us) in
      in_use_at t us ≡ 0 + sum_by (acquired_by t) es - (0 + sum_by (released_by t) es)
in_use_at-events t us h = omega (
  arith,
  sum_by-order_events (acquired_by t) (starts us ++ ends us),
  sum_by-order_events (released_by t) (starts us ++ ends us),
  sum_by-append (acquired_by t) (starts us) (ends us),
  sum_by-append (released_by t) (starts us) (ends us),
  released_by-starts t us,
  acquired_by-ends t us,
  in_use_at-balance t us h,
)

All-from_zero : (es : List Event) → All (λ f. 0 ≤ at f) es
All-from_zero [] = tt
All-from_zero (e ∷ es) = (omega arith, All-from_zero es)

-- For uses that each end after they start, the peak of the sweep line is the maximum, over all
-- instants, of the units out at that instant: a number bounds the peak exactly when it bounds
-- what is out at every instant.
pub peak-le_iff :
    (us : List Usage) (k : ℕ) → All IsProper us → (peak us ≤ k) ↔ ((t : ℕ) → in_use_at t us ≤ k)
unfolding peak
peak-le_iff us k h =
    let es = order_events (starts us ++ ends us) in
    let o = order_events-IsOrdered (starts us ++ ends us) in
    (
      λ le t. omega (arith, in_use_at-events t us h, in_use_le_max t 0 0 es o),
      λ bound.
          max_le_in_use k 0 0 0 es o (All-from_zero es) (omega arith)
            (λ t le. omega (arith, in_use_at-events t us h, bound t)),
    )
