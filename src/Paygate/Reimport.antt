-- ===== src/Paygate/Reimport.antt =====
-- apps/paygate/src/ledger/postgres.ts: an import that is run again.
use project_atrium.Base.{
  ℕ, ◌+◌, ◌≡◌, refl, sym, ◌∙◌, subst, Bool, true, false, inl, inr, List, [], ◌∷◌, ◌++◌, is_some,
  any_of, any_of-append, find_first, Bool-cases, ==_refl, arith, All,
}
use project_atrium.Paygate.Types.{Answer, ImportedCharge, returned, threw}
use project_atrium.Paygate.Tables.{
  PostgresLedger, with_id, pure, ◌>>=◌, breaks_check, is_taken_by, insert_charge,
}
use project_atrium.Paygate.Deliveries.{imported_row, import_row, import_rows}
use project_atrium.Paygate.Runs.{bind_returned}

is_some-find_first {ℓ} :
    {A : Type ℓ} (p : A → Bool) (xs : List A) → is_some (find_first p xs) ≡ any_of p xs
is_some-find_first p [] = refl
is_some-find_first p (x ∷ xs) = ground (arith, is_some-find_first p xs)

any_of-last {ℓ} :
    {A : Type ℓ} (p : A → Bool) (xs : List A) (y : A)
    → p y ≡ true
    → any_of p (xs ++ (y ∷ [])) ≡ true
any_of-last p [] y h = ground (arith, h)
any_of-last p (x ∷ xs) y h = ground (arith, any_of-last p xs y h)

abbrev pub IsSeeded : PostgresLedger → ImportedCharge → Type 0
IsSeeded p row =
    (breaks_check (imported_row row) ≡ false) × (any_of (with_id row.id) p.charges ≡ true)

abbrev pub Grows : PostgresLedger → PostgresLedger → Type 0
Grows p q = (id : ℕ) → any_of (with_id id) p.charges ≡ true → any_of (with_id id) q.charges ≡ true

-- What an import that returns leaves.
abbrev pub Imports : List ImportedCharge → PostgresLedger → Answer ℕ × PostgresLedger → Type 0
Imports rows p (returned n, q) = All (IsSeeded q) rows × Grows p q
Imports rows p (threw, q) = Unit

row_known :
    (row : ImportedCharge) (p : PostgresLedger)
    → IsSeeded p row
    → import_row row p ≡ (returned 0, p)
unfolding import_row
row_known row p h = ground (arith, h.0, h.1, is_some-find_first (with_id row.id) p.charges)

rows_known :
    (rows : List ImportedCharge) (p : PostgresLedger)
    → All (IsSeeded p) rows
    → import_rows rows p ≡ (returned 0, p)
unfolding import_rows
rows_known [] p h = refl
rows_known (row ∷ rows) p h =
    bind_returned (import_row row) (λ one. import_rows rows >>= λ others. pure (one + others)) p p 0
      (row_known row p h.0)
    ∙ bind_returned (import_rows rows) (λ others. pure (0 + others)) p p 0 (rows_known rows p h.1)

row-Imports : (row : ImportedCharge) (p : PostgresLedger) → Imports (row ∷ []) p (import_row row p)
unfolding import_row insert_charge
row-Imports row p = elim (Bool-cases (breaks_check (imported_row row))) [
  | inl broken ↦ subst (Imports (row ∷ []) p) (sym (refused broken)) tt
  | inr whole ↦ elim (Bool-cases (any_of (with_id row.id) p.charges)) [
    | inl there ↦
        subst (Imports (row ∷ []) p) (sym (row_known row p (whole, there)))
          (((whole, there), tt), λ id h. h)
    | inr absent ↦ elim (Bool-cases (any_of (is_taken_by (imported_row row)) p.charges)) [
      | inl taken ↦ subst (Imports (row ∷ []) p) (sym (clash whole absent taken)) tt
      | inr fresh ↦ subst (Imports (row ∷ []) p) (sym (written whole absent fresh)) (
        ((whole, any_of-last (with_id row.id) p.charges (imported_row row) (==_refl row.id)), tt),
        λ id h. any_of-append (with_id id) p.charges (imported_row row ∷ []) h,
      )
    ]
  ]
]
  where
    refused : breaks_check (imported_row row) ≡ true → import_row row p ≡ (threw, p)
    refused broken = ground (arith, broken)

    clash :
        breaks_check (imported_row row) ≡ false
        → any_of (with_id row.id) p.charges ≡ false
        → any_of (is_taken_by (imported_row row)) p.charges ≡ true
        → import_row row p ≡ (threw, p)
    clash whole absent taken =
        ground (arith, whole, absent, taken, is_some-find_first (with_id row.id) p.charges)

    written :
        breaks_check (imported_row row) ≡ false
        → any_of (with_id row.id) p.charges ≡ false
        → any_of (is_taken_by (imported_row row)) p.charges ≡ false
        → import_row row p
          ≡ (returned 1, record p { charges = p.charges ++ (imported_row row ∷ []) })
    written whole absent fresh =
        ground (arith, whole, absent, fresh, is_some-find_first (with_id row.id) p.charges)

rest-Imports :
    (row : ImportedCharge) (rows : List ImportedCharge) (one : ℕ) (p q : PostgresLedger)
    (r : Answer ℕ) (q' : PostgresLedger)
    → Imports (row ∷ []) p (returned one, q)
    → Imports rows q (r, q')
    → Imports (row ∷ rows) p (elim r as (λ x. Answer ℕ × PostgresLedger) [
      | returned others ↦ (returned (one + others), q')
      | threw ↦ (threw, q')
    ])
rest-Imports row rows one p q (returned n) q' h k =
    (((h.0.0.0, k.1 row.id h.0.0.1), k.0), λ id x. k.1 id (h.1 id x))
rest-Imports row rows one p q threw q' h k = tt

first-Imports :
    (row : ImportedCharge) (rows : List ImportedCharge) (p : PostgresLedger) (r : Answer ℕ)
    (q : PostgresLedger)
    → Imports (row ∷ []) p (r, q)
    → Imports rows q (import_rows rows q)
    → Imports (row ∷ rows) p (elim r as (λ x. Answer ℕ × PostgresLedger) [
      | returned one ↦ (import_rows rows >>= λ others. pure (one + others)) q
      | threw ↦ (threw, q)
    ])
first-Imports row rows p (returned one) q h k =
    rest-Imports row rows one p q (import_rows rows q).0 (import_rows rows q).1 h k
first-Imports row rows p threw q h k = tt

rows-Imports :
    (rows : List ImportedCharge) (p : PostgresLedger) → Imports rows p (import_rows rows p)
unfolding import_rows
rows-Imports [] p = (tt, λ id h. h)
rows-Imports (row ∷ rows) p =
    first-Imports row rows p (import_row row p).0 (import_row row p).1 (row-Imports row p)
      (rows-Imports rows (import_row row p).1)

-- Where the insert of a batch of charges returns, the same insert right after it writes no row.
import_rows_again :
    (rows : List ImportedCharge) (p q : PostgresLedger) (n : ℕ)
    → import_rows rows p ≡ (returned n, q)
    → import_rows rows q ≡ (returned 0, q)
import_rows_again rows p q n e =
    rows_known rows q (subst (Imports rows p) e (rows-Imports rows p)).0
