-- ===== src/Paygate/Mirror.antt =====
-- apps/paygate/src/ledger: `PostgresLedger` against `MemoryLedger`, call by call.
use mathlib.Core.Bool.{true≢false}
use mathlib.Core.Option
use project_atrium.Base.{
  ℕ, ◌≡◌, refl, sym, ap, ◌∙◌, Bool, true, false, Option, none, some, List, [], ◌∷◌, ◌++◌, map,
  any_of, find_first, update_where, Option-cases, Bool-cases, inl, inr, find_first-map,
  map-append_one, any_of-map, arith,
}
use project_atrium.Paygate.Types.{
  Charge, is_fingerprint, IdempotencyRecord, Scope, is_slot, replayed_once, OpenChargeInput,
  OpenChargeResult, Answer, returned, threw,
}
use project_atrium.Paygate.Tables.{
  ChargeRow, PostgresLedger, to_charge, with_id, breaks_check, is_taken_by,
}
use project_atrium.Paygate.Postgres
use project_atrium.Paygate.Shares.{fresh_id}
use project_atrium.Paygate.Postgres.{new_row, charge_slot}
use project_atrium.Paygate.Memory
use project_atrium.Paygate.Memory.{MemoryLedger, charge_with_id, set, new_charge}
use project_atrium.Paygate.Opened.{open_charge_known, open_charge_mismatch, open_charge_new}

-- A charge without the lists that the row of its table does not hold.
abbrev pub row_of : Charge → ChargeRow
row_of c = record {
  id = c.id;
  reference = c.reference;
  amount_minor = c.amount_minor;
  currency = c.currency;
  idempotency_key = c.idempotency_key;
  correlation_id = c.correlation_id;
  status = c.status;
  created_at = c.created_at;
  occurred_at = c.occurred_at;
  materialised = c.materialised;
  refunded_minor = c.refunded_minor;
  plan = c.plan;
  attempts = c.attempts;
}

pub record IsMirror (m : MemoryLedger) (p : PostgresLedger) : Type 0 where
  pub charges : p.charges ≡ map row_of m.charges
  pub refunds : p.refunds ≡ m.refunds
  pub idempotency : p.idempotency ≡ m.idempotency

-- What the answer says, the refund ids and deliveries of its charge left out.
abbrev pub said : OpenChargeResult → OpenChargeResult
said (OpenChargeResult.created c) = OpenChargeResult.created (to_charge (row_of c) [] [])
said (OpenChargeResult.replayed c r) = OpenChargeResult.replayed (to_charge (row_of c) [] []) r
said OpenChargeResult.fingerprint_mismatch = OpenChargeResult.fingerprint_mismatch

set-absent {ℓ} :
    {A : Type ℓ} (p : A → Bool) (a : A) (xs : List A)
    → any_of p xs ≡ false
    → set p a xs ≡ xs ++ (a ∷ [])
set-absent p a xs h = rw h refl

find_first-none {ℓ} :
    {A : Type ℓ} (p : A → Bool) (xs : List A) → find_first p xs ≡ none → any_of p xs ≡ false
find_first-none p [] h = refl
find_first-none p (x ∷ xs) h = ground (arith, h, find_first-none p xs)

-- The same answer, and mirrored tables.
abbrev pub Agrees :
    Answer OpenChargeResult × MemoryLedger → Answer OpenChargeResult × PostgresLedger → Type 0
Agrees (returned a, m) (r, p) = (r ≡ returned (said a)) × IsMirror m p
Agrees (threw, m) (r, p) = r ≡ threw

module _ (id now : ℕ) (input : OpenChargeInput) (m : MemoryLedger) (p : PostgresLedger) where
  memory_known :
      (r : IdempotencyRecord)
      → find_first (is_slot Scope.charge input.idempotency_key) m.idempotency ≡ some r
      → is_fingerprint r.fingerprint input.fingerprint ≡ true
      → Memory.open_charge id now input m
        ≡ Memory.replay_charge r
            (find_first (charge_with_id r.resource_id) m.charges)
            (Memory.count_replay Scope.charge input.idempotency_key m)
  unfolding Memory.open_charge
  memory_known r known same = ground (arith, known, same)

  memory_mismatch :
      (r : IdempotencyRecord)
      → find_first (is_slot Scope.charge input.idempotency_key) m.idempotency ≡ some r
      → is_fingerprint r.fingerprint input.fingerprint ≡ false
      → Memory.open_charge id now input m ≡ (returned OpenChargeResult.fingerprint_mismatch, m)
  unfolding Memory.open_charge
  memory_mismatch r known other = ground (arith, known, other)

  memory_new :
      find_first (is_slot Scope.charge input.idempotency_key) m.idempotency ≡ none
      → any_of (charge_with_id id) m.charges ≡ false
      → Memory.open_charge id now input m ≡ (
        returned (OpenChargeResult.created (new_charge id now input)),
        record m {
          charges = m.charges ++ (new_charge id now input ∷ []);
          idempotency = m.idempotency ++ (charge_slot id now input ∷ []);
        },
      )
  unfolding Memory.open_charge
  memory_new unknown fresh = ground (
    arith,
    unknown,
    set-absent (charge_with_id id) (new_charge id now input) m.charges fresh,
    set-absent (is_slot Scope.charge input.idempotency_key) (charge_slot id now input) m.idempotency
        (find_first-none (is_slot Scope.charge input.idempotency_key) m.idempotency unknown),
  )

  module _ (mirror : IsMirror m p) where
    slot_of :
        (o : Option IdempotencyRecord)
        → find_first (is_slot Scope.charge input.idempotency_key) m.idempotency ≡ o
        → find_first (is_slot Scope.charge input.idempotency_key) p.idempotency ≡ o
    slot_of o known =
        ap (find_first (is_slot Scope.charge input.idempotency_key)) mirror.idempotency ∙ known

    new-Agrees :
        find_first (is_slot Scope.charge input.idempotency_key) m.idempotency ≡ none
        → breaks_check (new_row id now input) ≡ false
        → any_of (is_taken_by (new_row id now input)) p.charges ≡ false
        → Agrees (Memory.open_charge id now input m) (Postgres.open_charge id now input p)
    new-Agrees unknown whole fresh =
        rw
          (
            memory_new unknown (absent fresh),
            open_charge_new id now input p (slot_of none unknown) whole fresh,
          )
          (
            refl,
            record {
              charges =
                  ap (λ cs. cs ++ (new_row id now input ∷ [])) mirror.charges
                  ∙ sym (map-append_one row_of m.charges (new_charge id now input));
              refunds = mirror.refunds;
              idempotency = ap (λ rs. rs ++ (charge_slot id now input ∷ [])) mirror.idempotency;
            },
          )
      where
        absent :
            any_of (is_taken_by (new_row id now input)) p.charges ≡ false
            → any_of (charge_with_id id) m.charges ≡ false
        absent fresh =
            sym (any_of-map row_of (with_id id) m.charges)
            ∙ ap (any_of (with_id id)) (sym mirror.charges)
            ∙ fresh_id (new_row id now input) p.charges fresh

    replay-Agrees :
        (r : IdempotencyRecord)
        → find_first (is_slot Scope.charge input.idempotency_key) m.idempotency ≡ some r
        → is_fingerprint r.fingerprint input.fingerprint ≡ true
        → (c : Charge) → find_first (charge_with_id r.resource_id) m.charges ≡ some c
        → Agrees (Memory.open_charge id now input m) (Postgres.open_charge id now input p)
    replay-Agrees r known same c there =
        rw
          (
            memory_known r known same,
            there,
            open_charge_known id now input p r (row_of c) (slot_of (some r) known) same row_there,
          )
          (
            refl,
            record {
              charges = mirror.charges;
              refunds = mirror.refunds;
              idempotency =
                  ap (update_where (is_slot Scope.charge input.idempotency_key) replayed_once)
                    mirror.idempotency;
            },
          )
      where
        row_there : find_first (with_id r.resource_id) p.charges ≡ some (row_of c)
        row_there =
            ap (find_first (with_id r.resource_id)) mirror.charges
            ∙ find_first-map row_of (with_id r.resource_id) m.charges
            ∙ ap (Option.map row_of) there

-- Where the tables mirror the maps, the amount is positive, and no row of the table has the new id
-- or, while the key has no slot, the key itself, and the slot of the key names a charge that is
-- there: both ledgers give the same answer to `openCharge`, refund ids and deliveries of its
-- charge left out, and the tables mirror the maps after it.
pub open_charge-Agrees :
    (id now : ℕ) (input : OpenChargeInput) (m : MemoryLedger) (p : PostgresLedger)
    → IsMirror m p
    → breaks_check (new_row id now input) ≡ false
    → (find_first (is_slot Scope.charge input.idempotency_key) m.idempotency ≡ none
        → any_of (is_taken_by (new_row id now input)) p.charges ≡ false)
    → ((r : IdempotencyRecord)
        → find_first (is_slot Scope.charge input.idempotency_key) m.idempotency ≡ some r
        → any_of (charge_with_id r.resource_id) m.charges ≡ true)
    → Agrees (Memory.open_charge id now input m) (Postgres.open_charge id now input p)
open_charge-Agrees id now input m p mirror whole fresh linked =
    elim (Option-cases (find_first (is_slot Scope.charge input.idempotency_key) m.idempotency)) [
      | inl unknown ↦ new-Agrees id now input m p mirror unknown whole (fresh unknown)
      | inr (r, known) ↦ elim (Bool-cases (is_fingerprint r.fingerprint input.fingerprint)) [
        | inl same ↦ elim (Option-cases (find_first (charge_with_id r.resource_id) m.charges)) [
          | inl gone ↦ absurd_link r gone (linked r known)
          | inr (c, there) ↦ replay-Agrees id now input m p mirror r known same c there
        ]
        | inr other ↦
            rw
              (
                memory_mismatch id now input m p r known other,
                open_charge_mismatch id now input p r
                    (slot_of id now input m p mirror (some r) known) other,
              )
              (refl, mirror)
      ]
    ]
  where
    absurd_link :
        (r : IdempotencyRecord)
        → find_first (charge_with_id r.resource_id) m.charges ≡ none
        → any_of (charge_with_id r.resource_id) m.charges ≡ true
        → Agrees (Memory.open_charge id now input m) (Postgres.open_charge id now input p)
    absurd_link r gone there =
        absurd
          (true≢false (sym there ∙ find_first-none (charge_with_id r.resource_id) m.charges gone))
