-- ===== src/Paygate/RouteTests.antt =====
-- The routes of the provider and its import on concrete requests.
use project_atrium.Base.{
  ℕ, ◌++◌, ◌==◌, find_first, map, ◌+◌, ◌*◌, ◌≡◌, refl, true, none, some, [], ◌∷◌,
}
use project_atrium.Paygate.Types.{
  ImportedCharge, returned, normal, ChaosPlan, ChargeStatus, accepted, IdempotencyRecord,
}
use project_atrium.Paygate.Tables.{ChargeRow, transaction}
use project_atrium.Paygate.Postgres.{charge_slot, new_row, settle}
use project_atrium.Paygate.Deliveries.{imported_row, import_rows}
use project_atrium.Paygate.Covered.{empty_ledger}
use project_atrium.Paygate.Server.{ChargeBody, PaygateConfig, Server, DeliveryRequest}
use project_atrium.Paygate.Routes.{charge_accepted, provider_error, charge_input, post_charge}
use project_atrium.Paygate.Messages.{messages}
use project_atrium.Paygate.Retried.{
  after_replay, settled_ledger, recovered, replay_sends_nothing, retry_after_500,
}

-- A plan whose first request is a 500, and whose webhook comes twice.
abbrev failing : ChaosPlan
failing = record {
  enabled = true;
  transient_failure = true;
  timing = normal;
  duplicate_delivery = true;
  first_delay_ms = 50;
  duplicate_gap_ms = 40;
  clock_skew_seconds = 0;
}

abbrev settings : PaygateConfig
settings = record {
  decline_amount_minor = 666;
  plan_for = λ key. failing;
  charge_fingerprint = λ b. b.amount_minor + 1000 * b.reference;
  refund_fingerprint = λ b. b.amount_minor + 1000 * b.charge_id;
}

abbrev order : ChargeBody
order = record { amount_minor = 900; currency = 1; reference = 40 }

abbrev idle : Server
idle = record {
  ledger = empty_ledger;
  forced_delays = record { per_charge = []; global = none };
  webhooks = [];
}

abbrev waiting_row : ChargeRow
waiting_row = new_row 1 100 (charge_input settings 7 order none)

abbrev waiting_slot : IdempotencyRecord
waiting_slot = charge_slot 1 100 (charge_input settings 7 order none)

abbrev waiting : Server
waiting = record idle {
  ledger = record empty_ledger { charges = waiting_row ∷ []; idempotency = waiting_slot ∷ [] };
}

failed_at_first :
    post_charge settings 1 100 (some 7) (some order) none idle ≡ (provider_error, waiting)
unfolding post_charge transaction
failed_at_first = refl

retry_after_500_example :
    let (answer, after) = post_charge settings 2 200 (some 7) (some order) (some 3) waiting in
    (answer ≡ charge_accepted 1)
    × (after.webhooks ≡ waiting.webhooks ++ messages settings 200 (some 3) waiting_row none)
    × (after.ledger
        ≡ settled_ledger settings 200 waiting_row (recovered 1 7 (some 3) waiting.ledger))
    × (find_first (λ (e : ℕ × ℕ). e.0 == 1) after.forced_delays.per_charge ≡ none)
    × (after.forced_delays.global ≡ none)
retry_after_500_example =
    retry_after_500 settings 2 200 7 order (some 3) waiting waiting_slot waiting_row refl refl refl
      refl refl refl

-- The webhook of the retry comes twice: after 50 milliseconds, and 40 later.
sent_twice :
    map (λ (w : DeliveryRequest × ℕ). w.1) (messages settings 200 (some 3) waiting_row none)
    ≡ 50 ∷ 90 ∷ []
sent_twice = refl

abbrev taken_slot : IdempotencyRecord
taken_slot = record waiting_slot { outcome = accepted }

abbrev taken : Server
taken = record idle {
  ledger = record empty_ledger {
    charges = settle ChargeStatus.succeeded 200 waiting_row ∷ [];
    idempotency = taken_slot ∷ [];
  };
}

replay_sends_nothing_example :
    post_charge settings 2 300 (some 7) (some order) none taken
    ≡ (charge_accepted 1, after_replay 7 taken)
replay_sends_nothing_example =
    replay_sends_nothing settings 2 300 7 order none taken taken_slot
      (settle ChargeStatus.succeeded 200 waiting_row) refl refl refl refl

abbrev settled_before : ImportedCharge
settled_before = record {
  id = 9;
  reference = 41;
  amount_minor = 500;
  currency = 1;
  idempotency_key = 70;
  status = ChargeStatus.succeeded;
  created_at = 10;
  occurred_at = 20;
  refunded_minor = 100;
}

first_import : import_rows (settled_before ∷ []) waiting.ledger ≡ (
  returned 1,
  record waiting.ledger { charges = waiting_row ∷ imported_row settled_before ∷ [] },
)
unfolding import_rows
first_import = refl
