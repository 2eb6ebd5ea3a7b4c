-- ===== src/Paygate/Server.antt =====
-- apps/paygate/src/app.ts and the ForcedDelays of ledger/ledger.ts: the routes that open charges
-- and refunds on the ledger of Postgres, and the webhooks that they send or schedule.
--
-- The log of the server is left out. The hash of a body and the plan of a key are functions of the
-- settings. A body is what the schema of the route parsed, or nothing. What a delivery does later
-- is not part of the route: a webhook is a request with the delay after which it is sent.
use project_atrium.Base.{
  ℕ, ◌+◌, ◌-◌, ◌*◌, Bool, not, Option, none, some, List, [], ◌∷◌, ◌++◌, ◌==◌, if◌then◌else◌,
  filter_by, find_first,
}
use project_atrium.Store.Status.{WebhookEvent, charge_succeeded, charge_failed, refund_succeeded}
use project_atrium.Paygate.Types.{
  Answer, TimingBranch, race_on_response, delayed, normal, ChaosPlan, DeliveryBranch, timed,
  duplicate, ChargeStatus, is_succeeded, Charge, Refund, returned, threw,
}
use project_atrium.Paygate.Tables.{ChargeRow, PostgresLedger}
use project_atrium.Paygate.Postgres.{materialise_charge, materialise_refund}

pub record ForcedDelays : Type 0 where
  pub per_charge : List (ℕ × ℕ)
  pub global : Option ℕ

abbrev pub is_for : ℕ → ℕ × ℕ → Bool
is_for charge_id e = e.0 == charge_id

-- `ForcedDelays.arm`
unfoldable pub arm : Option ℕ → ℕ → ForcedDelays → ForcedDelays
arm none delay_ms f = record f { global = some delay_ms }
arm (some charge_id) delay_ms f = record f {
  per_charge = (charge_id, delay_ms) ∷ filter_by (λ e. not (is_for charge_id e)) f.per_charge;
}

-- `ForcedDelays.take`
unfoldable pub take_delay : ℕ → ForcedDelays → Option ℕ × ForcedDelays
take_delay charge_id f = elim (find_first (is_for charge_id) f.per_charge) [
  | some own ↦
      (some own.1, record f { per_charge = filter_by (λ e. not (is_for charge_id e)) f.per_charge })
  | none ↦ (f.global, record f { global = none })
]

pub record DeliveryRequest : Type 0 where
  pub charge_id : ℕ
  pub reference : ℕ
  pub event : WebhookEvent
  pub amount_minor : ℕ
  pub occurred_at : ℕ
  pub refund_id : Option ℕ
  pub branch : DeliveryBranch
  pub idempotency_key : ℕ
  pub correlation_id : Option ℕ
  pub scheduled_delay_ms : ℕ
  pub force_corrupt_signature : Option Bool

pub record ChargeBody : Type 0 where
  pub amount_minor : ℕ
  pub currency : ℕ
  pub reference : ℕ

pub record RefundBody : Type 0 where
  pub charge_id : ℕ
  pub amount_minor : ℕ

-- The settings: the amount that is declined, the plan of a key, and the hash of a body.
pub record PaygateConfig : Type 0 where
  pub decline_amount_minor : ℕ
  pub plan_for : ℕ → ChaosPlan
  pub charge_fingerprint : ChargeBody → ℕ
  pub refund_fingerprint : RefundBody → ℕ

-- The ledger, the delays that are armed, and the webhooks so far, each with its delay.
pub record Server : Type 0 where
  pub ledger : PostgresLedger
  pub forced_delays : ForcedDelays
  pub webhooks : List (DeliveryRequest × ℕ)

abbrev pub sent_as : DeliveryRequest → DeliveryBranch → ℕ → DeliveryRequest × ℕ
sent_as base branch delay = (record base { branch = branch; scheduled_delay_ms = delay }, delay)

-- A race is delivered before the answer.
abbrev pub delay_of : TimingBranch → ℕ → ℕ
delay_of race_on_response first_delay_ms = 0
delay_of delayed first_delay_ms = first_delay_ms
delay_of normal first_delay_ms = first_delay_ms

-- The first webhook, and its duplicate where the plan has one.
abbrev pub webhooks_of : DeliveryRequest → ChaosPlan → TimingBranch → ℕ → List (DeliveryRequest × ℕ)
webhooks_of base plan timing first_delay_ms =
    let delay = delay_of timing first_delay_ms in
    sent_as base (timed timing) delay
    ∷ (if plan.duplicate_delivery
        then sent_as base duplicate (delay + plan.duplicate_gap_ms) ∷ []
        else [])

-- `dispatch`
unfoldable pub dispatch : DeliveryRequest → ChaosPlan → Server → Server
unfolding take_delay
dispatch base plan s =
    let (forced, left) = take_delay base.charge_id s.forced_delays in
    record s {
      forced_delays = left;
      webhooks = s.webhooks ++ (elim forced [
        | none ↦ webhooks_of base plan plan.timing plan.first_delay_ms
        | some ms ↦ webhooks_of base plan delayed ms
      ]);
    }

abbrev pub charge_event : ChargeStatus → WebhookEvent
charge_event status = if is_succeeded status then charge_succeeded else charge_failed

abbrev pub charge_request : ChargeRow → ℕ → DeliveryRequest
charge_request c at = record {
  charge_id = c.id;
  reference = c.reference;
  event = charge_event c.status;
  amount_minor = c.amount_minor;
  occurred_at = at;
  refund_id = none;
  branch = timed c.plan.timing;
  idempotency_key = c.idempotency_key;
  correlation_id = c.correlation_id;
  scheduled_delay_ms = 0;
  force_corrupt_signature = none;
}

abbrev pub outcome_of : PaygateConfig → ℕ → ChargeStatus
outcome_of cfg amount =
    if amount == cfg.decline_amount_minor then ChargeStatus.failed else ChargeStatus.succeeded

abbrev pub occurred : ℕ → ChaosPlan → ℕ
occurred now plan = now - plan.clock_skew_seconds * 1000

-- What follows the ledger's answer: `if (!settled) return`, and the dispatch.
unfoldable pub announce : Answer (Option ChargeRow) → ℕ → Server → Server
unfolding dispatch
announce (returned (some settled)) at s = dispatch (charge_request settled at) settled.plan s
announce (returned none) at s = s
announce threw at s = s

-- `materialiseCharge` of the server
unfoldable pub bring_to_life : PaygateConfig → ℕ → Charge → Server → Server
unfolding materialise_charge announce
bring_to_life cfg now c s =
    let at = occurred now c.plan in
    let (answer, ledger) = materialise_charge c.id (outcome_of cfg c.amount_minor) at s.ledger in
    announce answer at (record s { ledger = ledger })

abbrev pub refund_request : Refund → ℕ → DeliveryRequest
refund_request r at = record {
  charge_id = r.charge_id;
  reference = r.reference;
  event = refund_succeeded;
  amount_minor = r.amount_minor;
  occurred_at = at;
  refund_id = some r.id;
  branch = timed r.plan.timing;
  idempotency_key = r.idempotency_key;
  correlation_id = r.correlation_id;
  scheduled_delay_ms = 0;
  force_corrupt_signature = none;
}

-- `materialiseRefund` of the server
unfoldable pub bring_refund_to_life : ℕ → Refund → Server → Server
unfolding materialise_refund dispatch
bring_refund_to_life now r s =
    let at = occurred now r.plan in
    let (answer, ledger) = materialise_refund r.id at s.ledger in
    elim answer [
      | returned (some settled) ↦
          dispatch (refund_request settled at) settled.plan (record s { ledger = ledger })
      | returned none ↦ record s { ledger = ledger }
      | threw ↦ record s { ledger = ledger }
    ]
