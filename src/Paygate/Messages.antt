-- ===== src/Paygate/Messages.antt =====
-- apps/paygate/src/app.ts: the webhooks that tell of the outcome of a charge, said without `dispatch`.
use project_atrium.Base.{
  ℕ, ◌+◌, ◌-◌, ◌*◌, ◌≡◌, refl, ap, none, [], ◌++◌, ◌==◌, not, filter_by, if◌then◌else◌,
  Option-cases, inl, inr, ◌∙◌, Option, some, List, [], ◌∷◌, find_first, arith,
}
use project_atrium.Store.Status.{charge_failed, charge_succeeded}
use project_atrium.Paygate.Types.{
  TimingBranch, race_on_response, delayed, normal, DeliveryBranch, timed, duplicate,
}
use project_atrium.Paygate.Tables.{ChargeRow}
use project_atrium.Paygate.Postgres.{settle, backfill}
use project_atrium.Paygate.Server.{
  ForcedDelays, is_for, take_delay, DeliveryRequest, sent_as, webhooks_of, PaygateConfig, Server,
  dispatch, charge_request, outcome_of, occurred,
}

-- The outcome that the server gives a charge, on its row.
abbrev pub settled_row : PaygateConfig → ℕ → ChargeRow → ChargeRow
settled_row cfg now d = settle (outcome_of cfg d.amount_minor) (occurred now d.plan) d

-- The delay that is armed for a charge: its own, or else the one for whichever charge is next.
abbrev pub armed_for : ℕ → ForcedDelays → Option ℕ
armed_for id f = elim (find_first (λ (e : ℕ × ℕ). e.0 == id) f.per_charge) [
  | some own ↦ some own.1
  | none ↦ f.global
]

abbrev pub global_after : ℕ → ForcedDelays → Option ℕ
global_after id f = elim (find_first (λ (e : ℕ × ℕ). e.0 == id) f.per_charge) [
  | some own ↦ f.global
  | none ↦ none
]

-- The branch and the delay of the first webhook.
abbrev pub first_of : Option ℕ → TimingBranch → ℕ → DeliveryBranch × ℕ
first_of (some ms) timing first_delay_ms = (timed delayed, ms)
first_of none race_on_response first_delay_ms = (timed race_on_response, 0)
first_of none delayed first_delay_ms = (timed delayed, first_delay_ms)
first_of none normal first_delay_ms = (timed normal, first_delay_ms)

-- What tells of the outcome of a charge.
abbrev pub message :
    PaygateConfig → ℕ → Option ℕ → ChargeRow → DeliveryBranch → ℕ → DeliveryRequest × ℕ
message cfg now correlation_id c branch delay = (
  record {
    charge_id = c.id;
    reference = c.reference;
    event = if c.amount_minor == cfg.decline_amount_minor then charge_failed else charge_succeeded;
    amount_minor = c.amount_minor;
    occurred_at = now - c.plan.clock_skew_seconds * 1000;
    refund_id = none;
    branch = branch;
    idempotency_key = c.idempotency_key;
    correlation_id = elim c.correlation_id [ none ↦ correlation_id | some own ↦ some own ];
    scheduled_delay_ms = delay;
    force_corrupt_signature = none;
  },
  delay,
)

abbrev pub messages :
    PaygateConfig → ℕ → Option ℕ → ChargeRow → Option ℕ → List (DeliveryRequest × ℕ)
messages cfg now correlation_id c forced =
    let (branch, delay) = first_of forced c.plan.timing c.plan.first_delay_ms in
    message cfg now correlation_id c branch delay
    ∷ (if c.plan.duplicate_delivery
        then message cfg now correlation_id c duplicate (delay + c.plan.duplicate_gap_ms) ∷ []
        else [])

disarmed :
    (id : ℕ) (es : List (ℕ × ℕ))
    → find_first (λ (e : ℕ × ℕ). e.0 == id) (filter_by (λ e. not (is_for id e)) es) ≡ none
disarmed id [] = refl
disarmed id (e ∷ es) = ground (arith, disarmed id es)

-- What `take` gives, and what it leaves armed.
module _ (id : ℕ) (f : ForcedDelays) where
  taken : (take_delay id f).0 ≡ armed_for id f
  unfolding take_delay
  taken = elim (Option-cases (find_first (λ (e : ℕ × ℕ). e.0 == id) f.per_charge)) [
    | inr (own, e) ↦ ground (arith, e)
    | inl e ↦ ground (arith, e)
  ]

  spent : find_first (λ (e : ℕ × ℕ). e.0 == id) (take_delay id f).1.per_charge ≡ none
  unfolding take_delay
  spent = elim (Option-cases (find_first (λ (e : ℕ × ℕ). e.0 == id) f.per_charge)) [
    | inr (own, e) ↦ ground (arith, e, disarmed id f.per_charge)
    | inl e ↦ ground (arith, e)
  ]

  global_left : (take_delay id f).1.global ≡ global_after id f
  unfolding take_delay
  global_left = elim (Option-cases (find_first (λ (e : ℕ × ℕ). e.0 == id) f.per_charge)) [
    | inr (own, e) ↦ ground (arith, e)
    | inl e ↦ ground (arith, e)
  ]

module _ (cfg : PaygateConfig) (now : ℕ) (o : Option ℕ) (c : ChargeRow) (s : Server) where
  request-message :
      (branch : DeliveryBranch) (delay : ℕ)
      → sent_as
          (charge_request (settled_row cfg now (backfill o c)) (occurred now c.plan))
          branch
          delay
        ≡ message cfg now o c branch delay
  request-message branch delay = ground arith

  both-messages :
      (first second : DeliveryBranch) (m n : ℕ)
      → let request = charge_request (settled_row cfg now (backfill o c)) (occurred now c.plan) in
        (sent_as request first m
          ∷ (if c.plan.duplicate_delivery then sent_as request second n ∷ [] else []))
        ≡ message cfg now o c first m
          ∷ (if c.plan.duplicate_delivery then message cfg now o c second n ∷ [] else [])
  both-messages first second m n = rw (request-message first m, request-message second n) refl

  -- The webhooks of a plan, and those of a delay that is armed.
  webhooks-planned :
      (timing : TimingBranch)
      → c.plan.timing ≡ timing
      → webhooks_of
          (charge_request (settled_row cfg now (backfill o c)) (occurred now c.plan))
          c.plan
          c.plan.timing
          c.plan.first_delay_ms
        ≡ messages cfg now o c none
  webhooks-planned race_on_response e = rw e (both-messages _ _ _ _)
  webhooks-planned delayed e = rw e (both-messages _ _ _ _)
  webhooks-planned normal e = rw e (both-messages _ _ _ _)

  webhooks-messages :
      (forced : Option ℕ)
      → let request = charge_request (settled_row cfg now (backfill o c)) (occurred now c.plan) in
        ◌≡◌ {A = List (DeliveryRequest × ℕ)}
          (elim forced [
            | none ↦ webhooks_of request c.plan c.plan.timing c.plan.first_delay_ms
            | some ms ↦ webhooks_of request c.plan delayed ms
          ])
          (messages cfg now o c forced)
  webhooks-messages none = webhooks-planned c.plan.timing refl
  webhooks-messages (some ms) = both-messages _ _ _ _

  pub dispatch_sends :
      let after =
        dispatch
          (charge_request (settled_row cfg now (backfill o c)) (occurred now c.plan))
          c.plan
          s in
      (after.webhooks ≡ s.webhooks ++ messages cfg now o c (armed_for c.id s.forced_delays))
      × (after.ledger ≡ s.ledger)
      × (find_first (λ (e : ℕ × ℕ). e.0 == c.id) after.forced_delays.per_charge ≡ none)
      × (after.forced_delays.global ≡ global_after c.id s.forced_delays)
  unfolding dispatch
  dispatch_sends = (
    ap (λ ws. s.webhooks ++ ws)
        (webhooks-messages (take_delay c.id s.forced_delays).0
          ∙ ap (messages cfg now o c) (taken c.id s.forced_delays)),
    refl,
    spent c.id s.forced_delays,
    global_left c.id s.forced_delays,
  )
