-- ===== src/Paygate/Retried.antt =====
-- apps/paygate/src/app.ts: a retry after a 500, and a retry after a 202.
use mathlib.Core.Option
use project_atrium.Base.{
  ℕ, ◌≡◌, refl, ap, none, [], ◌++◌, ◌==◌, ◌∙◌, subst, true, false, Option, some, List, [], ◌∷◌,
  find_first, find_first-update_where, update_where, arith,
}
use project_atrium.Paygate.Types.{
  hash, is_fingerprint, accepted, failed_500, IdempotencyRecord, Scope, is_slot, accept,
  replayed_once, Answer, returned, OpenChargeResult,
}
use project_atrium.Paygate.Tables.{ChargeRow, PostgresLedger, to_charge, with_id, transaction}
use project_atrium.Paygate.Postgres.{
  is_open, settle, backfill, materialise_charge, recover_from_transient_failure,
}
use project_atrium.Paygate.Opened.{open_charge_known}
use project_atrium.Paygate.Server.{
  ChargeBody, PaygateConfig, Server, announce, dispatch, charge_request, outcome_of, occurred,
  bring_to_life,
}
use project_atrium.Paygate.Routes.{
  charge_accepted, charge_input, recover, answer_charge, post_charge,
}
use project_atrium.Paygate.Messages.{settled_row, armed_for, global_after, messages, dispatch_sends}

abbrev pub after_replay : ℕ → Server → Server
after_replay key s = record s {
  ledger = record s.ledger {
    idempotency = update_where (is_slot Scope.charge key) replayed_once s.ledger.idempotency;
  };
}

module _ (cfg : PaygateConfig) (id now key : ℕ) (body : ChargeBody) (correlation_id : Option ℕ)
    (s : Server) (r : IdempotencyRecord) (c : ChargeRow)
    (known : find_first (is_slot Scope.charge key) s.ledger.idempotency ≡ some r)
    (same : is_fingerprint r.fingerprint (hash (cfg.charge_fingerprint body)) ≡ true)
    (there : find_first (with_id r.resource_id) s.ledger.charges ≡ some c) where
  replayed_as :
      post_charge cfg id now (some key) (some body) correlation_id s
      ≡ answer_charge cfg now key correlation_id
          (returned (OpenChargeResult.replayed (to_charge c [] []) (replayed_once r)))
          (after_replay key s)
  unfolding post_charge
  replayed_as =
      ap
        (λ (x : Answer OpenChargeResult × PostgresLedger).
          answer_charge cfg now key correlation_id x.0 (record s { ledger = x.1 }))
        (open_charge_known id now (charge_input cfg key body correlation_id) s.ledger r c known same
          there)

  -- Where a key was accepted and its charge is there, the same key with the same body is answered
  -- with the id of that charge and no webhook is sent: only the replay is counted.
  pub replay_sends_nothing :
      r.outcome ≡ accepted
      → post_charge cfg id now (some key) (some body) correlation_id s
        ≡ (charge_accepted c.id, after_replay key s)
  unfolding answer_charge recover
  replay_sends_nothing done = replayed_as ∙ ground (arith, done)

open_first :
    (id : ℕ) (cs : List ChargeRow) (d : ChargeRow)
    → find_first (with_id id) cs ≡ some d
    → d.materialised ≡ false
    → find_first (is_open id) cs ≡ some d
open_first id [] d there open_still = ground (arith, there)
open_first id (c ∷ cs) d there open_still = ground (arith, there, open_still, open_first id cs d)

-- The ledger once a charge of it has its outcome.
abbrev pub settled_ledger : PaygateConfig → ℕ → ChargeRow → PostgresLedger → PostgresLedger
settled_ledger cfg now d p = record p {
  charges =
      update_where (is_open d.id) (settle (outcome_of cfg d.amount_minor) (occurred now d.plan))
        p.charges;
}

lives :
    (cfg : PaygateConfig) (now : ℕ) (c : ChargeRow) (o : Option ℕ) (s : Server)
    → find_first (is_open c.id) s.ledger.charges ≡ some (backfill o c)
    → bring_to_life cfg now (to_charge c [] []) s
      ≡ dispatch
          (charge_request (settled_row cfg now (backfill o c)) (occurred now c.plan))
          c.plan
          (record s { ledger = settled_ledger cfg now c s.ledger })
unfolding bring_to_life materialise_charge announce
lives cfg now c o s found =
    ap
      (λ (x : Option ChargeRow).
        announce
          (returned (Option.map (settle (outcome_of cfg c.amount_minor) (occurred now c.plan)) x))
          (occurred now c.plan) (record s { ledger = settled_ledger cfg now c s.ledger }))
      found

-- The ledger once the replay of a retry is counted and the 500 is taken back.
abbrev pub recovered : ℕ → ℕ → Option ℕ → PostgresLedger → PostgresLedger
recovered id key correlation_id p = record p {
  idempotency =
      update_where (is_slot Scope.charge key) accept
        (update_where (is_slot Scope.charge key) replayed_once p.idempotency);
  charges = update_where (with_id id) (backfill correlation_id) p.charges;
}

module _ (cfg : PaygateConfig) (id now key : ℕ) (body : ChargeBody) (correlation_id : Option ℕ)
    (s : Server) (r : IdempotencyRecord) (c : ChargeRow) where
  found_open :
      find_first (with_id c.id) s.ledger.charges ≡ some c
      → c.materialised ≡ false
      → find_first (is_open c.id) (recovered c.id key correlation_id s.ledger).charges
        ≡ some (backfill correlation_id c)
  found_open there waits =
      open_first c.id _ (backfill correlation_id c)
        (find_first-update_where (with_id c.id) (backfill correlation_id) s.ledger.charges c
          (λ d. refl) there)
        waits

  recover_lives :
      r.outcome ≡ failed_500
      → find_first (with_id c.id) s.ledger.charges ≡ some c
      → c.materialised ≡ false
      → recover cfg now key correlation_id
          (to_charge c [] [])
          (replayed_once r)
          (after_replay key s)
        ≡ dispatch
            (charge_request (settled_row cfg now (backfill correlation_id c)) (occurred now c.plan))
            c.plan
            (record s {
              ledger = settled_ledger cfg now c (recovered c.id key correlation_id s.ledger);
            })
  unfolding recover recover_from_transient_failure transaction
  recover_lives failed there waits = rw failed (
      lives cfg now c correlation_id
        (record s { ledger = recovered c.id key correlation_id s.ledger }) (found_open there waits))

  retry_dispatches :
      find_first (is_slot Scope.charge key) s.ledger.idempotency ≡ some r
      → is_fingerprint r.fingerprint (hash (cfg.charge_fingerprint body)) ≡ true
      → find_first (with_id r.resource_id) s.ledger.charges ≡ some c
      → r.resource_id ≡ c.id
      → r.outcome ≡ failed_500
      → c.materialised ≡ false
      → post_charge cfg id now (some key) (some body) correlation_id s ≡ (
        charge_accepted c.id,
        dispatch
            (charge_request (settled_row cfg now (backfill correlation_id c)) (occurred now c.plan))
            c.plan
            (record s {
              ledger = settled_ledger cfg now c (recovered c.id key correlation_id s.ledger);
            }),
      )
  unfolding answer_charge
  retry_dispatches known same there named failed waits =
      replayed_as cfg id now key body correlation_id s r c known same there
      ∙ ap (λ (x : Server). (charge_accepted c.id, x))
          (recover_lives failed
            (subst (λ i. find_first (with_id i) s.ledger.charges ≡ some c) named there) waits)

  -- Where a key was answered with a 500 and its charge is there with no outcome, the same key with
  -- the same body is answered with the id of that charge; its request id is filled in where it had
  -- none, the charge is given its outcome, by its amount, and the 500 is taken back. One webhook
  -- tells of that outcome, and a duplicate where the plan of the charge has one: after the delay
  -- that is armed for the charge, if one is, and else as that plan says. No delay stays armed for
  -- the charge, and one that was armed for any charge is spent unless the charge had its own.
  pub retry_after_500 :
      find_first (is_slot Scope.charge key) s.ledger.idempotency ≡ some r
      → is_fingerprint r.fingerprint (hash (cfg.charge_fingerprint body)) ≡ true
      → find_first (with_id r.resource_id) s.ledger.charges ≡ some c
      → r.resource_id ≡ c.id
      → r.outcome ≡ failed_500
      → c.materialised ≡ false
      → let (answer, after) = post_charge cfg id now (some key) (some body) correlation_id s in
        (answer ≡ charge_accepted c.id)
        × (after.webhooks
            ≡ s.webhooks ++ messages cfg now correlation_id c (armed_for c.id s.forced_delays))
        × (after.ledger ≡ settled_ledger cfg now c (recovered c.id key correlation_id s.ledger))
        × (find_first (λ (e : ℕ × ℕ). e.0 == c.id) after.forced_delays.per_charge ≡ none)
        × (after.forced_delays.global ≡ global_after c.id s.forced_delays)
  retry_after_500 known same there named failed waits =
      let ledger = settled_ledger cfg now c (recovered c.id key correlation_id s.ledger) in
      let sent = dispatch_sends cfg now correlation_id c (record s { ledger = ledger }) in
      rw (retry_dispatches known same there named failed waits)
        (refl, sent.0, sent.1, sent.2, sent.3)
