-- ===== src/System/Step.antt =====
-- A step is one committed or rolled back transaction of the API or the worker. What comes from
-- outside, the instants, the provider's answers, the bodies of webhooks and the ids that the
-- database draws, is any.
use project_atrium.Base.{ℕ, Bool, Option}
use Prim.Native.String.{String}
use project_atrium.Store.Tables.{AuthPrincipal, Payment, WebhookBody, Database}
use project_atrium.Store.Transaction.{Result}
use project_atrium.Bookings.Expiry.{expire_stale_holds}
use project_atrium.Bookings.Creation.{IsFresh}
use project_atrium.Bookings.Service.{Env, checkout, cancel}
use project_atrium.Bookings.Hold.{HoldInput, RoomContext, hold_once}
use project_atrium.Payments.Effects.{RefundInstruction}
use project_atrium.Payments.Pay.{prepare_payment, record_charge}
use project_atrium.Payments.Webhook.{ingest, apply_delivery}
use project_atrium.Payments.Settlement.{
  settle_cancellation, settle_refund, ProviderState, poll_charge, poll_refund,
}

-- One transaction, from a database to the next.
pub data Step (db : Database) : Database → Type 0 where
  by_hold :
      (now : ℕ) (env : Env) (id : ℕ) (input : HoldInput) (ctx : RoomContext) (p : AuthPrincipal)
      → IsFresh id db
      → Step db (hold_once now env id input ctx p db).1
  by_checkout :
      (now : ℕ) (env : Env) (id : ℕ) (p : AuthPrincipal) → Step db (checkout now env id p db).1
  by_cancel :
      (now id : ℕ) (reason : String) (p : AuthPrincipal) → Step db (cancel now id reason p db).1
  by_sweep :
      (locked : ℕ → Bool) (now limit : ℕ) → Step db (expire_stale_holds locked now limit db).1
  by_pay :
      (now payment_id id : ℕ) (p : AuthPrincipal)
      → Step db (prepare_payment now payment_id id p db).1
  by_charge : (now payment_id charge_id : ℕ) → Step db (record_charge now payment_id charge_id db).1
  by_webhook :
      (known : Bool) (now row delivery_id : ℕ) (valid : Bool) (body : Option WebhookBody)
      → Step db (ingest known now row delivery_id valid body db).1
  by_worker : (now row : ℕ) → Step db (apply_delivery now row db).1
  by_cancellation : (now id : ℕ) → Step db (settle_cancellation now id db).1
  by_refund :
      (now : ℕ) (i : RefundInstruction) (answer : Result ℕ)
      → Step db (settle_refund now i answer db).1
  by_charge_poll :
      (now : ℕ) (payment : Payment) (charge_id : ℕ) (state : ProviderState)
      → Step db (poll_charge now payment charge_id state db).1
  by_refund_poll :
      (now : ℕ) (payment : Payment) (charge_id refund_id amount : ℕ) (state : ProviderState)
      → Step db (poll_refund now payment charge_id refund_id amount state db).1

-- Any number of transactions, one after the other.
pub data Reach (start : Database) : Database → Type 0 where
  at_start : Reach start start
  after : {db next : Database} → Reach start db → Step db next → Reach start next
