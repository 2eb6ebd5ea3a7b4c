-- ===== src/System/Reach.antt =====
-- What holds of every database that the services reach.
use project_atrium.Base.{◌≡◌, []}
use project_atrium.Store.Tables.{Database}
use project_atrium.Bookings.Trail.{IsSound}
use project_atrium.Bookings.Sound.{Keeps-checkout, Keeps-cancel}
use project_atrium.Bookings.Held.{Keeps-expire_stale_holds, hold_once-IsSound}
use project_atrium.Payments.Delivered.{Keeps-ingest, Keeps-apply_delivery}
use project_atrium.Payments.Settled.{
  Keeps-settle_cancellation, Keeps-settle_refund, Keeps-poll_charge, Keeps-poll_refund,
  Keeps-prepare_payment, Keeps-record_charge,
}
use project_atrium.System.Step.{
  Step, by_hold, by_checkout, by_cancel, by_sweep, by_pay, by_charge, by_webhook, by_worker,
  by_cancellation, by_refund, by_charge_poll, by_refund_poll, Reach, at_start, after,
}

Step-IsSound : (db next : Database) → Step db next → IsSound db → IsSound next
Step-IsSound db _ (by_hold now env id input ctx p fresh) s =
    hold_once-IsSound now env id input ctx p db fresh s
Step-IsSound db _ (by_checkout now env id p) s = (Keeps-checkout now env id p).keep db s
Step-IsSound db _ (by_cancel now id reason p) s = (Keeps-cancel now id reason p).keep db s
Step-IsSound db _ (by_sweep locked now limit) s =
    (Keeps-expire_stale_holds locked now limit).keep db s
Step-IsSound db _ (by_pay now payment_id id p) s =
    (Keeps-prepare_payment now payment_id id p).keep db s
Step-IsSound db _ (by_charge now payment_id charge_id) s =
    (Keeps-record_charge now payment_id charge_id).keep db s
Step-IsSound db _ (by_webhook known now row delivery_id valid body) s =
    (Keeps-ingest known now row delivery_id valid body).keep db s
Step-IsSound db _ (by_worker now row) s = (Keeps-apply_delivery now row).keep db s
Step-IsSound db _ (by_cancellation now id) s = (Keeps-settle_cancellation now id).keep db s
Step-IsSound db _ (by_refund now i answer) s = (Keeps-settle_refund now i answer).keep db s
Step-IsSound db _ (by_charge_poll now payment charge_id state) s =
    (Keeps-poll_charge now payment charge_id state).keep db s
Step-IsSound db _ (by_refund_poll now payment charge_id refund_id amount state) s =
    (Keeps-poll_refund now payment charge_id refund_id amount state).keep db s

-- INV-1 and the audit trail, for every interleaving of the services: what is reached from a
-- database with no bookings, by any sequence of holds, checkouts,
-- cancellations, sweeps, payments, webhooks, worker transactions, refunds and polls, is sound.
-- Each booking's audit rows form a chain of legal moves from DRAFT to the state of its row, ids
-- are unique, and no two active bookings of one room overlap, the turnaround counted.
pub reached-IsSound : (start db : Database) → Reach start db → start.bookings ≡ [] → IsSound db
reached-IsSound start _ at_start no_bookings = record {
  tracked = rw no_bookings tt;
  unique = rw no_bookings tt;
  apart = rw no_bookings tt;
}
reached-IsSound start _ (after {db = db} {next = next} earlier step) no_bookings =
    Step-IsSound db next step (reached-IsSound start db earlier no_bookings)
