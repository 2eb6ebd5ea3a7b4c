-- ===== src/Lib.antt =====
-- Project Atrium: bookings of rooms and equipment, their payments and their refunds.
--
-- The API (apps/api) holds, charges, confirms, cancels and refunds bookings against one Postgres
-- database; the payment provider answers by webhooks, which a worker applies; a sweeper expires
-- holds that lapsed, and a poller settles what no webhook settled. Every change of a booking goes
-- through the state machine of apps/api/src/bookings, which also writes the audit trail.
--
-- How the code is modelled:
--   Base       names of the library, Boolean tests on numbers, and a table as the list of its rows;
--              Groups has GROUP BY, Slices the pages of a list, Int the difference of two amounts.
--   Store      the enums and tables of apps/api/src/db/schema.ts, and db.transaction as a state and
--              error monad that undoes what a transaction wrote when it throws; Retry has
--              apps/api/src/common/retry-transaction.ts, and Inventory the venues and rooms.
--   Bookings   apps/api/src/bookings. StateMachine has the methods of the BookingStateMachine under
--              their names (createHeld is create_held), Expiry its two expiries of holds; Service
--              and Hold have checkout, cancel and the hold transaction of bookings.service.ts,
--              Attempts its retries; Equipment has equipment-availability.ts. Outcomes, Checkout,
--              Cancel and Scope have what the operations leave on each branch, Trail what a sound
--              table of bookings is, Kept, Creation, Expired, Keeps, Sound and Held that the
--              operations keep it so; SweepLine and Admission are about the equipment, Final
--              about the errors of the hold transaction.
--   Payments   apps/api/src/payments/payments.service.ts. Pay has pay, Webhook has ingest and
--              applyInTransaction, Effects the three events of the provider, Settlement
--              settleCancellation, settleRefund and the two polls. Charged, Replay, Once, Quoted and
--              Split have their theorems; Sound, Delivered and Settled that they keep the bookings
--              sound.
--   Rooms      apps/api/src/rooms/availability.service.ts (Availability) and the time zones and
--              opening hours of apps/api/src/common/time (Zones, Hours). Offered, Advice and Clock
--              have their theorems; Days has a calendar for the tests.
--   Paygate    apps/paygate/src, the payment provider. Tables, Postgres and Deliveries have
--              ledger/postgres.ts: its statements, then its methods under their names; Memory and
--              Imported have ledger/memory.ts. Step has the histories of calls, Keeps and Kept
--              that a law which every statement keeps holds along them; Covered, Bound and
--              Settled are such laws, Shares what the first of them says. Runs, Opened and Refunding
--              have the outcomes of the methods, Once, Burnt, Mirror and Reimport what follows.
--              Rng and Chaos have rng.ts and chaos.ts, Server and Routes the two POST routes of
--              app.ts with ForcedDelays; Plans, Messages and Retried have their theorems.
--   Refunds    apps/api/src/payments/refund-policy.ts, and the console's estimate of
--              apps/web/lib/refund.ts (Preview).
--   Reconcile  apps/api/src/admin/reconciliation.service.ts: Checks has the statements of the nine
--              checks, Report run. Accounted and Joined say what a row with no discrepancy is,
--              Clean, Waived and Polled have the theorems.
--   Reports    apps/api/src/reports/reports.service.ts: Revenue has the aggregates, Report revenue;
--              Sums and Agree have the theorems.
--   Venues     apps/api/src/venues/venues-admin.service.ts: Settings has the venue and its equipment
--              types, Rooms its rooms, Commands the routes that write; Coherent and Crossed are
--              about the bounds of a room's duration.
--   Search     apps/api/src/search/search.service.ts (Query); Pages, Complete and Sound have the
--              theorems.
--   Workers    one tick of apps/api/src/bookings/hold-sweeper.service.ts (Sweeper), and the queue of
--              apps/api/src/payments/webhook-processor.service.ts (Queue, and Stalled about it).
--   System     all transactions as steps on one database, in any order.
--   Samples    rows for the tests.
--
-- Numbers. Ids are numbers, since ids are only compared and sorted; instants are milliseconds,
-- amounts are minor units (BigInt in the source, so there is no overflow). Subtraction stops at 0
-- where the source writes Math.max(0, …) or tests the sign; the places are named in the files.
-- Every loop is a recursion on a list, or on the attempts that are left; chunk in
-- apps/paygate/src/ledger/postgres.ts runs on as much fuel as there are items, and the loop of
-- enumerate on a round for each half hour up to the close of a window and one more, after
-- which the cursor is past the close. digits_onto, which writes an amount of a report as text,
-- has one round more than the amount, and so more than its digits. The guard of 800 days is the source's.
--
-- Concurrency. A transaction is atomic: the row locks, the advisory lock and the unique and
-- exclusion constraints are what the source relies on for that. A request of several
-- transactions (pay, a poll with its refund) is several steps, between which any other may run.
--
-- Not modelled: HTTP, authentication and the guards, JSON, the signature of a webhook and what the
-- provider answers to the API, which are arguments here; logging, the metadata of audit rows and
-- the text of a discrepancy; the retry of the payment transactions; what the schemas of the
-- requests refuse; the policies' own service; the timers; what
-- Intl.DateTimeFormat and Date.UTC know, a parameter of Rooms, and how Postgres compares cities, a
-- parameter of Search; the other routes and the deliverer of apps/paygate.
pub mod Base
pub mod Samples
pub mod Reconcile
pub mod Refunds
pub mod Store
pub mod Bookings
pub mod Reports
pub mod Rooms
pub mod Paygate
pub mod Payments
pub mod Search
pub mod System
pub mod Venues
pub mod Workers
