-- ===== src/Paygate.antt =====
-- apps/paygate: the payment provider.
pub mod Types
pub mod Tables
pub mod Postgres
pub mod Deliveries
pub mod Memory
pub mod Imported
pub mod Step
pub mod Keeps
pub mod Kept
pub mod Runs
pub mod Refunding
pub mod Shares
pub mod Covered
pub mod Bound
pub mod Burnt
pub mod Opened
pub mod Once
pub mod Settled
pub mod Mirror
pub mod Rng
pub mod Chaos
pub mod Plans
pub mod Server
pub mod Routes
pub mod Messages
pub mod Retried
pub mod Reimport
pub mod Tests
pub mod RouteTests
