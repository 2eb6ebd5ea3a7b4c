-- ===== src/Store.antt =====
-- The API's database: the tables of apps/api/src/db/schema.ts, and a transaction as a state and
-- error monad over them.
pub mod Status
pub mod Tables
pub mod Inventory
pub mod Transaction
pub mod Retry
