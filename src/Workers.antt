-- ===== src/Workers.antt =====
-- The background work of apps/api: the hold sweeper and the queue of webhook deliveries.
pub mod Queue
pub mod Stalled
pub mod Sweeper
mod Tests
