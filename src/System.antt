-- ===== src/System.antt =====
-- The services together: every transaction that writes bookings, payments or deliveries as a step
-- on one database, in any order.
pub mod Step
pub mod Reach
mod Tests
