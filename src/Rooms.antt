-- ===== src/Rooms.antt =====
-- apps/api/src/rooms and apps/api/src/common/time: when a room can be booked.
pub mod Zones
pub mod Hours
pub mod Availability
pub mod Offered
pub mod Advice
pub mod Clock
pub mod Days
pub mod Tests
